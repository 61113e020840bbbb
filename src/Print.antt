-- ===== src/Print.antt =====
-- lib/printfmt.c: `printnum`, and the buffer that `vsnprintf` prints to. What is printed is a list
-- of characters; the text that `vprintfmt` makes of a format is an argument of `vsnprintf`.
pub mod Digits
pub mod Buffer
pub mod RoundTrip
pub mod Format
pub mod Plain
pub mod Collect
use jos_lab.Base.{
  ℕ, zero, suc, ◌+◌, ◌-◌, ◌/◌, ◌%◌, Bool, true, false, ◌||◌, List, [], ◌∷◌, ◌++◌, replicate, ◌==◌,
  ltb, leb, if◌then◌else◌, update, Run, ok, stop, out_of_fuel, ◌>>=◌,
}
use jos_lab.Kernel.{Reply, ret, err, e_inval}
use jos_lab.Strings.{Bytes}

-- "0123456789abcdef"[d]
abbrev pub digit : ℕ → ℕ
digit d = if ltb d 10 then 48 + d else 87 + d

-- A `width` below 0 counts as 0.
unfoldable pub printnum : ℕ → ℕ → ℕ → ℕ → ℕ → Run (List ℕ)
printnum zero num base width padc = stop out_of_fuel
printnum (suc fuel) num base width padc =
    let more = printnum fuel (num / base) base (width - 1) padc in
    if leb base num
    then (do front ← more; ok (front ++ (digit (num % base) ∷ [])))
    else ok (replicate (width - 1) padc ++ (digit (num % base) ∷ []))

pub record Sprintbuf : Type 0 where
  pub buf : ℕ
  pub ebuf : ℕ
  pub cnt : ℕ
  pub memory : Bytes

unfoldable pub sprintputch : ℕ → Sprintbuf → Sprintbuf
sprintputch ch b =
    if ltb b.buf b.ebuf
    then record b { cnt = b.cnt + 1; buf = b.buf + 1; memory = update b.memory b.buf (ch % 256) }
    else record b { cnt = b.cnt + 1 }

-- The calls of `sprintputch` for the characters of a text.
unfoldable pub put_all : List ℕ → Sprintbuf → Sprintbuf
unfolding sprintputch
put_all [] b = b
put_all (ch ∷ rest) b = put_all rest (sprintputch ch b)

-- The result, and the memory after the call.
unfoldable pub vsnprintf : ℕ → ℕ → List ℕ → Bytes → Reply × Bytes
unfolding put_all
vsnprintf buf n text m =
    if (buf == 0) || ltb n 1
    then (err e_inval, m)
    else (let b = put_all text (record { buf = buf; ebuf = buf + n - 1; cnt = 0; memory = m }) in
        (ret b.cnt, update b.memory b.buf 0))
