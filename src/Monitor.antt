-- ===== src/Monitor.antt =====
-- lib/readline.c: the line editor of the monitor. The input is what `getchar` returns, `none` for a
-- negative value; a run that waits for more input has run out of fuel. The echo is left out. Monitor/Command is
-- `runcmd` of kern/monitor.c.
pub mod Line
pub mod Command
pub mod Words
pub mod Loops
pub mod Arguments
pub mod Lookup
use jos_lab.Base.{
  ℕ, zero, suc, ◌+◌, ◌-◌, ◌%◌, ◌&&◌, ◌||◌, Bool, Option, none, some, List, [], ◌∷◌, ◌==◌, ltb, leb,
  if◌then◌else◌, update, Run, ok, stop, out_of_fuel,
}
use jos_lab.Strings.{Bytes}

abbrev pub buflen : ℕ
buflen = 1024

abbrev pub erases : ℕ → Bool
erases c = (c == 8) || (c == 127)

abbrev pub ends : ℕ → Bool
ends c = (c == 10) || (c == 13)

-- The loop, with `i` characters in the buffer: the buffer at the end, or `none` for an error.
unfoldable pub readline_from : List (Option ℕ) → ℕ → Bytes → Run (Option Bytes)
readline_from [] i buf = stop out_of_fuel
readline_from (none ∷ rest) i buf = ok none
readline_from (some c ∷ rest) i buf =
    let erased = readline_from rest (i - 1) buf in
    let typed = readline_from rest (i + 1) (update buf i (c % 256)) in
    let ignored = readline_from rest i buf in
    if erases c && ltb 0 i
    then erased
    else if leb 32 c && ltb i (buflen - 1)
    then typed
    else if ends c
    then ok (some (update buf i 0))
    else ignored

unfoldable pub readline : List (Option ℕ) → Bytes → Run (Option Bytes)
unfolding readline_from
readline input buf = readline_from input 0 buf
