-- ===== src/Print/Plain.antt =====
-- What `vprintfmt` of lib/printfmt.c does with the plain text of a format.
use jos_lab.Base.{
  ℕ, zero, suc, ◌+◌, ◌-◌, ◌^◌, ◌≤◌, ◌<◌, ◌≡◌, refl, ◌∙◌, ap, false, List, [], ◌∷◌, ◌++◌, All,
  length, ◌==◌, Run, ok, stop, ◌>>=◌, arith,
}
use jos_lab.Strings.{Bytes}
use jos_lab.Print.Format.{plain, conv, vprintfmt_from, vprintfmt}
use jos_lab.Print.RoundTrip.{Written, strtol-printnum}
use jos_lab.Strings.Number.{strtol}
use jos_lab.Print.{printnum}

-- Neither '%' nor the end of a string.
abbrev pub IsPlain : ℕ → Type 0
IsPlain c = ((c == 37) ≡ false) × ((c == 0) ≡ false)

ok->>= : {A : Type 0} (r : Run A) → r ≡ (r >>= λ x. ok x)
ok->>= (ok x) = refl
ok->>= (stop h) = refl

prepend->>= :
    (c : ℕ) (text : List ℕ) (r : Run (List ℕ))
    → ((r >>= λ rest. ok (text ++ rest)) >>= λ more. ok (c ∷ more))
      ≡ (r >>= λ rest. ok ((c ∷ text) ++ rest))
prepend->>= c text (ok x) = refl
prepend->>= c text (stop h) = refl

-- A text without '%' that stands in the format is printed as it is, one round of the loop for each
-- character, and the loop goes on behind it.
pub vprintfmt_from-plain :
    (text : List ℕ) (fuel fmt args : ℕ) (m : Bytes) (stack : ℕ → ℕ)
    → All IsPlain text
    → Written m fmt text
    → vprintfmt_from (length text + fuel) m stack plain fmt args
      ≡ (vprintfmt_from fuel m stack plain (fmt + length text) args >>= λ rest. ok (text ++ rest))
unfolding vprintfmt_from
vprintfmt_from-plain [] fuel fmt args m stack all written =
    let none_more : length {A = ℕ} [] + fuel ≡ fuel = omega arith in
    let same : fmt + length {A = ℕ} [] ≡ fmt = omega arith in
    rw (none_more, same) (ok->>= (vprintfmt_from fuel m stack plain fmt args))
vprintfmt_from-plain (c ∷ text) fuel fmt args m stack ((percent, end), all) (here, written) =
    let IH = vprintfmt_from-plain text fuel (fmt + 1) args m stack all written in
    let one_more : length (c ∷ text) + fuel ≡ suc (length text + fuel) = omega arith in
    let place : fmt + length (c ∷ text) ≡ fmt + 1 + length text = omega arith in
    rw (one_more, place, here, percent, end, IH) (prepend->>= c text _)

-- A width of 0 and of 1 pad nothing.
printnum-thin :
    (fuel num base padc : ℕ) → printnum fuel num base 0 padc ≡ printnum fuel num base 1 padc
unfolding printnum
printnum-thin zero num base padc = refl
printnum-thin (suc fuel) num base padc = refl

Written-parts :
    (m : Bytes) (s : ℕ) (xs ys : List ℕ)
    → Written m s (xs ++ ys)
    → Written m s xs × Written m (s + length xs) ys
Written-parts m s [] ys w = let same : s + length {A = ℕ} [] ≡ s = omega arith in (_, rw same w)
Written-parts m s (x ∷ xs) ys (here, w) =
    let (front, back) = Written-parts m (s + 1) xs ys w in
    let place : s + length (x ∷ xs) ≡ s + 1 + length xs = omega arith in
    ((here, front), rw place back)

-- The end of a format "%x": the digits of the argument.
vprintfmt_from-hex :
    (fuel fmt args : ℕ) (m : Bytes) (stack : ℕ → ℕ) (digits : List ℕ)
    → Written m fmt (37 ∷ 120 ∷ 0 ∷ [])
    → printnum (stack args + 1) (stack args) 16 1 32 ≡ ok digits
    → vprintfmt_from (suc (suc (suc fuel))) m stack plain fmt args ≡ ok (digits ++ [])
unfolding vprintfmt_from conv
vprintfmt_from-hex fuel fmt args m stack digits (percent, (letter, (end, _))) runs =
    let behind : fmt + 1 + 1 - 1 ≡ fmt + 1 = omega arith in
    let read = printnum-thin (stack args + 1) (stack args) 16 32 ∙ runs in
    rw (percent, behind, letter, read, end) refl

append_nil : (xs : List ℕ) → xs ++ [] ≡ xs
append_nil [] = refl
append_nil (x ∷ xs) = ap (λ ys. x ∷ ys) (append_nil xs)

vprintfmt-hex :
    (text : List ℕ) (fuel fmt args : ℕ) (m : Bytes) (stack : ℕ → ℕ) (digits : List ℕ)
    → All IsPlain text
    → Written m fmt (text ++ (37 ∷ 120 ∷ 0 ∷ []))
    → printnum (stack args + 1) (stack args) 16 1 32 ≡ ok digits
    → length text + 3 ≤ fuel
    → vprintfmt fuel fmt args m stack ≡ ok (text ++ digits)
unfolding vprintfmt
vprintfmt-hex text fuel fmt args m stack digits all written runs enough =
    let (front, back) = Written-parts m fmt text (37 ∷ 120 ∷ 0 ∷ []) written in
    let spare = fuel - (length text + 3) in
    let split : fuel ≡ length text + suc (suc (suc spare)) = omega arith in
    let first = vprintfmt_from-plain text (suc (suc (suc spare))) fmt args m stack all front in
    let rest = vprintfmt_from-hex spare (fmt + length text) args m stack digits back runs in
    rw (split, first, rest) (ap (λ ys. ok (text ++ ys)) (append_nil digits))

-- A format of plain text and "%x": with as many rounds as it has characters, the 0 byte included,
-- `vprintfmt` prints the text and behind it digits that `strtol` reads back in base 16 as the
-- argument, which is below 2 ^ 32, wherever they stand with a 0 byte behind them, with more rounds
-- than there are digits.
pub strtol-vprintfmt :
    (text : List ℕ) (fmt args : ℕ) (m : Bytes) (stack : ℕ → ℕ)
    → All IsPlain text
    → Written m fmt (text ++ (37 ∷ 120 ∷ 0 ∷ []))
    → stack args < 2 ^ 32
    → (digits : List ℕ) × ((fuel : ℕ)
        → length text + 3 ≤ fuel
        → vprintfmt fuel fmt args m stack ≡ ok (text ++ digits))
      × ((fuel s : ℕ) (out : Bytes)
          → length digits < fuel
          → Written out s (digits ++ (0 ∷ []))
          → strtol fuel s 16 out ≡ ok (stack args, s + length digits))
strtol-vprintfmt text fmt args m stack all written word =
    let (digits, runs, reads) =
      strtol-printnum (stack args) 16 32 (omega arith) (omega arith) word in
    (
      digits,
      λ fuel. λ enough. vprintfmt-hex text fuel fmt args m stack digits all written runs enough,
      reads,
    )
