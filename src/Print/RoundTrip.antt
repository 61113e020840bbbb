-- ===== src/Print/RoundTrip.antt =====
-- `strtol` of lib/string.c reads back what `printnum` of lib/printfmt.c prints.
use native.Mathlib.Nat.{div-add-mod', mod-lt, div-lt_self, mod-eq_of_lt}
use jos_lab.Base.{
  ℕ, zero, suc, ◌+◌, ◌-◌, ◌*◌, ◌/◌, ◌%◌, ◌^◌, ◌≤◌, ◌<◌, ◌≡◌, ◌≢◌, refl, ◌∙◌, ap, false, ◌||◌, none,
  some, List, [], ◌∷◌, ◌++◌, All, length, length-append, ◌==◌, leb, Bool-cases, inl, inr, ok, arith,
}
use jos_lab.Strings.{Bytes}
use jos_lab.Strings.Number.{
  skip_blanks, digit_of, usable, digits_from, prefix, unsigned_part, strtol,
}
use jos_lab.Print.{digit, printnum}
use jos_lab.Print.Digits.{digit_value, digit_value-digit, value, value-snoc}

-- The characters are digits of the base, as `strtol` reads them.
abbrev pub IsDigit : ℕ → ℕ → Type 0
IsDigit base c = (digit_of c ≡ some (digit_value c)) × (digit_value c < base)

digit-IsDigit : (base d : ℕ) → base ≤ 16 → d < base → IsDigit base (digit d)
unfolding digit_of
digit-IsDigit base d high h = ground arith

All-snoc : (P : ℕ → Type 0) (xs : List ℕ) (x : ℕ) → All P xs → P x → All P (xs ++ (x ∷ []))
All-snoc P [] x all p = (p, _)
All-snoc P (y ∷ xs) x (q, all) p = (q, All-snoc P xs x all p)

-- Without a width, `printnum` prints digits only.
printnum-digits :
    (fuel num base width padc : ℕ)
    → 1 < base
    → base ≤ 16
    → width ≤ 1
    → num < fuel
    → (digits : List ℕ) × (printnum fuel num base width padc ≡ ok digits)
      × All (IsDigit base) digits
      × (value base 0 digits ≡ num)
      × (0 < length digits)
unfolding printnum
printnum-digits zero num base width padc low high thin lt = ground arith
printnum-digits (suc fuel) num base width padc low high thin lt =
    let rem : num % base < base = mod-lt num (omega arith) in
    let last = digit-IsDigit base (num % base) high rem in
    let shown : digit_value (digit (num % base)) ≡ num % base =
      digit_value-digit (num % base) (omega (arith, rem)) in
    elim (Bool-cases (leb base num)) [
      | inl big ↦
          let smaller : num / base < num = div-lt_self (ground arith) low in
          let (digits, runs, all, shows, nonempty) =
            printnum-digits fuel (num / base) base (width - 1) padc low high (omega arith)
              (omega (arith, smaller)) in
          (
            digits ++ (digit (num % base) ∷ []),
            rw (big, runs) refl,
            All-snoc (IsDigit base) digits (digit (num % base)) all last,
            value-snoc base 0 digits _ ∙ rw (shows, shown) (div-add-mod' num base),
            omega (arith, length-append digits (digit (num % base) ∷ []), nonempty),
          )
      | inr small ↦
          let none_left : width - 1 ≡ 0 = omega arith in
          let itself : num % base ≡ num = mod-eq_of_lt (ground arith) in
          (
            digit (num % base) ∷ [],
            rw (small, none_left) refl,
            (last, _),
            omega (arith, shown, itself),
            omega arith,
          )
    ]

value-le : (base acc : ℕ) (cs : List ℕ) → 0 < base → acc ≤ value base acc cs
value-le base acc [] pos = omega arith
value-le base acc (c ∷ cs) pos = grind (arith, value-le base (acc * base + digit_value c) cs pos)

-- The characters stand at `s` and on.
abbrev pub Written : Bytes → ℕ → List ℕ → Type 0
Written m s [] = Unit
Written m s (c ∷ cs) = (m s ≡ c) × Written m (s + 1) cs

zero_ends : digit_of 0 ≡ none
unfolding digit_of
zero_ends = refl

usable-some : (base d : ℕ) → d < base → usable base (some d) ≡ some d
usable-some base d h = ground arith

digits_from-value :
    (fuel base val s : ℕ) (m : Bytes) (cs : List ℕ)
    → 0 < base
    → length cs < fuel
    → All (IsDigit base) cs
    → Written m s (cs ++ (0 ∷ []))
    → value base val cs < 2 ^ 32
    → digits_from fuel base val s m ≡ ok (value base val cs, s + length cs)
unfolding digits_from
digits_from-value zero base val s m cs pos h all w fits = ground arith
digits_from-value (suc fuel) base val s m [] pos h all (end, _) fits =
    rw (end, zero_ends) (ap (λ n. ok (val, n)) (omega arith))
digits_from-value (suc fuel) base val s m (c ∷ cs) pos h ((reads, small), all) (here, w) fits =
    let next = val * base + digit_value c in
    let grows = value-le base next cs pos in
    let word : next % 2 ^ 32 ≡ next = mod-eq_of_lt (omega (arith, grows, fits)) in
    rw (here, reads, usable-some base (digit_value c) small, word)
      (digits_from-value fuel base next (s + 1) m cs pos (omega (arith, h)) all w fits
        ∙ ap (λ n. ok (value base next cs, n)) (omega arith))

-- The first character of a number is neither a blank nor a sign.
plain :
    (base c : ℕ)
    → base ≤ 16
    → IsDigit base c
    → ((c == 32) || (c == 9) ≡ false)
      × ((c == 43) ≡ false)
      × ((c == 45) ≡ false)
      × ((c == 120) ≡ false)
unfolding digit_of
plain base c high (reads, small) = ground arith

-- Before a 0 byte, a number of digits has no prefix.
no_prefix :
    (base s : ℕ) (m : Bytes) (c : ℕ) (cs : List ℕ)
    → 1 < base
    → base ≤ 16
    → All (IsDigit base) (c ∷ cs)
    → Written m s ((c ∷ cs) ++ (0 ∷ []))
    → (m (s + 1) == 120) ≡ false
no_prefix base s m c [] low high (d, all) (here, (next, _)) = rw next refl
no_prefix base s m c (e ∷ cs) low high (d, (f, all)) (here, (next, w)) =
    rw next (plain base e high f).3

skip_blanks-none :
    (fuel s : ℕ) (m : Bytes)
    → ((m s == 32) || (m s == 9)) ≡ false
    → skip_blanks (suc fuel) s m ≡ ok s
unfolding skip_blanks
skip_blanks-none fuel s m h = rw h refl

prefix-none :
    (base s : ℕ) (m : Bytes) → base ≢ 0 → (m (s + 1) == 120) ≡ false → prefix base s m ≡ (base, s)
unfolding prefix
prefix-none base s m given h = ground (arith, h)

reads-digits :
    (fuel base s : ℕ) (m : Bytes) (digits : List ℕ)
    → 1 < base
    → base ≤ 16
    → 0 < length digits
    → length digits < fuel
    → All (IsDigit base) digits
    → Written m s (digits ++ (0 ∷ []))
    → value base 0 digits < 2 ^ 32
    → strtol fuel s base m ≡ ok (value base 0 digits, s + length digits)
unfolding strtol unsigned_part
reads-digits fuel base s m [] low high nonempty h all w fits = ground arith
reads-digits zero base s m (c ∷ cs) low high nonempty h all w fits = ground arith
reads-digits (suc fuel) base s m (c ∷ cs) low high nonempty h all w fits =
    let (blank, plus, minus, _) = plain base c high all.0 in
    let start = skip_blanks-none fuel s m (rw (w.0) blank) in
    let no_plus : (m s == 43) ≡ false = rw (w.0) plus in
    let no_minus : (m s == 45) ≡ false = rw (w.0) minus in
    let bare = prefix-none base s m (omega (arith, low)) (no_prefix base s m c cs low high all w) in
    let read = digits_from-value (suc fuel) base 0 s m (c ∷ cs) (omega (arith, low)) h all w fits in
    rw start (rw (no_plus, no_minus) (rw bare (rw read refl)))

-- Every number below 2 ^ 32, printed by `printnum` without a width in a base from 2 to 16, is read
-- back by `strtol` in that base, wherever the digits stand in memory with a 0 byte behind them,
-- with more rounds than there are digits; the end that it reports is the 0 byte.
pub strtol-printnum :
    (num base padc : ℕ)
    → 1 < base
    → base ≤ 16
    → num < 2 ^ 32
    → (digits : List ℕ) × (printnum (num + 1) num base 1 padc ≡ ok digits)
      × ((fuel s : ℕ) (m : Bytes)
          → length digits < fuel
          → Written m s (digits ++ (0 ∷ []))
          → strtol fuel s base m ≡ ok (num, s + length digits))
strtol-printnum num base padc low high word =
    let (digits, runs, all, shows, nonempty) =
      printnum-digits (num + 1) num base 1 padc low high (omega arith) (omega arith) in
    (
      digits,
      runs,
      λ fuel s m h w.
          reads-digits fuel base s m digits low high nonempty h all w (omega (arith, shows, word))
          ∙ ap (λ n. ok (n, s + length digits)) shows,
    )
