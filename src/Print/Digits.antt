-- ===== src/Print/Digits.antt =====
-- The digits of `printnum`.
use native.Mathlib.Nat.{div-add-mod', mod-lt, div-lt_self, mod-eq_of_lt}
use jos_lab.Base.{
  ℕ, zero, suc, ◌+◌, ◌-◌, ◌*◌, ◌/◌, ◌%◌, ◌≤◌, ◌<◌, ◌≡◌, refl, ◌∙◌, ap, List, [], ◌∷◌, ◌++◌, length,
  length-append, replicate, max, ltb, leb, if◌then◌else◌, Bool-cases, inl, inr, ok, arith,
}
use jos_lab.Print.{digit, printnum}

-- The number that a string of digits shows.
abbrev pub digit_value : ℕ → ℕ
digit_value c = if ltb c 58 then c - 48 else c - 87

abbrev pub value : ℕ → ℕ → List ℕ → ℕ
value base acc [] = acc
value base acc (c ∷ cs) = value base (acc * base + digit_value c) cs

pub value-snoc :
    (base acc : ℕ) (cs : List ℕ) (c : ℕ)
    → value base acc (cs ++ (c ∷ [])) ≡ value base acc cs * base + digit_value c
value-snoc base acc [] c = refl
value-snoc base acc (d ∷ cs) c = value-snoc base (acc * base + digit_value d) cs c

pub digit_value-digit : (d : ℕ) → d < 16 → digit_value (digit d) ≡ d
digit_value-digit d h = ground arith

append_assoc : (xs ys zs : List ℕ) → (xs ++ ys) ++ zs ≡ xs ++ (ys ++ zs)
append_assoc [] ys zs = refl
append_assoc (x ∷ xs) ys zs = ap (λ us. x ∷ us) (append_assoc xs ys zs)

-- `printnum` of a number in a base from 2 to 16, with more rounds than the number, prints pad
-- characters and then digits that show the number in that base, as many pad characters as the
-- width asks for beyond the digits.
pub printnum_lem :
    (fuel num base width padc : ℕ)
    → 1 < base
    → base ≤ 16
    → num < fuel
    → (pads : ℕ) × (digits : List ℕ) × (printnum fuel num base width padc
        ≡ ok (replicate pads padc ++ digits))
      × (value base 0 digits ≡ num)
      × (0 < length digits)
      × (pads + length digits ≡ max (length digits) width)
unfolding printnum
printnum_lem zero num base width padc low high lt = ground arith
printnum_lem (suc fuel) num base width padc low high lt = elim (Bool-cases (leb base num)) [
  | inl big ↦
      let smaller : num / base < num = div-lt_self (ground arith) low in
      let (pads, digits, runs, shows, some, fills) =
        printnum_lem fuel (num / base) base (width - 1) padc low high (omega (arith, smaller)) in
      let positive : 0 < base = omega arith in
      let rem : num % base < base = mod-lt num positive in
      let last = digit_value-digit (num % base) (omega (arith, rem)) in
      (
        pads,
        digits ++ (digit (num % base) ∷ []),
        rw (big, runs) (ap ok (append_assoc (replicate pads padc) digits _)),
        value-snoc base 0 digits _ ∙ rw (shows, last) (div-add-mod' num base),
        omega (arith, length-append digits (digit (num % base) ∷ [])),
        omega (arith, length-append digits (digit (num % base) ∷ [])),
      )
  | inr small ↦
      let below : num < base = ground arith in
      let itself : num % base ≡ num = mod-eq_of_lt below in
      (
        width - 1,
        digit (num % base) ∷ [],
        rw small refl,
        rw itself (omega (arith, digit_value-digit num (omega arith))),
        omega arith,
        omega arith,
      )
]
