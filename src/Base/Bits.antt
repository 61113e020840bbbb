-- ===== src/Base/Bits.antt =====
-- Laws of the native bit operations at variables, from the recursion on binary digits that they
-- stand for.
use Prim.Native.Nat.{
  ℕ, zero, suc, ◌+◌, ◌*◌, ◌/◌, ◌%◌, ◌^◌, ◌≤◌, ◌<◌, min, max, bit_and, bit_or, digits, bitwise,
  bit_and-bitwise, bit_or-bitwise,
}
use mathlib.Core.Path.{◌≡◌, refl, ap}
use mathlib.Core.WellFounded.{Acc, WellFounded}
use native.Mathlib.Omega.{arith}
use native.Mathlib.Nat.{le_refl, div-div-eq-div-mul, pow-succ', div-one}

below_acc : (k n : ℕ) → n < k → Acc ◌<◌ n
below_acc zero n h = elim h [ ]
below_acc (suc k) n h = Acc.intro n (λ m hm. below_acc k m (omega arith))

pub lt_wf : WellFounded ◌<◌
lt_wf = record { apply = λ n. below_acc (suc n) n (omega arith) }

module _ (rest : ℕ → ℕ) (bit : ℕ → ℕ → ℕ) where
  -- Any fuel that is large enough gives the same digits.
  fuel_irrelevant : (j k a b : ℕ) → a ≤ j → a ≤ k → digits rest bit j a b ≡ digits rest bit k a b
  fuel_irrelevant zero zero a b p q = refl
  fuel_irrelevant zero (suc k) zero b p q = refl
  fuel_irrelevant zero (suc k) (suc a) b p q = absurd (omega arith)
  fuel_irrelevant (suc j) zero zero b p q = refl
  fuel_irrelevant (suc j) zero (suc a) b p q = absurd (omega arith)
  fuel_irrelevant (suc j) (suc k) zero b p q = refl
  fuel_irrelevant (suc j) (suc k) (suc a) b p q =
      rw (fuel_irrelevant j k (suc a / 2) (b / 2) (omega arith) (omega arith))

  lowest_digit :
      (a b : ℕ)
      → bitwise rest bit (suc a) b
        ≡ bitwise rest bit (suc a / 2) (b / 2) * 2 + bit (suc a % 2) (b % 2)
  lowest_digit a b =
      omega (arith, fuel_irrelevant a (suc a / 2) (suc a / 2) (b / 2) (omega arith) (le_refl _))

pub bit_or_digit : (a b : ℕ) → bit_or a b ≡ bit_or (a / 2) (b / 2) * 2 + max (a % 2) (b % 2)
bit_or_digit zero b = simp bit_or-bitwise (omega arith)
bit_or_digit (suc a) b = simp bit_or-bitwise (lowest_digit (λ y. y) max a b)

pub bit_and_digit : (a b : ℕ) → bit_and a b ≡ bit_and (a / 2) (b / 2) * 2 + min (a % 2) (b % 2)
bit_and_digit zero b = simp bit_and-bitwise (omega arith)
bit_and_digit (suc a) b = simp bit_and-bitwise (lowest_digit (λ y. 0) min a b)

pub bit_or-mod_two : (a b : ℕ) → bit_or a b % 2 ≡ max (a % 2) (b % 2)
bit_or-mod_two a b = omega (arith, bit_or_digit a b)

pub bit_and-mod_two : (a b : ℕ) → bit_and a b % 2 ≡ min (a % 2) (b % 2)
bit_and-mod_two a b = omega (arith, bit_and_digit a b)

zero-bit_or_upto : (n b : ℕ) → b ≤ n → bit_or 0 b ≡ b
zero-bit_or_upto zero zero h = refl
zero-bit_or_upto zero (suc b) h = absurd (omega arith)
zero-bit_or_upto (suc n) zero h = refl
zero-bit_or_upto (suc n) (suc b) h =
    omega (arith, bit_or_digit 0 (suc b), zero-bit_or_upto n (suc b / 2) (omega arith))

pub zero-bit_or : (b : ℕ) → bit_or 0 b ≡ b
zero-bit_or b = zero-bit_or_upto b b (le_refl b)

bit_or-zero_upto : (n a : ℕ) → a ≤ n → bit_or a 0 ≡ a
bit_or-zero_upto zero zero h = refl
bit_or-zero_upto zero (suc a) h = absurd (omega arith)
bit_or-zero_upto (suc n) zero h = refl
bit_or-zero_upto (suc n) (suc a) h =
    omega (arith, bit_or_digit (suc a) 0, bit_or-zero_upto n (suc a / 2) (omega arith))

pub bit_or-zero : (a : ℕ) → bit_or a 0 ≡ a
bit_or-zero a = bit_or-zero_upto a a (le_refl a)

halve : (a k : ℕ) → a / 2 ^ suc k ≡ a / 2 / 2 ^ k
halve a k = rw (pow-succ' 2 k, ← div-div-eq-div-mul a 2 (2 ^ k)) refl

-- A shift right goes through `|` and `&`.
pub bit_or-div : (k a b : ℕ) → bit_or a b / 2 ^ k ≡ bit_or (a / 2 ^ k) (b / 2 ^ k)
bit_or-div zero a b = simp div-one
bit_or-div (suc k) a b =
    let half : bit_or a b / 2 ≡ bit_or (a / 2) (b / 2) = omega (arith, bit_or_digit a b) in
    rw (halve (bit_or a b) k, halve a k, halve b k, half) (bit_or-div k (a / 2) (b / 2))

pub bit_and-div : (k a b : ℕ) → bit_and a b / 2 ^ k ≡ bit_and (a / 2 ^ k) (b / 2 ^ k)
bit_and-div zero a b = simp div-one
bit_and-div (suc k) a b =
    let half : bit_and a b / 2 ≡ bit_and (a / 2) (b / 2) = omega (arith, bit_and_digit a b) in
    rw (halve (bit_and a b) k, halve a k, halve b k, half) (bit_and-div k (a / 2) (b / 2))

-- Bit `k` of `a | b` and of `a & b`.
pub bit_or_bit : (k a b : ℕ) → bit_or a b / 2 ^ k % 2 ≡ max (a / 2 ^ k % 2) (b / 2 ^ k % 2)
bit_or_bit k a b = rw (bit_or-div k a b) (bit_or-mod_two (a / 2 ^ k) (b / 2 ^ k))

pub bit_and_bit : (k a b : ℕ) → bit_and a b / 2 ^ k % 2 ≡ min (a / 2 ^ k % 2) (b / 2 ^ k % 2)
bit_and_bit k a b = rw (bit_and-div k a b) (bit_and-mod_two (a / 2 ^ k) (b / 2 ^ k))

-- `|` of a multiple of `2 ^ k` and a number of `k` bits is their sum.
pub bit_or-add : (k a b : ℕ) → b < 2 ^ k → bit_or (a * 2 ^ k) b ≡ a * 2 ^ k + b
bit_or-add zero a b h = ground (arith, bit_or-zero a)
bit_or-add (suc k) a b h =
    let e : a * 2 ^ suc k ≡ 2 * (a * 2 ^ k) =
      omega (arith, ap (λ (t : ℕ). a * t) (pow-succ' 2 k)) in
    let low : b / 2 < 2 ^ k = omega (arith, pow-succ' 2 k) in
    let top : a * 2 ^ suc k / 2 ≡ a * 2 ^ k = omega arith in
    let ih : bit_or (a * 2 ^ suc k / 2) (b / 2) ≡ a * 2 ^ k + b / 2 =
      rw top (bit_or-add k a (b / 2) low) in
    omega (arith, bit_or_digit (a * 2 ^ suc k) b)
