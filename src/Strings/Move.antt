-- ===== src/Strings/Move.antt =====
-- `memmove` and `memset`, by what they leave at each address.
use jos_lab.Base.{
  ℕ, zero, suc, ◌+◌, ◌-◌, ◌*◌, ◌/◌, ◌%◌, ◌≤◌, ◌≡◌, ◌⊎◌, inl, inr, ◌∙◌, ap, ◌&&◌, ◌==◌, ltb, leb,
  if◌then◌else◌, Bool-cases, arith,
}
use jos_lab.Strings.{Bytes, move_unit, movs_up, movs_down, whole_words, memmove, rep_stos, memset}

-- The memory `m` with `n` bytes from `s` copied to `d`.
abbrev pub copied : ℕ → ℕ → ℕ → Bytes → Bytes
copied d s n m = λ a. if leb d a && ltb a (d + n) then m (s + (a - d)) else m a

up_one :
    (n s d : ℕ) (m : Bytes) (a : ℕ) → (d ≤ s) ⊎ (s + n ≤ d) → movs_up 1 n s d m a ≡ copied d s n m a
unfolding movs_up
up_one zero s d m a h = ground arith
up_one (suc n) s d m a h =
    up_one n (s + 1) (d + 1) (move_unit 1 s d m) a (ground arith) ∙ grind arith

up_four :
    (n s d : ℕ) (m : Bytes) (a : ℕ)
    → (d ≤ s) ⊎ (s + n * 4 ≤ d)
    → movs_up 4 n s d m a ≡ copied d s (n * 4) m a
unfolding movs_up
up_four zero s d m a h = ground arith
up_four (suc n) s d m a h =
    up_four n (s + 4) (d + 4) (move_unit 4 s d m) a (ground arith) ∙ grind arith

down_one : (n s d : ℕ) (m : Bytes) (a : ℕ) → s ≤ d → movs_down 1 n s d m a ≡ copied d s n m a
unfolding movs_down
down_one zero s d m a h = ground arith
down_one (suc n) s d m a h =
    down_one n s d (move_unit 1 (s + n * 1) (d + n * 1) m) a h ∙ ground arith

down_four : (n s d : ℕ) (m : Bytes) (a : ℕ) → s ≤ d → movs_down 4 n s d m a ≡ copied d s (n * 4) m a
unfolding movs_down
down_four zero s d m a h = ground arith
down_four (suc n) s d m a h =
    down_four n s d (move_unit 4 (s + n * 4) (d + n * 4) m) a h ∙ ground arith

-- `memmove` leaves the `n` bytes that were at `src` at `dst`, and nothing else changes, however
-- the two blocks overlap and whichever unit it moves.
pub memmove_lem :
    (dst src n a : ℕ) (m : Bytes)
    → memmove dst src n m a ≡ (if leb dst a && ltb a (dst + n) then m (src + (a - dst)) else m a)
unfolding memmove
memmove_lem d s n a m = elim (Bool-cases (ltb s d && ltb d (s + n))) [
  | inl overlap ↦ elim (Bool-cases (whole_words (s + n) (d + n) n)) [
    | inl words ↦
        let whole : n / 4 * 4 ≡ n = ground arith in
        rw (overlap, words)
          (down_four (n / 4) s d m a (ground arith) ∙ ap (λ x. copied d s x m a) whole)
    | inr bytes ↦ rw (overlap, bytes) (down_one n s d m a (ground arith))
  ]
  | inr apart ↦ elim (Bool-cases (whole_words s d n)) [
    | inl words ↦
        let whole : n / 4 * 4 ≡ n = ground arith in
        rw (apart, words)
          (up_four (n / 4) s d m a (ground arith) ∙ ap (λ x. copied d s x m a) whole)
    | inr bytes ↦ rw (apart, bytes) (up_one n s d m a (ground arith))
  ]
]

stos_one :
    (n v c a : ℕ) (m : Bytes) → rep_stos 1 n v c m a ≡ (if leb v a && ltb a (v + n) then c else m a)
unfolding rep_stos
stos_one zero v c a m = ground arith
stos_one (suc n) v c a m =
    stos_one n (v + 1) c a (λ b. if leb v b && ltb b (v + 1) then c else m b) ∙ ground arith

stos_four :
    (n v c a : ℕ) (m : Bytes)
    → rep_stos 4 n v c m a ≡ (if leb v a && ltb a (v + n * 4) then c else m a)
unfolding rep_stos
stos_four zero v c a m = ground arith
stos_four (suc n) v c a m =
    stos_four n (v + 4) c a (λ b. if leb v b && ltb b (v + 4) then c else m b) ∙ ground arith

-- `memset` leaves the low byte of `c` in the `n` bytes from `v` on, and nothing else changes,
-- whichever unit it stores.
pub memset_lem :
    (v c n a : ℕ) (m : Bytes)
    → memset v c n m a ≡ (if leb v a && ltb a (v + n) then c % 256 else m a)
unfolding memset
memset_lem v c n a m = elim (Bool-cases (n == 0)) [
  | inl empty ↦ rw empty (ground arith)
  | inr some ↦ elim (Bool-cases ((v % 4 == 0) && (n % 4 == 0))) [
    | inl words ↦
        let whole : n / 4 * 4 ≡ n = ground arith in
        rw (some, words)
          (stos_four (n / 4) v (c % 256) a m
            ∙ ap (λ x. if leb v a && ltb a (v + x) then c % 256 else m a) whole)
    | inr bytes ↦ rw (some, bytes) (stos_one n v (c % 256) a m)
  ]
]
