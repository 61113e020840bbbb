-- ===== src/Strings/Compare.antt =====
-- `strcmp`, `memcmp`, `strchr` and `memfind`: what their results say.
use jos_lab.Base.{
  ℕ, zero, suc, ◌+◌, ◌-◌, ◌<◌, ◌≡◌, ◌≢◌, ◌⊎◌, ◌↔◌, inl, inr, refl, ◌∙◌, ap, true, false, ◌==◌,
  Bool-cases, arith, List, [], ◌∷◌, length, ok, none, some, has,
}
use jos_lab.Strings.{Bytes, byte_diff, strcmp, memcmp, strchr}
use jos_lab.Strings.Length.{StringAt}

byte_diff_zero : (p q : ℕ) → p < 256 → q < 256 → byte_diff p q ≡ 0 → p ≡ q
byte_diff_zero p q hp hq e = ground arith

diff_self : (p : ℕ) → p < 256 → byte_diff p p ≡ 0
diff_self p h = ground arith

-- In a memory of bytes, `strcmp` of two strings, with more rounds than the first is long,
-- returns, and returns 0 exactly if they are equal.
pub strcmp_lem :
    (fuel p q : ℕ) (m : Bytes) (xs ys : List ℕ)
    → ((a : ℕ) → m a < 256)
    → StringAt m p xs
    → StringAt m q ys
    → length xs < fuel
    → (d : ℕ) × (strcmp fuel p q m ≡ ok d) × ((d ≡ 0) ↔ (xs ≡ ys))
unfolding strcmp
strcmp_lem zero p q m xs ys bytes h g lt = ground arith
strcmp_lem (suc fuel) p q m [] [] bytes h g lt =
    let end : (m p == 0) ≡ true = ground arith in
    (byte_diff (m p) (m q), rw end refl, (λ _. refl, λ _. rw (h, g) refl))
strcmp_lem (suc fuel) p q m [] (y ∷ ys) bytes h (e, ne, g) lt =
    let end : (m p == 0) ≡ true = ground arith in
    let apart : byte_diff (m p) (m q) ≢ 0 =
      λ z. ground (arith, byte_diff_zero (m p) (m q) (bytes p) (bytes q) z) in
    (
      byte_diff (m p) (m q),
      rw end refl,
      (λ z. ground (arith, apart z), λ z. ground (arith, ap length z)),
    )
strcmp_lem (suc fuel) p q m (x ∷ xs) [] bytes (e, ne, h) g lt =
    let differ : (m p == m q) ≡ false = ground arith in
    let apart : byte_diff (m p) (m q) ≢ 0 =
      λ z. ground (arith, byte_diff_zero (m p) (m q) (bytes p) (bytes q) z) in
    let more : (m p == 0) ≡ false = ground arith in
    (
      byte_diff (m p) (m q),
      rw (more, differ) refl,
      (λ z. ground (arith, apart z), λ z. ground (arith, ap length z)),
    )
strcmp_lem (suc fuel) p q m (x ∷ xs) (y ∷ ys) bytes (e, ne, h) (f, nf, g) lt =
    let more : (m p == 0) ≡ false = ground arith in
    elim (Bool-cases (m p == m q)) [
      | inl same ↦
          let (d, runs, iff) = strcmp_lem fuel (p + 1) (q + 1) m xs ys bytes h g (omega arith) in
          let head : x ≡ y = ground arith in
          (
            d,
            rw (more, same) runs,
            (λ z. ap (λ u. u ∷ xs) head ∙ ap (λ us. y ∷ us) (iff.0 z), λ z. iff.1 (ap tail_of z)),
          )
      | inr differ ↦
          let apart : byte_diff (m p) (m q) ≢ 0 =
            λ z. ground (arith, byte_diff_zero (m p) (m q) (bytes p) (bytes q) z) in
          (
            byte_diff (m p) (m q),
            rw (more, differ) refl,
            (λ z. ground (arith, apart z), λ z. ground (arith, ap head_of z)),
          )
    ]
  where
    tail_of : List ℕ → List ℕ
    tail_of [] = []
    tail_of (x ∷ xs) = xs

    head_of : List ℕ → ℕ
    head_of [] = 0
    head_of (x ∷ xs) = x

-- In a memory of bytes, `memcmp` returns 0 exactly if the two blocks of `n` bytes are equal.
pub memcmp_lem :
    (n s1 s2 : ℕ) (m : Bytes)
    → ((a : ℕ) → m a < 256)
    → (memcmp s1 s2 n m ≡ 0) ↔ ((i : ℕ) → i < n → m (s1 + i) ≡ m (s2 + i))
unfolding memcmp
memcmp_lem zero s1 s2 m bytes = (λ _ i lt. ground arith, λ _. refl)
memcmp_lem (suc n) s1 s2 m bytes = elim (Bool-cases (m s1 == m s2)) [
  | inl same ↦
      let (all, back) = memcmp_lem n (s1 + 1) (s2 + 1) m bytes in
      rw same (
        λ z i lt. elim (Bool-cases (i == 0)) [
          | inl first ↦ ground arith
          | inr later ↦
              let there = all z (i - 1) (ground arith) in
              let p1 : s1 + 1 + (i - 1) ≡ s1 + i = ground arith in
              let p2 : s2 + 1 + (i - 1) ≡ s2 + i = ground arith in rw⁻¹ (p1, p2) there
        ],
        λ h. back λ i lt.
            let p1 : s1 + suc i ≡ s1 + 1 + i = omega arith in
            let p2 : s2 + suc i ≡ s2 + 1 + i = omega arith in
            rw⁻¹ (p1, p2) (h (suc i) (omega arith)),
      )
  | inr differ ↦ rw differ (
    λ z i lt. let same = byte_diff_zero (m s1) (m s2) (bytes s1) (bytes s2) z in ground arith,
    λ h. let same = h 0 (omega arith) in ground arith,
  )
]

-- With more rounds than the string is long, `strchr` returns the first place of `c` in the
-- string, or NULL if it holds no `c`; a search for the ending 0 byte returns NULL too.
pub strchr_lem :
    (fuel s c : ℕ) (m : Bytes) (xs : List ℕ)
    → StringAt m s xs
    → length xs < fuel
    → ((has c xs ≡ false) × (strchr fuel s c m ≡ ok none))
      ⊎ ((i : ℕ) × (i < length xs)
          × (strchr fuel s c m ≡ ok (some (s + i)))
          × (m (s + i) ≡ c)
          × ((j : ℕ) → j < i → m (s + j) ≢ c))
unfolding strchr
strchr_lem zero s c m xs h lt = ground arith
strchr_lem (suc fuel) s c m [] h lt =
    let end : (m s == 0) ≡ true = ground arith in inl (refl, rw end refl)
strchr_lem (suc fuel) s c m (x ∷ xs) (e, ne, h) lt =
    let more : (m s == 0) ≡ false = ground arith in
    elim (Bool-cases (m s == c)) [
      | inl here ↦ inr (
        0,
        omega arith,
        rw (more, here) (ap (λ x. ok (some x)) (omega arith)),
        ground arith,
        λ j lt. ground arith,
      )
      | inr away ↦ elim (strchr_lem fuel (s + 1) c m xs h (omega arith)) [
        | inl (none_there, runs) ↦ inl (ground arith, rw (more, away) runs)
        | inr (i, bound, runs, at, before) ↦
            let shift : s + 1 + i ≡ s + suc i = omega arith in
            inr (
              suc i,
              omega arith,
              rw (more, away, runs) (ap (λ x. ok (some x)) shift),
              rw⁻¹ shift at,
              λ j lt. elim (Bool-cases (j == 0)) [
                | inl first ↦ ground arith
                | inr later ↦
                    let next : s + 1 + (j - 1) ≡ s + j = ground arith in
                    rw⁻¹ next (before (j - 1) (ground arith))
              ],
            )
      ]
    ]
