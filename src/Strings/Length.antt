-- ===== src/Strings/Length.antt =====
-- `strlen`, `strnlen`, `strcpy`, `strcat` and `strlcpy` on strings that end in a 0 byte.
use jos_lab.Base.{
  ℕ, zero, suc, ◌+◌, ◌-◌, ◌≤◌, ◌<◌, ◌≡◌, ◌≢◌, ◌⊎◌, inl, inr, refl, ◌∙◌, ap, true, false, ◌==◌,
  Bool-cases, arith, List, [], ◌∷◌, length, ok, update, min,
}
use jos_lab.Strings.{Bytes, strlen, strnlen, strcpy, copy_some, strlcpy}

-- The string `xs` stands at `s`, its end included.
abbrev pub StringAt : Bytes → ℕ → List ℕ → Type 0
StringAt m s [] = m s ≡ 0
StringAt m s (x ∷ xs) = (m s ≡ x) × (x ≢ 0) × StringAt m (s + 1) xs

-- `strlen` returns the length of a string, with more rounds than it is long.
pub strlen_lem :
    (fuel s : ℕ) (m : Bytes) (xs : List ℕ)
    → StringAt m s xs
    → length xs < fuel
    → strlen fuel s m ≡ ok (length xs)
unfolding strlen
strlen_lem zero s m xs h lt = ground arith
strlen_lem (suc fuel) s m [] h lt = rw (ne_zero h) refl
  where
    ne_zero : m s ≡ 0 → (m s == 0) ≡ true
    ne_zero e = ground arith
strlen_lem (suc fuel) s m (x ∷ xs) (e, ne, h) lt =
    let more : (m s == 0) ≡ false = ground arith in
    rw (more, strlen_lem fuel (s + 1) m xs h (omega arith)) (ap ok (omega arith))

-- `strnlen` finds the length of a string or the bound, whichever is less.
pub strnlen_lem :
    (s size : ℕ) (m : Bytes) (xs : List ℕ)
    → StringAt m s xs
    → strnlen s size m ≡ min (length xs) size
unfolding strnlen
strnlen_lem s zero m xs h = omega arith
strnlen_lem s (suc size) m [] h = ground arith
strnlen_lem s (suc size) m (x ∷ xs) (e, ne, h) =
    let more : (m s == 0) ≡ false = ground arith in
    rw more (omega (arith, strnlen_lem (s + 1) size m xs h))

-- A store outside a string.
pub StringAt-update :
    (m : Bytes) (s a v : ℕ) (xs : List ℕ)
    → (a < s) ⊎ (s + length xs < a)
    → StringAt m s xs
    → StringAt (update m a v) s xs
StringAt-update m s a v [] out h = ground arith
StringAt-update m s a v (x ∷ xs) out (e, ne, h) =
    (ground arith, ne, StringAt-update m (s + 1) a v xs (ground arith) h)

-- The blocks of a string and of its copy do not meet.
abbrev pub Apart : ℕ → ℕ → ℕ → Type 0
Apart dst src n = (dst + n < src) ⊎ (src + n < dst)

-- `strcpy` to a place apart from the string, with more rounds than the string is long, makes a
-- copy of it, its end included, and nothing outside the copy changes.
pub strcpy_lem :
    (fuel dst src : ℕ) (m : Bytes) (xs : List ℕ)
    → StringAt m src xs
    → Apart dst src (length xs)
    → length xs < fuel
    → (m' : Bytes) × (strcpy fuel dst src m ≡ ok m')
      × StringAt m' dst xs
      × ((a : ℕ) → (a < dst) ⊎ (dst + length xs < a) → m' a ≡ m a)
unfolding strcpy
strcpy_lem zero dst src m xs h apart lt = ground arith
strcpy_lem (suc fuel) dst src m [] h apart lt =
    let end : (m src == 0) ≡ true = ground arith in
    (update m dst (m src), rw end refl, ground arith, λ a out. ground arith)
strcpy_lem (suc fuel) dst src m (x ∷ xs) (e, ne, h) apart lt =
    let more : (m src == 0) ≡ false = ground arith in
    let (m', runs, there, rest) =
      strcpy_lem fuel (dst + 1) (src + 1) (update m dst (m src)) xs
        (StringAt-update m (src + 1) dst (m src) xs (ground arith) h) (ground arith)
        (omega arith) in
    (
      m',
      rw more runs,
      (rest dst (inl (omega arith)) ∙ ground arith, ne, there),
      λ a out. rest a (ground arith) ∙ ground arith,
    )

copy_some-bound :
    (dst src size : ℕ) (m : Bytes)
    → (dst ≤ (copy_some dst src size m).1)
      × ((copy_some dst src size m).1 ≤ dst + size)
      × ((a : ℕ) → (a < dst) ⊎ (dst + size ≤ a) → (copy_some dst src size m).0 a ≡ m a)
unfolding copy_some
copy_some-bound dst src zero m = (omega arith, omega arith, λ a h. refl)
copy_some-bound dst src (suc size) m = elim (Bool-cases (m src == 0)) [
  | inl end ↦ rw end (omega arith, omega arith, λ a h. refl)
  | inr more ↦
      let (low, high, rest) = copy_some-bound (dst + 1) (src + 1) size (update m dst (m src)) in
      rw more (omega (arith, low), omega (arith, high), λ a h. rest a (ground arith) ∙ ground arith)
]

-- `strlcpy` into a buffer of `size > 0` bytes stays in the buffer and ends what it writes with a
-- 0 byte, at the length that it returns, whatever `src` holds and wherever it stands.
strlcpy_lem :
    (dst src size : ℕ) (m : Bytes)
    → ((strlcpy dst src (suc size) m).1 < suc size)
      × ((strlcpy dst src (suc size) m).0 (dst + (strlcpy dst src (suc size) m).1) ≡ 0)
      × ((a : ℕ) → (a < dst) ⊎ (dst + suc size ≤ a) → (strlcpy dst src (suc size) m).0 a ≡ m a)
unfolding strlcpy
strlcpy_lem dst src size m =
    let (low, high, rest) = copy_some-bound dst src size m in
    let back : dst + ((copy_some dst src size m).1 - dst) ≡ (copy_some dst src size m).1 =
      omega (arith, low) in
    (
      omega (arith, low, high),
      rw back (ground arith),
      λ a h. (ground (arith, low, high)) ∙ rest a (ground arith),
    )
