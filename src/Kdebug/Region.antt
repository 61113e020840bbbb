-- ===== src/Kdebug/Region.antt =====
-- What `stab_binsearch` returns: that it always does, and the region in a table in order.
use jos_lab.Base.{
  ℕ, zero, suc, ◌+◌, ◌-◌, ◌*◌, ◌≤◌, ◌<◌, ◌≡◌, ◌≢◌, ◌⊎◌, inl, inr, refl, false, not, ltb,
  if◌then◌else◌, Bool-cases, ne→eqb, ok, arith,
}
use jos_lab.Mmu.{word_mod}
use jos_lab.Kdebug.{Stab, Search, rightmost, stab_binsearch}
use jos_lab.Kdebug.Rounds.{rounds-end, measure_le}
use jos_lab.Kdebug.Bracket.{Marked, Inv, round-Inv}

-- `stab_binsearch` returns for every table, range, type and address: the loop needs at most two
-- rounds for each stab in the range and two more.
pub stab_binsearch_returns :
    (stabs : ℕ → Stab) (left right_end type addr : ℕ)
    → (l : ℕ) × (r : ℕ) × (stab_binsearch stabs left right_end type addr ≡ ok (l, r))
unfolding stab_binsearch
stab_binsearch_returns stabs left right_end type addr =
    let start : Search = record {
      l = left;
      r_end = right_end;
      any_matches = false;
      region_left = left;
      right_end = right_end;
      addr = addr;
    } in
    let (s, runs, _, _) =
      rounds-end stabs type (λ s. 0 ≤ 0) (λ s _ h. h) (2 * (right_end - left) + 2) start
        (omega arith) (measure_le stabs type start) in
    elim (Bool-cases (s.any_matches)) [
      | inl some_match ↦
          (rightmost stabs type s.region_left s.right_end, s.right_end, rw (runs, some_match) refl)
      | inr no_match ↦ (s.region_left + 1, s.region_left, rw (runs, no_match) refl)
    ]

module _ (stabs : ℕ → Stab) (type : ℕ) where
  -- The walk down stops behind the first stab of the type that it meets.
  rightmost-mark :
      (m n : ℕ)
      → m < n
      → ((stabs m).n_type ≡ type)
      → ((i : ℕ) → m < i → i < n → (stabs i).n_type ≢ type)
      → rightmost stabs type m n ≡ m + 1
  unfolding rightmost
  rightmost-mark m zero lt typed none_later = ground arith
  rightmost-mark m (suc n) lt typed none_later = elim (Bool-cases (ltb m n)) [
    | inl more ↦
        let off = ne→eqb (stabs n).n_type type (none_later n (ground arith) (omega arith)) in
        rw (more, off)
          (rightmost-mark m n (ground arith) typed λ i a b. none_later i a (omega (arith, b)))
    | inr last ↦ rw last (ground arith)
  ]

  -- With no stab of the type to meet it stops at the left end.
  rightmost-bare :
      (low n : ℕ)
      → low ≤ n
      → ((i : ℕ) → low ≤ i → i < n → (stabs i).n_type ≢ type)
      → rightmost stabs type low n ≡ (if ltb low n then low + 1 else low)
  unfolding rightmost
  rightmost-bare low zero le bare = ground arith
  rightmost-bare low (suc n) le bare = elim (Bool-cases (ltb low n)) [
    | inl more ↦
        let off = ne→eqb (stabs n).n_type type (bare n (ground arith) (omega arith)) in
        let rest = rightmost-bare low n (ground arith) λ i a b. bare i a (omega (arith, b)) in
        rw (more, off) (ground (arith, rest))
    | inr last ↦ rw last (ground arith)
  ]

-- What the search is to find in a range: the last stab at or below the target, which reaches up
-- to the next one; or only stabs above the target, of which the first ends the region; or none.
abbrev pub Contained : (ℕ → Stab) → ℕ → ℕ → ℕ → ℕ → ℕ → ℕ → Type 0
Contained stabs type low high target l r =
    (m : ℕ) × Marked stabs type low high m
    × ((stabs m).n_value ≤ target)
    × (l ≡ m + 1)
    × (m < r)
    × ((r ≡ high) ⊎ Marked stabs type low high r)
    × ((i : ℕ) → Marked stabs type low high i → m < i → (target < (stabs i).n_value) × (r ≤ i))

abbrev pub Beyond : (ℕ → Stab) → ℕ → ℕ → ℕ → ℕ → ℕ → ℕ → Type 0
Beyond stabs type low high target l r =
    Marked stabs type low high r
    × (l ≡ (if ltb low r then low + 1 else low))
    × ((i : ℕ) → Marked stabs type low high i → (target < (stabs i).n_value) × (r ≤ i))

abbrev pub Absent : (ℕ → Stab) → ℕ → ℕ → ℕ → ℕ → ℕ → Type 0
Absent stabs type low high l r =
    (l ≡ low + 1) × (r ≡ low) × ((i : ℕ) → Marked stabs type low high i → ⊥)

abbrev pub Region : (ℕ → Stab) → ℕ → ℕ → ℕ → ℕ → ℕ → ℕ → Type 0
Region stabs type low high target l r =
    Contained stabs type low high target l r
    ⊎ Beyond stabs type low high target l r
    ⊎ Absent stabs type low high l r

module _ (stabs : ℕ → Stab) (type low high target : ℕ)
    (sorted : (i j : ℕ)
      → Marked stabs type low high i
      → Marked stabs type low high j
      → i < j
      → (stabs i).n_value < (stabs j).n_value)
    (gap : (i : ℕ) → Marked stabs type low high i → (stabs i).n_value ≢ target + 1)
    (fits : target + 1 < word_mod) where
  -- What the code makes of the search's last state.
  abbrev result : Search → ℕ × ℕ
  result s =
      if not s.any_matches
      then (s.region_left + 1, s.region_left)
      else (rightmost stabs type s.region_left s.right_end, s.right_end)

  abbrev Final : Search → Type 0
  Final = Inv stabs type low high target sorted gap fits

  module _ (s : Search) (done : s.r_end ≤ s.l) (v : Final s) where
    after_left :
        (i : ℕ)
        → Marked stabs type low high i
        → s.region_left < i
        → (target < (stabs i).n_value) × (s.right_end ≤ i)
    after_left i k h = ground (arith, v.below i k, v.above i k, v.one_end)

    all_after :
        ((i : ℕ) → Marked stabs type low high i → i < s.l → ⊥)
        → (i : ℕ) → Marked stabs type low high i
        → (target < (stabs i).n_value) × (s.right_end ≤ i)
    all_after fresh i k = ground (arith, fresh i k, v.above i k, v.one_end)

    edge_at : (s.right_end ≡ high) ⊎ Marked stabs type low high s.right_end
    edge_at = rw (v.one_end) (v.edge)

    found : Region stabs type low high target (result s).0 (result s).1
    found = elim (v.seat) [
      | inl (some_match, mark, le, _) ↦
          let inside : s.region_left < s.right_end =
            ground (arith, v.above s.region_left mark, v.one_end) in
          let stops =
            rightmost-mark stabs type s.region_left s.right_end inside mark.2 λ i a b typed. omega (
              arith,
              (after_left i (omega (arith, mark.0, a), omega (arith, b, v.one_end, v.upto), typed)
                  a).1,
              b,
            ) in
          rw some_match (inl (s.region_left, mark, le, stops, inside, edge_at, after_left))
      | inr (inl (some_match, at_low, mark, fresh)) ↦
          let stops =
            rightmost-bare stabs type low s.right_end (omega (arith, mark.0, v.one_end))
              λ i a b typed.
                omega (
                  arith,
                  (all_after fresh i (a, omega (arith, b, v.one_end, v.upto), typed)).1,
                  b,
                ) in
          rw (some_match, at_low) (inr (inl (rw (v.one_end) mark, stops, all_after fresh)))
      | inr (inr (no_match, at_low, at_high, fresh)) ↦
          rw (no_match, at_low) (inr (inr (refl, refl, λ i k. ground (arith, fresh i k, at_high))))
    ]

  -- In a range whose stabs of the type stand in the order of their addresses, none of them one
  -- above the target, `stab_binsearch` for a target below 2 ^ 32 - 1 returns either the last stab
  -- of the type at or below the target with the end of its region behind it, which is where the next stab
  -- of the type stands or the end of the range; or, if the stabs of the type all stand above the
  -- target, the place before the first of them as the right end, with a left end that is not
  -- behind it; or, if there are none, an empty region.
  pub stab_binsearch_lem :
      (l : ℕ) × (r : ℕ) × (stab_binsearch stabs low high type target ≡ ok (l, r))
      × Region stabs type low high target l r
  unfolding stab_binsearch
  stab_binsearch_lem =
      let start : Search = record {
        l = low;
        r_end = high;
        any_matches = false;
        region_left = low;
        right_end = high;
        addr = target;
      } in
      let first : Final start = record {
        from = omega arith;
        upto = omega arith;
        one_end = refl;
        near = omega arith;
        below = λ i k h. ground arith;
        above = λ i k h. ground arith;
        edge = inl refl;
        seat = inr (inr (refl, refl, refl, λ i k h. ground arith));
      } in
      let (s, runs, done, v) =
        rounds-end stabs type Final (round-Inv stabs type low high target sorted gap fits)
          (2 * (high - low) + 2) start first (measure_le stabs type start) in
      ((result s).0, (result s).1, rw runs refl, found s done v)
