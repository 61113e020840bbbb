-- ===== src/Kdebug/Bracket.antt =====
-- What `stab_binsearch` finds in a table whose stabs of the type stand in the order of their
-- addresses.
use jos_lab.Base.{
  ℕ, zero, suc, ◌+◌, ◌-◌, ◌%◌, ◌≤◌, ◌<◌, ◌≡◌, ◌≢◌, ◌⊎◌, inl, inr, refl, true, false, none, some,
  ◌==◌, ltb, Bool-cases, Option-cases, arith,
}
use jos_lab.Mmu.{word_mod}
use jos_lab.Kdebug.{Stab, Search, last_match, true_m, round_at, round}
use jos_lab.Kdebug.Rounds.{last_match-some}

module _ (stabs : ℕ → Stab) (type : ℕ) where
  last_match-none :
      (l k i : ℕ) → last_match stabs type l k ≡ none → l ≤ i → i < l + k → (stabs i).n_type ≢ type
  unfolding last_match
  last_match-none l zero i e low high at = ground arith
  last_match-none l (suc k) i e low high at = elim (Bool-cases (i == l + k)) [
    | inl here ↦
        let same : i ≡ l + k = ground arith in
        let found : ((stabs (l + k)).n_type == type) ≡ true = ground (arith, rw same at at) in
        ground arith
    | inr away ↦ ground (arith, last_match-none l k i)
  ]

  last_match-latest :
      (l k m i : ℕ)
      → last_match stabs type l k ≡ some m
      → m < i
      → i < l + k
      → (stabs i).n_type ≢ type
  unfolding last_match
  last_match-latest l zero m i e low high at = ground arith
  last_match-latest l (suc k) m i e low high at = elim (Bool-cases (i == l + k)) [
    | inl here ↦
        let same : i ≡ l + k = ground arith in
        let found : ((stabs (l + k)).n_type == type) ≡ true = ground (arith, rw same at at) in
        ground arith
    | inr away ↦ ground (arith, last_match-latest l k m i)
  ]

-- The stabs of the type between `low` and `high`.
abbrev pub Marked : (ℕ → Stab) → ℕ → ℕ → ℕ → ℕ → Type 0
Marked stabs type low high i = (low ≤ i) × (i < high) × ((stabs i).n_type ≡ type)

module _ (stabs : ℕ → Stab) (type low high target : ℕ)
    (sorted : (i j : ℕ)
      → Marked stabs type low high i
      → Marked stabs type low high j
      → i < j
      → (stabs i).n_value < (stabs j).n_value)
    (gap : (i : ℕ) → Marked stabs type low high i → (stabs i).n_value ≢ target + 1)
    (fits : target + 1 < word_mod) where
  abbrev Mark : ℕ → Type 0
  Mark = Marked stabs type low high

  -- Where the search stands: `region_left` holds the last stab at or below the target, or only
  -- later stabs were seen, or none was.
  abbrev Seat : Search → Type 0
  Seat s =
      (s.any_matches ≡ true)
        × Mark s.region_left
        × ((stabs s.region_left).n_value ≤ target)
        × (s.region_left ≤ s.l)
      ⊎ ((s.any_matches ≡ true)
          × (s.region_left ≡ low)
          × Mark s.r_end
          × ((i : ℕ) → Mark i → i < s.l → ⊥))
      ⊎ ((s.any_matches ≡ false)
          × (s.region_left ≡ low)
          × (s.r_end ≡ high)
          × ((i : ℕ) → Mark i → i < s.l → ⊥))

  pub record Inv (s : Search) : Type 0 where
    pub from : low ≤ s.l
    pub upto : s.r_end ≤ high
    pub one_end : s.right_end ≡ s.r_end
    pub near : (target ≤ s.addr) × (s.addr ≤ target + 1)
    pub below : (i : ℕ) → Mark i → i < s.l → ((stabs i).n_value ≤ target) × (i ≤ s.region_left)
    pub above : (i : ℕ) → Mark i → s.r_end ≤ i → target < (stabs i).n_value
    pub edge : (s.r_end ≡ high) ⊎ Mark s.r_end
    pub seat : Seat s

  skips :
      (s : Search)
      → Inv s
      → s.l < s.r_end
      → ((i : ℕ) → s.l ≤ i → i < true_m s + 1 → (stabs i).n_type ≢ type)
      → Inv (record s { l = true_m s + 1 })
  skips s v lt gone = record {
    from = omega (arith, v.from);
    upto = v.upto;
    one_end = v.one_end;
    near = v.near;
    below = λ i k h. ground (arith, v.below i, gone i);
    above = v.above;
    edge = v.edge;
    seat = elim (v.seat) [
      | inl (a, b, c, d) ↦ inl (a, b, c, omega (arith, d))
      | inr (inl (a, b, c, d)) ↦ inr (inl (a, b, c, λ i k h. ground (arith, d i, gone i)))
      | inr (inr (a, b, c, d)) ↦ inr (inr (a, b, c, λ i k h. ground (arith, d i, gone i)))
    ];
  }

  module _ (s : Search) (v : Inv s) (lt : s.l < s.r_end) (m : ℕ)
      (found : last_match stabs type s.l (true_m s + 1 - s.l) ≡ some m) where
    found-Mark : Mark m × (s.l ≤ m) × (m ≤ true_m s)
    found-Mark =
        let (from, upto, typed) = last_match-some stabs type s.l (true_m s + 1 - s.l) m found in
        (
          (omega (arith, from, v.from), omega (arith, upto, v.upto), typed),
          from,
          omega (arith, upto),
        )

    goes_right :
        (stabs m).n_value ≤ target
        → Inv (record s { any_matches = true; region_left = m; l = true_m s + 1 })
    goes_right le =
        let (mark, from, upto) = found-Mark in
        record {
          from = omega (arith, v.from);
          upto = v.upto;
          one_end = v.one_end;
          near = v.near;
          below = λ i k h. elim (Bool-cases (ltb m i)) [
            | inl later ↦ absurd (
                last_match-latest stabs type s.l (true_m s + 1 - s.l) m i found (ground arith)
                  (ground arith) k.2)
            | inr earlier ↦ elim (Bool-cases (i == m)) [
              | inl same ↦ let e : i ≡ m = ground arith in (rw e le, omega (arith, e))
              | inr other ↦ ground (arith, sorted i m k mark, le)
            ]
          ];
          above = v.above;
          edge = v.edge;
          seat = inl (refl, mark, le, omega (arith, upto));
        }

    goes_left :
        target < (stabs m).n_value → Inv (record s { any_matches = true; right_end = m; r_end = m })
    goes_left gt =
        let (mark, from, upto) = found-Mark in
        record {
          from = v.from;
          upto = omega (arith, upto, lt, v.upto);
          one_end = refl;
          near = v.near;
          below = v.below;
          above = λ i k h. elim (Bool-cases (i == m)) [
            | inl same ↦ let e : i ≡ m = ground arith in rw e gt
            | inr other ↦ ground (arith, sorted m i mark k, gt)
          ];
          edge = inr mark;
          seat = elim (v.seat) [
            | inl (a, b, c, d) ↦ inl (refl, b, c, d)
            | inr (inl (a, b, c, d)) ↦ inr (inl (refl, b, mark, d))
            | inr (inr (a, b, c, d)) ↦ inr (inl (refl, b, mark, d))
          ];
        }

    lands :
        (stabs m).n_value ≡ s.addr
        → Inv (record s {
          any_matches = true;
          region_left = m;
          l = m;
          addr = (s.addr + 1) % word_mod;
        })
    lands eq =
        let (mark, from, upto) = found-Mark in
        let apart = gap m mark in
        let exact : s.addr ≡ target = ground (arith, v.near, eq) in
        let le : (stabs m).n_value ≤ target = omega (arith, eq, exact) in
        record {
          from = omega (arith, from, v.from);
          upto = v.upto;
          one_end = v.one_end;
          near = omega (arith, exact, fits);
          below = λ i k h. ground (arith, sorted i m k mark, le);
          above = v.above;
          edge = v.edge;
          seat = inl (refl, mark, le, omega arith);
        }

  -- Every round keeps the invariant.
  pub round-Inv : (s : Search) → s.l < s.r_end → Inv s → Inv (round stabs type s)
  unfolding round round_at
  round-Inv s lt v = elim (Option-cases (last_match stabs type s.l (true_m s + 1 - s.l))) [
    | inl e ↦ rw e (
        skips s v lt
          λ i from upto. last_match-none stabs type s.l (true_m s + 1 - s.l) i e from (omega arith))
    | inr (m, e) ↦ rw e (elim (Bool-cases (ltb (stabs m).n_value s.addr)) [
      | inl less ↦
          let apart = gap m (found-Mark s v lt m e).0 in
          rw less (goes_right s v lt m e (ground (arith, v.near, apart)))
      | inr up ↦ elim (Bool-cases (ltb s.addr (stabs m).n_value)) [
        | inl more ↦ rw (up, more) (goes_left s v lt m e (ground (arith, v.near)))
        | inr here ↦ rw (up, here) (lands s v lt m e (ground arith))
      ]
    ])
  ]
