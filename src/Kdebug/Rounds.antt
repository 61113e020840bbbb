-- ===== src/Kdebug/Rounds.antt =====
-- That the loop of `stab_binsearch` ends, whatever the table holds.
use mathlib.Core.Path.{subst}
use jos_lab.Base.{
  ℕ, zero, suc, ◌+◌, ◌-◌, ◌*◌, ◌/◌, ◌%◌, ◌≤◌, ◌<◌, ◌≡◌, inl, inr, refl, ◌∙◌, ap, true, false,
  Option, none, some, ◌==◌, ltb, if◌then◌else◌, Bool-cases, ok, arith,
}
use jos_lab.Mmu.{word_mod}
use jos_lab.Kdebug.{Stab, Search, last_match, true_m, round_at, round, rounds}

module _ (stabs : ℕ → Stab) (type : ℕ) where
  -- What the inner loop finds is in the range, and has the type.
  pub last_match-some :
      (l k m : ℕ)
      → last_match stabs type l k ≡ some m
      → (l ≤ m) × (m < l + k) × ((stabs m).n_type ≡ type)
  unfolding last_match
  last_match-some l zero m e = ground arith
  last_match-some l (suc k) m e = ground (arith, last_match-some l k m)

  -- Whether the round at `s` meets the address itself.
  abbrev meets_at : Option ℕ → ℕ → ℕ
  meets_at none addr = 0
  meets_at (some m) addr = if (stabs m).n_value == addr then 1 else 0

  abbrev meets : Search → ℕ
  meets s = meets_at (last_match stabs type s.l (true_m s + 1 - s.l)) s.addr

  meets_at_le : (o : Option ℕ) (addr : ℕ) → meets_at o addr ≤ 1
  meets_at_le none addr = omega arith
  meets_at_le (some m) addr = ground arith

  abbrev measure : Search → ℕ
  measure s = 2 * (s.r_end - s.l) + meets s

  meets_le : (s : Search) → meets s ≤ 1
  meets_le s = meets_at_le (last_match stabs type s.l (true_m s + 1 - s.l)) s.addr

  abbrev after_hit : ℕ → Search → Search
  after_hit m s = record s {
    any_matches = true;
    region_left = m;
    l = m;
    addr = (s.addr + 1) % word_mod;
  }

  meets_of :
      (s : Search) (m : ℕ)
      → last_match stabs type s.l (true_m s + 1 - s.l) ≡ some m
      → meets s ≡ (if (stabs m).n_value == s.addr then 1 else 0)
  meets_of s m e = ap (λ o. meets_at o s.addr) e

  -- After an exact match that leaves the range as it is, the next round meets no such match.
  falls_hit :
      (s : Search) (m : ℕ)
      → last_match stabs type s.l (true_m s + 1 - s.l) ≡ some m
      → s.l < s.r_end
      → s.l ≤ m
      → m < s.l + (true_m s + 1 - s.l)
      → (stabs m).n_value ≡ s.addr
      → measure (after_hit m s) < measure s
  falls_hit s m e lt low high at = elim (Bool-cases (m == s.l)) [
    | inl still ↦
        let here : s.l ≡ m = ground arith in
        let again : last_match stabs type m ((m + (s.r_end - 1)) / 2 + 1 - m) ≡ some m =
          subst (λ x. last_match stabs type x ((x + (s.r_end - 1)) / 2 + 1 - x) ≡ some m) here e in
        let next = meets_of (after_hit m s) m again in
        let now = meets_of s m e in
        let differ : ((stabs m).n_value == (s.addr + 1) % word_mod) ≡ false = ground arith in
        let same : ((stabs m).n_value == s.addr) ≡ true = ground arith in
        let zero_next : meets (after_hit m s) ≡ 0 = next ∙ rw differ refl in
        let one_now : meets s ≡ 1 = now ∙ rw same refl in omega (arith, zero_next, one_now)
    | inr moved ↦ let bound = meets_le (after_hit m s) in ground (arith, bound)
  ]

  -- A round brings the loop nearer to its end.
  falls :
      (s : Search) (o : Option ℕ)
      → last_match stabs type s.l (true_m s + 1 - s.l) ≡ o
      → s.l < s.r_end
      → measure (round_at stabs o s) < measure s
  unfolding round_at
  falls s none e lt = let bound = meets_le (record s { l = true_m s + 1 }) in omega (arith, bound)
  falls s (some m) e lt =
      let (low, high, _) = last_match-some s.l (true_m s + 1 - s.l) m e in
      elim (Bool-cases (ltb (stabs m).n_value s.addr)) [
        | inl below ↦
            let bound =
              meets_le (record s { any_matches = true; region_left = m; l = true_m s + 1 }) in
            rw below (omega (arith, bound))
        | inr up ↦ elim (Bool-cases (ltb s.addr (stabs m).n_value)) [
          | inl above ↦
              let bound = meets_le (record s { any_matches = true; right_end = m; r_end = m }) in
              rw (up, above) (omega (arith, bound))
          | inr hit ↦ rw (up, hit) (falls_hit s m e lt low high (ground arith))
        ]
      ]

  -- With more rounds than the measure the loop ends, and keeps what each round keeps.
  pub rounds-end :
      (P : Search → Type 0)
      → ((s : Search) → s.l < s.r_end → P s → P (round stabs type s))
      → (fuel : ℕ) (s : Search) → P s
      → measure s < fuel
      → (s' : Search) × (rounds fuel stabs type s ≡ ok s') × (s'.r_end ≤ s'.l) × P s'
  unfolding rounds round
  rounds-end P keeps zero s p h = ground arith
  rounds-end P keeps (suc fuel) s p h = elim (Bool-cases (ltb s.l s.r_end)) [
    | inl more ↦
        let lt : s.l < s.r_end = ground arith in
        let less = falls s (last_match stabs type s.l (true_m s + 1 - s.l)) refl lt in
        let next : Search = round_at stabs (last_match stabs type s.l (true_m s + 1 - s.l)) s in
        let (s', runs, done, p') =
          rounds-end P keeps fuel next (keeps s lt p) (omega (arith, less, h)) in
        (s', rw more runs, done, p')
    | inr done ↦ (s, rw done refl, ground arith, p)
  ]

  pub measure_le : (s : Search) → measure s < 2 * (s.r_end - s.l) + 2
  measure_le s = let bound = meets_le s in omega (arith, bound)
