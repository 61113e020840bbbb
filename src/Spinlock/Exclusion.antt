-- ===== src/Spinlock/Exclusion.antt =====
-- Mutual exclusion, and that the lock's own checks never fail.
use jos_lab.Base.{
  ℕ, ◌≡◌, refl, sym, ◌∙◌, ap, Bool, true, false, not, none, some, List, [], ◌∷◌, ◌==◌,
  if◌then◌else◌, Bool-cases, inl, inr, arith, update, eq_self, eq_of_eqb, ok,
}
use jos_lab.Spinlock.{
  Phase, outside, spinning, won, inside, leaving, Spinlock, holds, holding, step_from, step, run,
  initlock,
}

-- Between the `xchg` that took the lock and the one that frees it.
abbrev pub owns : Phase → Bool
owns outside = false
owns spinning = false
owns won = true
owns inside = true
owns leaving = true

abbrev pub in_section : Phase → Bool
in_section inside = true
in_section _ = false

-- One owner at most, none of a free lock, and `cpu` names the one in the critical section.
pub record Exclusive (s : Spinlock) : Type 0 where
  pub one : (c d : ℕ) → owns (s.phase c) ≡ true → owns (s.phase d) ≡ true → c ≡ d
  pub free : s.locked ≡ 0 → (c : ℕ) → owns (s.phase c) ≡ false
  pub named : (c : ℕ) → holds s.cpu c ≡ in_section (s.phase c)

section_owns : (p : Phase) → in_section p ≡ true → owns p ≡ true
section_owns outside e = ground arith
section_owns spinning e = ground arith
section_owns won e = refl
section_owns inside e = refl
section_owns leaving e = refl

-- A step from phase `p` goes on and keeps the invariant.
Kept : Phase → ℕ → Spinlock → Type 0
Kept p c s = (s' : Spinlock) × (step_from p c s ≡ ok s') × Exclusive s'

module _ (c : ℕ) (s : Spinlock) (v : Exclusive s) where
  from_outside : s.phase c ≡ outside → Kept outside c s
  unfolding Kept step_from
  from_outside e =
      let n : holds s.cpu c ≡ false = v.named c ∙ ap in_section e in
      let quiet : holding c s ≡ false = ground arith in
      (
        record s { phase = update s.phase c spinning },
        rw quiet refl,
        record {
          one = λ x y hx hy. ground (arith, v.one x y);
          free = λ z x. ground (arith, v.free z x);
          named = λ x. elim (Bool-cases (x == c)) [
            | inl it ↦ rw (it, eq_of_eqb x c it) n
            | inr other ↦ rw other (v.named x)
          ];
        },
      )

  from_spinning : s.phase c ≡ spinning → Kept spinning c s
  unfolding Kept step_from
  from_spinning e =
      let n : holds s.cpu c ≡ false = v.named c ∙ ap in_section e in
      (
        record s { locked = 1; phase = update s.phase c (if s.locked == 0 then won else spinning) },
        refl,
        record {
          one = λ x y hx hy. elim (Bool-cases (s.locked == 0)) [
            | inl unlocked ↦
                let none_x = v.free (eq_of_eqb s.locked 0 unlocked) x in
                let none_y = v.free (eq_of_eqb s.locked 0 unlocked) y in ground arith
            | inr taken ↦ ground (arith, v.one x y)
          ];
          free = λ z x. ground arith;
          named = λ x. elim (Bool-cases (x == c)) [
            | inl it ↦ rw (it, eq_of_eqb x c it) (n ∙ ground arith)
            | inr other ↦ rw other (v.named x)
          ];
        },
      )

  from_won : s.phase c ≡ won → Kept won c s
  unfolding Kept step_from
  from_won e =
      let mine : owns (s.phase c) ≡ true = ap owns e in
      (
        record s { cpu = some c; phase = update s.phase c inside },
        refl,
        record {
          one = λ x y hx hy. ground (arith, v.one x y, v.one c x, v.one c y);
          free = λ z x. ground (arith, v.free z c);
          named = λ x. elim (Bool-cases (x == c)) [
            | inl it ↦ rw (it, eq_of_eqb x c it) (eq_self c)
            | inr other ↦
                let far : (c == x) ≡ false = ground arith in
                rw (other, far)
                  (elim (Bool-cases (in_section (s.phase x))) [
                    | inl there ↦
                        let clash = v.one c x mine (section_owns (s.phase x) there) in ground arith
                    | inr away ↦ sym away
                  ])
          ];
        },
      )

  from_inside : s.phase c ≡ inside → Kept inside c s
  unfolding Kept step_from
  from_inside e =
      let n : holds s.cpu c ≡ true = v.named c ∙ ap in_section e in
      let mine : owns (s.phase c) ≡ true = ap owns e in
      let quiet : not (holding c s) ≡ false = elim (Bool-cases (s.locked == 0)) [
        | inl zero_lock ↦ let gone = v.free (eq_of_eqb s.locked 0 zero_lock) c in ground arith
        | inr taken ↦ rw (taken, n) refl
      ] in
      (
        record s { cpu = none; phase = update s.phase c leaving },
        rw quiet refl,
        record {
          one = λ x y hx hy. ground (arith, v.one x y, v.one c x, v.one c y);
          free = λ z x. ground (arith, v.free z c);
          named = λ x. elim (Bool-cases (x == c)) [
            | inl it ↦ rw it refl
            | inr other ↦ rw other (elim (Bool-cases (in_section (s.phase x))) [
              | inl there ↦
                  let clash = v.one c x mine (section_owns (s.phase x) there) in ground arith
              | inr away ↦ sym away
            ])
          ];
        },
      )

  from_leaving : s.phase c ≡ leaving → Kept leaving c s
  unfolding Kept step_from
  from_leaving e =
      let n : holds s.cpu c ≡ false = v.named c ∙ ap in_section e in
      let mine : owns (s.phase c) ≡ true = ap owns e in
      (
        record s { locked = 0; phase = update s.phase c outside },
        refl,
        record {
          one = λ x y hx hy. ground (arith, v.one x y);
          free = λ z x. elim (Bool-cases (x == c)) [
            | inl it ↦ rw it refl
            | inr other ↦ rw other (elim (Bool-cases (owns (s.phase x))) [
              | inl there ↦ let clash = v.one c x mine there in ground arith
              | inr away ↦ away
            ])
          ];
          named = λ x. elim (Bool-cases (x == c)) [
            | inl it ↦ rw (it, eq_of_eqb x c it) n
            | inr other ↦ rw other (v.named x)
          ];
        },
      )

  by_phase : (p : Phase) → s.phase c ≡ p → Kept p c s
  by_phase outside e = from_outside e
  by_phase spinning e = from_spinning e
  by_phase won e = from_won e
  by_phase inside e = from_inside e
  by_phase leaving e = from_leaving e

run-Exclusive :
    (order : List ℕ) (s : Spinlock)
    → Exclusive s
    → (s' : Spinlock) × (run order s ≡ ok s') × Exclusive s'
unfolding run step Kept
run-Exclusive [] s v = (s, refl, v)
run-Exclusive (c ∷ rest) s v =
    let (next, goes, w) = by_phase c s v (s.phase c) refl in
    let (end, runs, u) = run-Exclusive rest next w in (end, rw goes runs, u)

-- In whatever order the CPUs take their steps from a fresh lock, no check of the lock panics, and
-- never are two CPUs in the critical section at once.
pub mutual_exclusion :
    (order : List ℕ)
    → (s : Spinlock) × (run order initlock ≡ ok s)
      × ((c d : ℕ) → in_section (s.phase c) ≡ true → in_section (s.phase d) ≡ true → c ≡ d)
mutual_exclusion order =
    let fresh : Exclusive initlock = record {
      one = λ c d h g. ground arith;
      free = λ z c. refl;
      named = λ c. refl;
    } in
    let (s, runs, v) = run-Exclusive order initlock fresh in
    (s, runs, λ c d h g. v.one c d (section_owns (s.phase c) h) (section_owns (s.phase d) g))
