-- ===== src/Sched/Progress.antt =====
-- What `sched_yield` does for an environment that waits; `envs[0]`, which the code treats as the idle
-- one, is left out: it may wait as long as another environment is runnable.
use mathlib.Core.Path.{subst}
use jos_lab.Base.{
  ℕ, ◌+◌, ◌≤◌, ◌<◌, ◌≡◌, ◌≢◌, ◌⊎◌, inl, inr, refl, ◌∙◌, ap, true, Option, none, some, Bool-cases,
  Option-cases, ok, arith, ◌==◌, eq_of_eqb,
}
use jos_lab.Env.{Kernel, is_running}
use jos_lab.Env.Switch.{OnlyCurrent, env_run_lem}
use jos_lab.Sched.{first_candidate, chosen, sched_yield, run_chosen}
use jos_lab.Sched.Order.{waits, wait, Picked, chosen-Picked}

-- Environments that wait have an address space.
abbrev pub Housed : Kernel → Type 0
Housed k = (j : ℕ) → j < 1024 → waits k.envs j ≡ true → (d : ℕ) × ((k.envs j).env_pgdir ≡ some d)

-- What a yield by environment `c` does for environment `j`, which waits: `q` is entered, and it is
-- `j`, or `j` still waits and comes nearer to its turn.
pub record Served (c j q : ℕ) (k k' : Kernel) : Type 0 where
  pub yields : sched_yield k ≡ ok (some k')
  pub current : k'.cur ≡ some q
  pub running : is_running (k'.envs q).env_status ≡ true
  pub alone : OnlyCurrent k'
  pub nearer : (j ≡ q) ⊎ ((waits k'.envs j ≡ true) × (wait (q + 1) j < wait (c + 1) j))

shorter :
    (c q j : ℕ)
    → c < 1024
    → q < 1024
    → 0 < q
    → 0 < j
    → j < 1024
    → j ≢ q
    → wait (c + 1) q ≤ wait (c + 1) j
    → wait (q + 1) j < wait (c + 1) j
shorter c q j ch qh ql jl jh ne le = ground arith

-- Let environment `c`, of the table, be `curenv` and the only one marked running on this CPU; let
-- environment `j` of the table, other than `envs[0]`, be runnable; let every runnable environment
-- have a page directory. Then `sched_yield` enters an environment, which is the only one marked
-- running on this CPU: `j` itself, or one after which `j` is still runnable, with fewer slots
-- before its turn.
pub sched_yield-progress :
    (k : Kernel) (c j : ℕ)
    → k.cur ≡ some c
    → c < 1024
    → OnlyCurrent k
    → Housed k
    → 0 < j
    → j < 1024
    → waits k.envs j ≡ true
    → (q : ℕ) × (k' : Kernel) × Served c j q k k'
unfolding sched_yield run_chosen
sched_yield-progress k c j here ch only homes jl jh w =
    let start : first_candidate k ≡ c + 1 =
      ap (λ (o : Option ℕ). elim o [ none ↦ 0 + 1 | some c ↦ c + 1 ]) here in
    let pick = chosen-Picked k (omega (arith, start, ch)) in
    elim (Option-cases (chosen k)) [
      | inl idle ↦
          let nobody : Picked (first_candidate k) k.envs none =
            subst (λ o. Picked (first_candidate k) k.envs o) idle pick in
          let no = nobody j jh in ground arith
      | inr (q, e) ↦
          let (qh, wq, before) : Picked (first_candidate k) k.envs (some q) =
            subst (λ o. Picked (first_candidate k) k.envs o) e pick in
          let (d, at) = homes q qh wq in
          let (k', runs, current, _, running, _, stay, alone) = env_run_lem q d k at only in
          let (ql, le) = before j jl jh w in
          (
            q,
            k',
            record {
              yields = ap (λ o. run_chosen o k) e ∙ rw runs refl;
              current = current;
              running = running;
              alone = alone;
              nearer = elim (Bool-cases (j == q)) [
                | inl it ↦ inl (eq_of_eqb j q it)
                | inr other ↦ inr (
                  stay j (ground arith) w,
                  shorter c q j ch qh ql jl jh (ground arith)
                      (subst (λ p. wait p q ≤ wait p j) start le),
                )
              ];
            },
          )
    ]
