-- ===== src/Env/Switch.antt =====
-- `env_run`: the environment that a CPU runs.
use jos_lab.Base.{
  ℕ, ◌≡◌, ◌≢◌, refl, sym, ap, ◌∙◌, true, false, Option, none, some, arith, ◌==◌, Bool-cases,
  eq_self, ne→eqb, update, inl, inr, ok, eq_of_eqb,
}
use jos_lab.Env.{Kernel, is_running, is_runnable, step_down, switch_to, entered, env_run}

-- An environment that is marked as running on this CPU is `curenv`.
abbrev pub OnlyCurrent : Kernel → Type 0
OnlyCurrent k =
    (j : ℕ)
    → is_running (k.envs j).env_status ≡ true
    → (k.envs j).env_cpunum ≡ k.cpunum
    → k.cur ≡ some j

-- The kernel that enters `e` with page directory `d`.
abbrev entering : ℕ → ℕ → Kernel → Kernel
entering e d k =
    let ready = step_down k.cur k in
    record ready {
      envs = update ready.envs e (entered (ready.envs e) ready);
      cur = some e;
      cr3 = some d;
    }

env_run-some :
    (e d : ℕ) (k : Kernel) → (k.envs e).env_pgdir ≡ some d → env_run e k ≡ ok (entering e d k)
unfolding env_run
env_run-some e d k h = ap (λ o. switch_to e o (step_down k.cur k)) h

-- What `step_down` does to the statuses.
stepped :
    (o : Option ℕ) (k : Kernel) (j : ℕ)
    → (is_runnable (k.envs j).env_status ≡ true
        → is_runnable ((step_down o k).envs j).env_status ≡ true)
      × (o ≡ some j → is_running ((step_down o k).envs j).env_status ≡ false)
      × (is_running ((step_down o k).envs j).env_status ≡ true
          → is_running (k.envs j).env_status ≡ true)
      × (((step_down o k).envs j).env_cpunum ≡ (k.envs j).env_cpunum)
stepped none k j = (λ h. h, λ h. ground arith, λ h. h, refl)
stepped (some c) k j = elim (Bool-cases (is_running (k.envs c).env_status)) [
  | inl was ↦ rw was (λ h. ground arith, λ h. ground arith, λ h. ground arith, ground arith)
  | inr not_running ↦ rw not_running (λ h. h, λ h. ground arith, λ h. h, refl)
]

same_cpu : (o : Option ℕ) (k : Kernel) → (step_down o k).cpunum ≡ k.cpunum
same_cpu none k = refl
same_cpu (some c) k = ground arith

-- If only `curenv` is marked running on this CPU, `env_run e`, for an environment with a page
-- directory, enters it: it becomes `curenv`, marked running on this CPU, in its own address
-- space; other environments that waited still wait; and again only `curenv` is marked running on
-- this CPU.
pub env_run_lem :
    (e d : ℕ) (k : Kernel)
    → (k.envs e).env_pgdir ≡ some d
    → OnlyCurrent k
    → (k' : Kernel) × (env_run e k ≡ ok k')
      × (k'.cur ≡ some e)
      × (k'.cr3 ≡ some d)
      × (is_running (k'.envs e).env_status ≡ true)
      × ((k'.envs e).env_cpunum ≡ k.cpunum)
      × ((j : ℕ)
          → j ≢ e
          → is_runnable (k.envs j).env_status ≡ true
          → is_runnable (k'.envs j).env_status ≡ true)
      × OnlyCurrent k'
env_run_lem e d k h only = (
  entering e d k,
  env_run-some e d k h,
  refl,
  refl,
  rw (eq_self e) refl,
  rw (eq_self e) (same_cpu k.cur k),
  λ j ne w. rw (ne→eqb j e ne) ((stepped k.cur k j).0 w),
  λ j r on. elim (Bool-cases (j == e)) [
    | inl it ↦ ap some (sym (eq_of_eqb j e it))
    | inr other ↦
        let s = stepped k.cur k j in
        let running : is_running ((step_down k.cur k).envs j).env_status ≡ true = ground arith in
        let here : ((step_down k.cur k).envs j).env_cpunum ≡ (step_down k.cur k).cpunum =
          ground arith in
        let was : k.cur ≡ some j = only j (s.2 running) (sym s.3 ∙ here ∙ same_cpu k.cur k) in
        let no = s.1 was in ground arith
  ],
)

step_down_self :
    (o : Option ℕ) (c : ℕ) (k : Kernel)
    → o ≡ some c
    → (entered ((step_down o k).envs c) (step_down o k) ≡ entered (k.envs c) k)
      × ((j : ℕ) → j ≢ c → (step_down o k).envs j ≡ k.envs j)
      × ((step_down o k).mem ≡ k.mem)
step_down_self none c k here = absurd (ground arith)
step_down_self (some e) c k here =
    let same : e ≡ c = ground arith in
    elim (Bool-cases (is_running (k.envs e).env_status)) [
      | inl h ↦
          rw h (rw (same, eq_self c) refl, λ j ne. rw (ne→eqb j e (λ q. ne (q ∙ same))) refl, refl)
      | inr h ↦ rw h (refl, λ j ne. refl, refl)
    ]

entering_self :
    (o : Option ℕ) (c d : ℕ) (k : Kernel)
    → o ≡ some c
    → let ready = step_down o k in
      let table = update ready.envs c (entered (ready.envs c) ready) in
      record ready { envs = table; cur = some c; cr3 = some d }
      ≡ record k { envs = table; cur = some c; cr3 = some d }
entering_self none c d k here = refl
entering_self (some e) c d k here = elim (Bool-cases (is_running (k.envs e).env_status)) [
  | inl h ↦ rw h refl
  | inr h ↦ rw h refl
]

-- `env_run` of `curenv` itself: it goes on, and nothing else changes.
pub env_run_self :
    (c d : ℕ) (k : Kernel)
    → k.cur ≡ some c
    → (k.envs c).env_pgdir ≡ some d
    → (k' : Kernel) × (env_run c k ≡ ok k')
      × (k'.envs c ≡ entered (k.envs c) k)
      × ((j : ℕ) → j ≢ c → k'.envs j ≡ k.envs j)
      × (k'.cur ≡ some c)
      × (k'.cr3 ≡ some d)
      × (k'.mem ≡ k.mem)
      × (k' ≡ record k { envs = k'.envs; cur = some c; cr3 = some d })
env_run_self c d k here space = (
  entering c d k,
  env_run-some c d k space,
  rw (eq_self c) (step_down_self k.cur c k here).0,
  λ j ne. rw (ne→eqb j c ne) ((step_down_self k.cur c k here).1 j ne),
  refl,
  refl,
  (step_down_self k.cur c k here).2,
  entering_self k.cur c d k here,
)

step_down-frame :
    (o : Option ℕ) (k : Kernel) (j : ℕ) → ((step_down o k).envs j).env_tf ≡ (k.envs j).env_tf
step_down-frame none k j = refl
step_down-frame (some c) k j = elim (Bool-cases (is_running (k.envs c).env_status)) [
  | inr h ↦ rw h refl
  | inl h ↦ elim (Bool-cases (j == c)) [
    | inl e ↦ rw (h, e) (rw (eq_of_eqb j c e) refl)
    | inr e ↦ rw (h, e) refl
  ]
]

switch_to-frame :
    (e : ℕ) (o : Option ℕ) (k k' : Kernel) (j : ℕ)
    → switch_to e o k ≡ ok k'
    → (k'.envs j).env_tf ≡ (k.envs j).env_tf
switch_to-frame e none k k' j runs = absurd (ground arith)
switch_to-frame e (some d) k k' j runs =
    let same : record k {
      envs = update k.envs e (entered (k.envs e) k);
      cur = some e;
      cr3 = some d;
    }
        ≡ k' =
      cc in
    elim (Bool-cases (j == e)) [
      | inl h ↦ rw (← same) (rw h (rw (eq_of_eqb j e h) refl))
      | inr h ↦ rw (← same) (rw h refl)
    ]

-- The switch to an environment leaves every saved trap frame as it is.
pub env_run-frame :
    (e : ℕ) (k k' : Kernel) (j : ℕ) → env_run e k ≡ ok k' → (k'.envs j).env_tf ≡ (k.envs j).env_tf
unfolding env_run
env_run-frame e k k' j runs =
    switch_to-frame e (k.envs e).env_pgdir (step_down k.cur k) k' j runs ∙ step_down-frame k.cur k j
