-- ===== src/Sched.antt =====
-- kern/sched.c: the round-robin scheduler of one CPU, and the idle loop.
pub mod Order
pub mod Progress
use jos_lab.Base.{
  ℕ, zero, suc, ◌+◌, Bool, true, false, ◌||◌, Option, none, some, leb, if◌then◌else◌, Run, ok,
  ◌>>=◌,
}
use jos_lab.Env.{Env, Kernel, nenv, is_runnable, is_running, env_run}

-- The search from `curenvptr` on, with the rounds that are left: the environment that it finds.
unfoldable pub search_from : ℕ → ℕ → (ℕ → Env) → Option ℕ
search_from zero curenvptr envs = none
search_from (suc n) curenvptr envs =
    let p = if leb nenv curenvptr then 1 else curenvptr in
    let rest = search_from n (p + 1) envs in
    if is_runnable (envs p).env_status then some p else rest

-- `curenvptr` as the search starts.
abbrev pub first_candidate : Kernel → ℕ
first_candidate k = elim (k.cur) [ none ↦ 0 + 1 | some c ↦ c + 1 ]

-- The environment that `sched_yield` runs; with none it stays in the monitor.
unfoldable pub chosen : Kernel → Option ℕ
unfolding search_from
chosen k = elim (search_from nenv (first_candidate k) k.envs) [
  | some p ↦ some p
  | none ↦ if is_runnable (k.envs 0).env_status then some 0 else none
]

-- The kernel as it enters the chosen environment; `none` is the endless loop of the monitor.
unfoldable pub run_chosen : Option ℕ → Kernel → Run (Option Kernel)
unfolding env_run
run_chosen none k = ok none
run_chosen (some e) k = do running ← env_run e k; ok (some running)

unfoldable pub sched_yield : Kernel → Run (Option Kernel)
unfolding run_chosen chosen
sched_yield k = run_chosen (chosen k) k

-- Whether the first loop of `sched_halt` breaks, with the rounds that are left.
unfoldable pub some_alive : ℕ → ℕ → (ℕ → Env) → Bool
some_alive zero i envs = false
some_alive (suc n) i envs =
    let rest = some_alive n (suc i) envs in
    (is_runnable (envs i).env_status || is_running (envs i).env_status) || rest

-- `sched_halt` up to the `hlt`, less the CPU's status word; `none` is the loop of the monitor.
unfoldable pub sched_halt : Kernel → Option Kernel
unfolding some_alive
sched_halt k =
    if some_alive nenv 0 k.envs
    then some (record k { cur = none; cr3 = some k.kern_pgdir })
    else none
