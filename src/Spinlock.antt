-- ===== src/Spinlock.antt =====
-- kern/spinlock.c with DEBUG_SPINLOCK: CPUs that take and release one lock, a step at a time. A
-- step is the code of one CPU between two accesses to the lock; `xchg` is one step. The recorded
-- call chain (`pcs`) is left out.
pub mod Exclusion
use jos_lab.Base.{
  ℕ, Bool, true, false, not, ◌&&◌, Option, none, some, List, [], ◌∷◌, ◌==◌, if◌then◌else◌, update,
  Run, ok, stop, panic, ◌>>=◌,
}

-- Where a CPU is: outside; in the loop of `spin_lock`; past it with `lk->cpu` not yet set; in the
-- critical section; in `spin_unlock` with `lk->cpu` cleared.
pub data Phase : Type 0 where
  outside : Phase
  spinning : Phase
  won : Phase
  inside : Phase
  leaving : Phase

pub record Spinlock : Type 0 where
  pub locked : ℕ
  pub cpu : Option ℕ
  pub phase : ℕ → Phase

abbrev pub holds : Option ℕ → ℕ → Bool
holds none c = false
holds (some d) c = d == c

-- `holding(lk)` on CPU `c`
abbrev pub holding : ℕ → Spinlock → Bool
holding c s = not (s.locked == 0) && holds s.cpu c

-- The next step of CPU `c`, in the given phase.
unfoldable pub step_from : Phase → ℕ → Spinlock → Run Spinlock
step_from outside c s =
    if holding c s then stop panic else ok (record s { phase = update s.phase c spinning })
step_from spinning c s =
    ok (record s { locked = 1; phase = update s.phase c (if s.locked == 0 then won else spinning) })
step_from won c s = ok (record s { cpu = some c; phase = update s.phase c inside })
step_from inside c s =
    if not (holding c s)
    then stop panic
    else ok (record s { cpu = none; phase = update s.phase c leaving })
step_from leaving c s = ok (record s { locked = 0; phase = update s.phase c outside })

unfoldable pub step : ℕ → Spinlock → Run Spinlock
unfolding step_from
step c s = step_from (s.phase c) c s

-- The CPUs take steps in the order of the list.
unfoldable pub run : List ℕ → Spinlock → Run Spinlock
unfolding step
run [] s = ok s
run (c ∷ rest) s = do next ← step c s; run rest next

-- After `__spin_initlock`, with no CPU at the lock.
abbrev pub initlock : Spinlock
initlock = record { locked = 0; cpu = none; phase = λ c. outside }
