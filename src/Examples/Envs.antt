-- ===== src/Examples/Envs.antt =====
-- The table of environments and the scheduler, in the small kernel.
use jos_lab.Base.{ℕ, ◌≡◌, ◌≢◌, ◌⊎◌, refl, true, none, some, [], ◌∷◌, arith, ok}
use jos_lab.Kernel.{ret, err, e_bad_env}
use jos_lab.Pmap.Free.{FreeList}
use jos_lab.Env.{Kernel, envid2env, env_run, is_running, is_runnable}
use jos_lab.Env.Lookup.{Names, envid2env_lem}
use jos_lab.Env.Init.{FreeEnvs}
use jos_lab.Env.Alloc.{env_alloc}
use jos_lab.Env.Fresh.{Born, env_alloc_lem}
use jos_lab.Env.Free.{env_free, env_free-env_alloc}
use jos_lab.Env.Switch.{OnlyCurrent, env_run_lem}
use jos_lab.Sched.{first_candidate, chosen}
use jos_lab.Sched.Order.{Picked, chosen-Picked}
use jos_lab.Sched.Progress.{Served, sched_yield-progress}
use jos_lab.Examples.Machine.{
  some_kernel, empty_mem, empty-FreeList, some-FreeEnvs, some-OnlyCurrent, some-Housed,
}

envid2env_lem_example :
    ((e : ℕ) × (envid2env 4098 true some_kernel ≡ ok (ret 0, some e))
      × Names some_kernel 0 4098 true e)
    ⊎ ((envid2env 4098 true some_kernel ≡ ok (err e_bad_env, none))
        × ((e : ℕ) → Names some_kernel 0 4098 true e → ⊥))
envid2env_lem_example = envid2env_lem some_kernel 0 4098 true refl

env_alloc_lem_example :
    (k' : Kernel) × (env_alloc 4096 some_kernel ≡ ok (ret 0, some 3, k'))
    × Born 4096 3 2 some_kernel k'
    × FreeEnvs k' (4 ∷ [])
    × FreeList k'.mem (3 ∷ [])
env_alloc_lem_example =
    env_alloc_lem 4096 3 2 some_kernel (4 ∷ []) (3 ∷ []) (omega arith) (omega arith) some-FreeEnvs
      empty-FreeList (λ e. ground arith)

-- The kernel with no free page.
abbrev full_kernel : Kernel
full_kernel = record some_kernel { mem = record empty_mem { page_free_list = none } }

full-FreeEnvs : FreeEnvs full_kernel (3 ∷ 4 ∷ [])
full-FreeEnvs = record {
  chain = (refl, (refl, refl));
  in_table = (omega arith, (omega arith, _));
  idle = (refl, (refl, _));
  distinct = (refl, (refl, _));
}

full-FreeList : FreeList full_kernel.mem []
full-FreeList = record { chain = refl; in_range = _; unreferenced = _; distinct = _ }

env_free-env_alloc_example :
    (k' : Kernel) × (env_alloc 4096 some_kernel ≡ ok (ret 0, some 3, k'))
    × ((k2 : Kernel) × (env_free 3 k' ≡ ok k2)
        × FreeEnvs k2 (3 ∷ 4 ∷ [])
        × FreeList k2.mem (2 ∷ 3 ∷ []))
env_free-env_alloc_example =
    env_free-env_alloc 4096 3 2 some_kernel (4 ∷ []) (3 ∷ []) (omega arith) (omega arith)
      some-FreeEnvs empty-FreeList (λ e. ground arith)

env_run_lem_example :
    (k' : Kernel) × (env_run 2 some_kernel ≡ ok k')
    × (k'.cur ≡ some 2)
    × (k'.cr3 ≡ some 1)
    × (is_running (k'.envs 2).env_status ≡ true)
    × ((k'.envs 2).env_cpunum ≡ 0)
    × ((j : ℕ)
        → j ≢ 2
        → is_runnable (some_kernel.envs j).env_status ≡ true
        → is_runnable (k'.envs j).env_status ≡ true)
    × OnlyCurrent k'
env_run_lem_example = env_run_lem 2 1 some_kernel refl some-OnlyCurrent

chosen-Picked_example : Picked (first_candidate some_kernel) some_kernel.envs (chosen some_kernel)
chosen-Picked_example = chosen-Picked some_kernel (omega arith)

sched_yield-progress_example : (q : ℕ) × (k' : Kernel) × Served 0 2 q some_kernel k'
sched_yield-progress_example =
    sched_yield-progress some_kernel 0 2 refl (omega arith) some-OnlyCurrent some-Housed
      (omega arith) (omega arith) refl
