-- ===== src/Env.antt =====
-- inc/env.h, inc/trap.h and kern/env.c: the table of environments and its free list. An
-- environment is named by its index in `envs`; an `envid_t` is the 32-bit pattern of the
-- `int32_t`; `cur` is `curenv` of the CPU that runs the kernel, under the big kernel lock.
pub mod Lookup
pub mod Init
pub mod Alloc
pub mod Region
pub mod Load
pub mod Image
pub mod Segment
pub mod Program
pub mod Icode
pub mod Fresh
pub mod Switch
pub mod Free
use jos_lab.Base.{
  ℕ, zero, suc, ◌+◌, ◌*◌, ◌/◌, ◌%◌, ◌^◌, bit_or, Bool, true, false, not, ◌&&◌, ◌||◌, Option, none,
  some, ◌==◌, leb, if◌then◌else◌, update, Run, ok, stop, fault, panic, ◌>>=◌,
}
use jos_lab.Mmu.{
  word_mod, pdx, utop, uvpt, ustacktop, pte_p, pte_u, pte_w, pgsize, rounddown, roundup,
}
use jos_lab.Kernel.{Reply, ret, err, e_bad_env, e_no_mem, e_no_free_env}
use jos_lab.Pmap.{Mem, page_alloc, page_insert, page2pa, page2kva, store, set_ref, alloc_zero}

pub record PushRegs : Type 0 where
  pub reg_edi : ℕ
  pub reg_esi : ℕ
  pub reg_ebp : ℕ
  pub reg_oesp : ℕ
  pub reg_ebx : ℕ
  pub reg_edx : ℕ
  pub reg_ecx : ℕ
  pub reg_eax : ℕ

pub record Trapframe : Type 0 where
  pub tf_regs : PushRegs
  pub tf_es : ℕ
  pub tf_ds : ℕ
  pub tf_trapno : ℕ
  pub tf_err : ℕ
  pub tf_eip : ℕ
  pub tf_cs : ℕ
  pub tf_eflags : ℕ
  pub tf_esp : ℕ
  pub tf_ss : ℕ

pub data Status : Type 0 where
  env_free_status : Status
  env_dying : Status
  env_runnable : Status
  env_running : Status
  env_not_runnable : Status

-- `env_pgdir` is `none` where the source stores 0; `env_type` has the one value ENV_TYPE_USER.
pub record Env : Type 0 where
  pub env_tf : Trapframe
  pub env_link : Option ℕ
  pub env_id : ℕ
  pub env_parent_id : ℕ
  pub env_type : ℕ
  pub env_status : Status
  pub env_runs : ℕ
  pub env_cpunum : ℕ
  pub env_pgdir : Option ℕ
  pub env_pgfault_upcall : ℕ
  pub env_ipc_recving : Bool
  pub env_ipc_dstva : ℕ
  pub env_ipc_value : ℕ
  pub env_ipc_from : ℕ
  pub env_ipc_perm : ℕ

-- The kernel as one CPU sees it: `cr3` is the page directory that the CPU uses, `cpunum` the
-- CPU's number, `kern_pgdir` the frame of the kernel's own directory.
pub record Kernel : Type 0 where
  pub mem : Mem
  pub envs : ℕ → Env
  pub env_free_list : Option ℕ
  pub cur : Option ℕ
  pub kern_pgdir : ℕ
  pub cr3 : Option ℕ
  pub cpunum : ℕ

abbrev pub nenv : ℕ
nenv = 1024

abbrev pub envx : ℕ → ℕ
envx envid = envid % nenv

abbrev pub set_env : ℕ → Env → Kernel → Kernel
set_env i e k = record k { envs = update k.envs i e }

abbrev pub set_mem : Mem → Kernel → Kernel
set_mem m k = record k { mem = m }

abbrev pub is_free : Status → Bool
is_free env_free_status = true
is_free _ = false

abbrev pub is_running : Status → Bool
is_running env_running = true
is_running _ = false

abbrev pub is_runnable : Status → Bool
is_runnable env_runnable = true
is_runnable _ = false

-- The page directory of `curenv`, which `tlb_invalidate` looks at.
abbrev pub cur_pgdir : Kernel → Option ℕ
cur_pgdir k = elim (k.cur) [ none ↦ none | some c ↦ (k.envs c).env_pgdir ]

-- Whether `e` is `curenv`.
abbrev pub is_cur : ℕ → Kernel → Bool
is_cur e k = elim (k.cur) [ none ↦ false | some c ↦ e == c ]

-- `e->env_parent_id == curenv->env_id`, which faults with no `curenv`.
unfoldable pub parent_is_cur : ℕ → Kernel → Run Bool
parent_is_cur e k = elim (k.cur) [
  | none ↦ stop fault
  | some c ↦ ok ((k.envs e).env_parent_id == (k.envs c).env_id)
]

-- The result, and what is stored through `env_store`.
unfoldable pub envid2env : ℕ → Bool → Kernel → Run (Reply × Option ℕ)
unfolding parent_is_cur
envid2env envid checkperm k =
    let e = envx envid in
    if envid == 0
    then ok (ret 0, k.cur)
    else if is_free (k.envs e).env_status || not ((k.envs e).env_id == envid)
    then ok (err e_bad_env, none)
    else if checkperm && not (is_cur e k)
    then (do
      child ← parent_is_cur e k
      ok (if child then (ret 0, some e) else (err e_bad_env, none)))
    else ok (ret 0, some e)

-- `curenv` goes back to ENV_RUNNABLE if it is running; the argument is what `curenv` points to.
abbrev pub step_down : Option ℕ → Kernel → Kernel
step_down none k = k
step_down (some c) k =
    if is_running (k.envs c).env_status
    then set_env c (record (k.envs c) { env_status = env_runnable }) k
    else k

-- The environment that `env_run` and `env_pop_tf` leave behind.
abbrev pub entered : Env → Kernel → Env
entered e k = record e {
  env_status = env_running;
  env_runs = (e.env_runs + 1) % word_mod;
  env_cpunum = k.cpunum;
}

-- The switch to `e`, whose page directory the second argument is; `PADDR` of a null one panics.
abbrev pub switch_to : ℕ → Option ℕ → Kernel → Run Kernel
switch_to e none k = stop panic
switch_to e (some d) k =
    ok (record k { envs = update k.envs e (entered (k.envs e) k); cur = some e; cr3 = some d })

-- `env_run` with `env_pop_tf`, up to the `iret` that leaves the kernel.
unfoldable pub env_run : ℕ → Kernel → Run Kernel
env_run e k = switch_to e (k.envs e).env_pgdir (step_down k.cur k)
