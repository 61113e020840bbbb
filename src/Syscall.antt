-- ===== src/Syscall.antt =====
-- kern/syscall.c and inc/syscall.h: the system calls of environments, in the environment `curenv`.
-- `sys_page_alloc` is left out: it passes a pointer that `page_alloc` does not take.
pub mod Ipc
pub mod Authority
pub mod Delivery
use jos_lab.Base.{
  ℕ, ◌-◌, ◌^◌, bit_and, Bool, true, false, not, ◌&&◌, ◌||◌, Option, none, some, ◌==◌, ltb, leb,
  if◌then◌else◌, Run, ok, stop, fault, ◌>>=◌,
}
use jos_lab.Mmu.{utop, pgsize, pte_p, pte_w, pte_u, pte_syscall, word_mod, roundup}
use jos_lab.Kernel.{Error, Reply, ret, err, e_bad_env, e_inval, e_no_mem}
use jos_lab.Pmap.{Mem, load, page_lookup, page_insert, page_remove}
use jos_lab.Env.{
  Status, env_runnable, env_not_runnable, Env, Kernel, set_env, set_mem, cur_pgdir, envid2env,
}
use jos_lab.Env.Alloc.{env_alloc}
use jos_lab.Env.Free.{Destroyed, returned, env_destroy}
use jos_lab.Sched.{sched_yield}

-- Where a call ends: back in the handler, with its result, or in another environment or the
-- monitor, by way of `sched_yield`.
pub data Ending : Type 0 where
  back : Reply → Kernel → Ending
  left : Option Kernel → Ending

-- What follows `envid2env`: the first function with its error, or the second with the
-- environment; a null `curenv` is not written to.
abbrev pub on_env {ℓ} : {A : Type ℓ} → (Error → Run A) → (ℕ → Run A) → Reply × Option ℕ → Run A
on_env bad good (err x, found) = bad x
on_env bad good (ret n, none) = stop fault
on_env bad good (ret n, some e) = good e

-- `env_pgdir`, which must not be null where it is used.
abbrev pub on_space {ℓ} : {A : Type ℓ} → (ℕ → Run A) → Option ℕ → Run A
on_space good none = stop fault
on_space good (some d) = good d

unfoldable pub sys_getenvid : Kernel → Run ℕ
sys_getenvid k = elim (k.cur) [ none ↦ stop fault | some c ↦ ok (k.envs c).env_id ]

unfoldable pub sys_env_destroy : ℕ → Kernel → Run Ending
unfolding envid2env env_destroy
sys_env_destroy envid k = do
  found ← envid2env envid true k
  on_env (λ x. ok (back (err x) k))
      (λ e. do
        end ← env_destroy e k
        ok (elim end [
          | Destroyed.returned k ↦ back (ret 0) k
          | Destroyed.yielded next ↦ left next
        ]))
      found

unfoldable pub sys_yield : Kernel → Run Ending
unfolding sched_yield
sys_yield k = do next ← sched_yield k; ok (left next)

-- The child of `sys_exofork`, made of the new environment.
abbrev pub forked : Env → Env → Env
forked parent child = record child {
  env_status = env_not_runnable;
  env_tf = record (parent.env_tf) { tf_regs = record (parent.env_tf.tf_regs) { reg_eax = 0 } };
}

-- `sys_exofork` by `curenv`, which `env_alloc` does not change.
unfoldable pub fork_by : Option ℕ → Kernel → Run (Reply × Kernel)
unfolding env_alloc
fork_by none k = stop fault
fork_by (some c) k = do
  (r, newenv, made) ← env_alloc (k.envs c).env_id k
  on_env (λ x. ok (err x, made))
      (λ e. ok (ret (made.envs e).env_id, set_env e (forked (made.envs c) (made.envs e)) made))
      (r, newenv)

unfoldable pub sys_exofork : Kernel → Run (Reply × Kernel)
unfolding fork_by
sys_exofork k = fork_by k.cur k

-- The values of `env_status` that a system call may set.
abbrev pub settable : ℕ → Option Status
settable status =
    if status == 2 then some env_runnable else if status == 4 then some env_not_runnable else none

unfoldable pub set_status : Option Status → ℕ → Kernel → Run (Reply × Kernel)
unfolding envid2env
set_status none envid k = ok (err e_inval, k)
set_status (some s) envid k = do
  found ← envid2env envid true k
  on_env (λ x. ok (err x, k)) (λ e. ok (ret 0, set_env e (record (k.envs e) { env_status = s }) k))
      found

unfoldable pub sys_env_set_status : ℕ → ℕ → Kernel → Run (Reply × Kernel)
unfolding set_status
sys_env_set_status envid status k = set_status (settable status) envid k

unfoldable pub sys_env_set_pgfault_upcall : ℕ → ℕ → Kernel → Run (Reply × Kernel)
unfolding envid2env
sys_env_set_pgfault_upcall envid func k = do
  found ← envid2env envid true k
  on_env (λ x. ok (err e_bad_env, k))
      (λ e. ok (ret 0, set_env e (record (k.envs e) { env_pgfault_upcall = func }) k)) found

-- PTE_USER, which no header defines, has the value that the comment beside it gives:
-- PTE_U | PTE_P | PTE_W | PTE_AVAIL. The bits of `perm` outside it:
abbrev pub stray_bits : ℕ → ℕ
stray_bits perm = bit_and perm (word_mod - 1 - pte_syscall)

abbrev pub lacks : ℕ → ℕ → Bool
lacks perm flag = bit_and perm flag == 0

-- The tests of an `int` perm, of which `(perm & ~PTE_USER) > 0` is a signed comparison.
abbrev pub bad_perm : ℕ → Bool
bad_perm perm =
    (lacks perm pte_u || lacks perm pte_p)
    || (not (stray_bits perm == 0) && ltb (stray_bits perm) (2 ^ 31))

-- Whether an address of a page operation is refused.
abbrev pub bad_va : ℕ → Bool
bad_va va = leb utop va || not (roundup va pgsize == va)

-- The end of `sys_page_map`, for the two page directories.
unfoldable pub map_page : ℕ → ℕ → ℕ → ℕ → ℕ → Kernel → Run (Reply × Kernel)
unfolding page_lookup page_insert
map_page src srcva dst dstva perm k = do
  (found, pte) ← page_lookup src srcva k.mem
  elim found [
    | none ↦ ok (err e_inval, k)
    | some p ↦ elim pte [
      | none ↦ stop fault
      | some slot ↦
          if not (lacks perm pte_w) && lacks (load slot k.mem) pte_w
          then ok (err e_inval, k)
          else do
            (r, m) ← page_insert (cur_pgdir k) dst p dstva perm k.mem
            ok (elim r [ ret n ↦ (ret 0, set_mem m k) | err x ↦ (err e_no_mem, set_mem m k) ])
    ]
  ]

unfoldable pub sys_page_map : ℕ → ℕ → ℕ → ℕ → ℕ → Kernel → Run (Reply × Kernel)
unfolding envid2env map_page
sys_page_map srcenvid srcva dstenvid dstva perm k =
    if (bad_va srcva || bad_va dstva) || bad_perm perm then ok (err e_inval, k) else do
      source ← envid2env srcenvid true k
      on_env (λ x. ok (err e_bad_env, k))
          (λ s. do
            target ← envid2env dstenvid true k
            on_env (λ x. ok (err e_bad_env, k))
                (λ t.
                  on_space
                    (λ src.
                      on_space (λ dst. map_page src srcva dst dstva perm k) (k.envs t).env_pgdir)
                    (k.envs s).env_pgdir)
                target)
          source

unfoldable pub sys_page_unmap : ℕ → ℕ → Kernel → Run (Reply × Kernel)
unfolding envid2env page_remove
sys_page_unmap envid va k = if bad_va va then ok (err e_inval, k) else do
  found ← envid2env envid true k
  on_env (λ x. ok (err e_bad_env, k))
      (λ e.
        on_space (λ d. do m ← page_remove (cur_pgdir k) d va k.mem; ok (ret 0, set_mem m k))
          (k.envs e).env_pgdir)
      found
