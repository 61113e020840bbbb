-- ===== src/Examples/Stubs.antt =====
-- The stubs of the system calls, called by environment 0.
use jos_lab.Base.{ℕ, refl, Option, Run}
use jos_lab.Env.{Kernel}
use jos_lab.User.Stubs.{
  Returns, not_known, cgetc_call, getenvid_call, yield_call, exofork_call, page_alloc_call,
  page_map_call, page_unmap_call, env_set_status_call, env_set_pgfault_upcall_call,
  ipc_try_send_call, ipc_recv_call, stubs_lem,
}
use jos_lab.Examples.Machine.{some_kernel}
use jos_lab.Examples.Traps.{user_trap}

abbrev Gives : ℕ → Run (Option (ℕ × Kernel)) → Type 0
Gives r run = Returns 65 0 0 (user_trap 13 9) r some_kernel run

stubs_lem_example :
    Gives 65 (cgetc_call 65 0 0 (user_trap 13 9) some_kernel)
    × Gives 4096 (getenvid_call 65 0 0 (user_trap 13 9) some_kernel)
    × Gives not_known (yield_call 65 0 0 (user_trap 13 9) some_kernel)
    × Gives not_known (exofork_call 65 0 0 (user_trap 13 9) some_kernel)
    × ((envid va perm : ℕ)
        → Gives not_known (page_alloc_call 65 0 0 (user_trap 13 9) envid va perm some_kernel))
    × ((srcenv srcva dstenv dstva perm : ℕ)
        → Gives not_known
            (page_map_call 65 0 0 (user_trap 13 9) srcenv srcva dstenv dstva perm some_kernel))
    × ((envid va : ℕ)
        → Gives not_known (page_unmap_call 65 0 0 (user_trap 13 9) envid va some_kernel))
    × ((envid status : ℕ)
        → Gives not_known (env_set_status_call 65 0 0 (user_trap 13 9) envid status some_kernel))
    × ((envid upcall : ℕ)
        → Gives not_known
            (env_set_pgfault_upcall_call 65 0 0 (user_trap 13 9) envid upcall some_kernel))
    × ((envid value srcva perm : ℕ)
        → Gives not_known
            (ipc_try_send_call 65 0 0 (user_trap 13 9) envid value srcva perm some_kernel))
    × ((dstva : ℕ) → Gives not_known (ipc_recv_call 65 0 0 (user_trap 13 9) dstva some_kernel))
stubs_lem_example = stubs_lem 65 0 0 (user_trap 13 9) 1 some_kernel refl refl refl refl
