-- ===== src/Examples/Calls.antt =====
-- System calls in the small kernel.
use jos_lab.Base.{ℕ, ◌<◌, ◌≡◌, ◌||◌, refl, none, some, [], ◌∷◌, arith, ok, if◌then◌else◌}
use jos_lab.Kernel.{ret, err, e_bad_env, e_inval, e_ipc_not_recv}
use jos_lab.Env.{Kernel}
use jos_lab.Syscall.{
  back, settable, bad_va, bad_perm, sys_env_destroy, sys_env_set_status, sys_env_set_pgfault_upcall,
  sys_page_unmap, sys_page_map, sys_exofork,
}
use jos_lab.Syscall.Authority.{no_authority}
use jos_lab.Syscall.Ipc.{sys_ipc_try_send}
use jos_lab.Syscall.Delivery.{Message, Child, send-value, sys_exofork_lem}
use jos_lab.Examples.Machine.{some_kernel, empty-FreeList, some-FreeEnvs}

-- Environment 7 is no child of environment 0.
no_authority_example :
    (sys_env_destroy 8199 some_kernel ≡ ok (back (err e_bad_env) some_kernel))
    × ((status : ℕ)
        → sys_env_set_status 8199 status some_kernel
          ≡ ok (err (elim (settable status) [ none ↦ e_inval | some s ↦ e_bad_env ]), some_kernel))
    × ((func : ℕ)
        → sys_env_set_pgfault_upcall 8199 func some_kernel ≡ ok (err e_bad_env, some_kernel))
    × ((va : ℕ)
        → sys_page_unmap 8199 va some_kernel
          ≡ ok (err (if bad_va va then e_inval else e_bad_env), some_kernel))
    × ((srcva other dstva perm : ℕ)
        → sys_page_map 8199 srcva other dstva perm some_kernel
          ≡ ok (
            err (if (bad_va srcva || bad_va dstva) || bad_perm perm then e_inval else e_bad_env),
            some_kernel,
          ))
    × ((other srcva dstva perm : ℕ)
        → sys_page_map other srcva 8199 dstva perm some_kernel
          ≡ ok (
            err (if (bad_va srcva || bad_va dstva) || bad_perm perm then e_inval else e_bad_env),
            some_kernel,
          ))
no_authority_example = no_authority some_kernel 0 8199 refl (λ e n. ground arith)

send-value_example :
    (k' : Kernel) × (sys_ipc_try_send 4098 42 0xF0000000 0 some_kernel ≡ ok (ret 0, k'))
    × Message 0 2 42 some_kernel k'
    × ((value2 srcva2 perm2 : ℕ)
        → sys_ipc_try_send 4098 value2 srcva2 perm2 k' ≡ ok (err e_ipc_not_recv, k'))
send-value_example =
    send-value some_kernel 0 2 4098 42 0xF0000000 0 refl refl refl refl refl (omega arith) refl refl

sys_exofork_lem_example :
    (k' : Kernel) × (sys_exofork some_kernel ≡ ok (ret (k'.envs 3).env_id, k'))
    × (0 < (k'.envs 3).env_id)
    × Child 0 3 2 some_kernel k'
sys_exofork_lem_example =
    sys_exofork_lem some_kernel 0 3 2 (4 ∷ []) (3 ∷ []) refl (omega arith) (omega arith)
      some-FreeEnvs empty-FreeList (λ e. ground arith) (λ e. ground arith)
