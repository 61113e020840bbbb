-- ===== src/Syscall/Ipc.antt =====
-- The two IPC system calls of kern/syscall.c, `user_mem_assert`, and the dispatcher `syscall`.
use jos_lab.Base.{
  ℕ, bit_or, Bool, true, false, not, ◌&&◌, ◌||◌, Option, none, some, ◌==◌, ltb, if◌then◌else◌, Run,
  ok, stop, fault, ◌>>=◌,
}
use jos_lab.Mmu.{utop, pgsize, pte_p, pte_w, pte_u, rounddown}
use jos_lab.Kernel.{Reply, ret, err, e_bad_env, e_inval, e_no_mem, e_ipc_not_recv}
use jos_lab.Pmap.{load, page_lookup, page_insert}
use jos_lab.Pmap.User.{user_mem_check}
use jos_lab.Env.{
  env_runnable, env_not_runnable, Env, Kernel, set_env, set_mem, cur_pgdir, envid2env,
}
use jos_lab.Env.Free.{Destroyed, env_destroy}
use jos_lab.Sched.{sched_yield}
use jos_lab.Syscall.{
  Ending, back, left, on_env, on_space, stray_bits, lacks, sys_getenvid, sys_env_destroy,
}

-- The tests of an `unsigned` perm.
abbrev pub bad_unsigned_perm : ℕ → Bool
bad_unsigned_perm perm = (lacks perm pte_u || lacks perm pte_p) || not (stray_bits perm == 0)

-- The receiver with the message in it.
abbrev pub delivered : ℕ → ℕ → Env → Env
delivered from value e = record e {
  env_ipc_from = from;
  env_ipc_value = value;
  env_status = env_runnable;
  env_ipc_recving = false;
  env_tf = record (e.env_tf) { tf_regs = record (e.env_tf.tf_regs) { reg_eax = 0 } };
}

-- The last five stores of `sys_ipc_try_send` from `c` to `t`.
abbrev pub deliver : ℕ → ℕ → ℕ → Kernel → Kernel
deliver c t value k = set_env t (delivered (k.envs c).env_id value (k.envs t)) k

-- `sys_ipc_try_send` of the page at `srcva` < UTOP, of which `perm` is fit.
unfoldable pub send_page : ℕ → ℕ → ℕ → ℕ → ℕ → Kernel → Run (Reply × Kernel)
unfolding page_lookup page_insert
send_page c t value srcva perm k =
    on_space
      (λ src. do
        (found, pte) ← page_lookup src srcva k.mem
        elim found [
          | none ↦ ok (err e_inval, k)
          | some p ↦ elim pte [
            | none ↦ stop fault
            | some slot ↦
                if lacks (load slot k.mem) pte_w && not (lacks perm pte_w)
                then ok (err e_inval, k)
                else if (k.envs t).env_ipc_dstva == 0
                then ok (ret 0, deliver c t value k)
                else on_space
                    (λ dst. do
                      (r, m) ← page_insert (cur_pgdir k) dst p (k.envs t).env_ipc_dstva perm k.mem
                      ok (elim r [
                        | err x ↦ (err e_no_mem, set_mem m k)
                        | ret n ↦ (
                          ret 0,
                          deliver c t value
                              (set_env t (record (k.envs t) { env_ipc_perm = perm }) (set_mem m k)),
                        )
                      ]))
                    (k.envs t).env_pgdir
          ]
        ])
      (k.envs c).env_pgdir

-- `sys_ipc_try_send` of the current environment `c` once the receiver `t` is found.
unfoldable pub send_to : ℕ → ℕ → ℕ → ℕ → ℕ → Kernel → Run (Reply × Kernel)
unfolding send_page
send_to c t value srcva perm k =
    if not (k.envs t).env_ipc_recving || not ((k.envs t).env_ipc_from == 0)
    then ok (err e_ipc_not_recv, k)
    else if ltb srcva utop
    then (if not (rounddown srcva pgsize == srcva) || bad_unsigned_perm perm
        then ok (err e_inval, k)
        else send_page c t value srcva perm k)
    else ok (ret 0, deliver c t value k)

-- `sys_ipc_try_send` by `curenv`, once the receiver `t` is found.
unfoldable pub send_from : Option ℕ → ℕ → ℕ → ℕ → ℕ → Kernel → Run (Reply × Kernel)
unfolding send_to
send_from none t value srcva perm k =
    if not (k.envs t).env_ipc_recving || not ((k.envs t).env_ipc_from == 0)
    then ok (err e_ipc_not_recv, k)
    else if ltb srcva utop && (not (rounddown srcva pgsize == srcva) || bad_unsigned_perm perm)
    then ok (err e_inval, k)
    else stop fault
send_from (some c) t value srcva perm k = send_to c t value srcva perm k

unfoldable pub sys_ipc_try_send : ℕ → ℕ → ℕ → ℕ → Kernel → Run (Reply × Kernel)
unfolding envid2env send_from
sys_ipc_try_send envid value srcva perm k = do
  found ← envid2env envid false k
  on_env (λ x. ok (err e_bad_env, k)) (λ t. send_from k.cur t value srcva perm k) found

-- The environment that waits for a message.
abbrev pub receiving : ℕ → Env → Env
receiving dstva e = record e {
  env_ipc_dstva = dstva;
  env_ipc_recving = true;
  env_ipc_from = 0;
  env_status = env_not_runnable;
}

unfoldable pub sys_ipc_recv : ℕ → Kernel → Run Ending
unfolding sched_yield
sys_ipc_recv dstva k =
    if ltb dstva utop && not (rounddown dstva pgsize == dstva)
    then ok (back (err e_inval) k)
    else elim (k.cur) [
      | none ↦ stop fault
      | some c ↦ do next ← sched_yield (set_env c (receiving dstva (k.envs c)) k); ok (left next)
    ]

-- kern/pmap.c; `returned` is the return to the caller.
unfoldable pub user_mem_assert : ℕ → ℕ → ℕ → ℕ → Kernel → Run Destroyed
unfolding user_mem_check env_destroy
user_mem_assert e va len perm k =
    on_space
      (λ d. do
        (r, m) ← user_mem_check d va len (bit_or perm pte_u) k.mem
        (elim r [
          | ret n ↦ ok (Destroyed.returned (set_mem m k))
          | err x ↦ env_destroy e (set_mem m k)
        ]))
      (k.envs e).env_pgdir

-- `sys_cputs`, less the text on the console.
unfoldable pub sys_cputs : ℕ → ℕ → Kernel → Run Ending
unfolding user_mem_assert
sys_cputs s len k = elim (k.cur) [
  | none ↦ stop fault
  | some c ↦ do
    end ← user_mem_assert c s len pte_u k
    ok (elim end [ Destroyed.returned k ↦ back (ret 0) k | Destroyed.yielded next ↦ left next ])
]

-- The dispatcher; `key` is what `cons_getc` returns.
unfoldable pub syscall : ℕ → ℕ → ℕ → ℕ → Kernel → Run Ending
unfolding sys_cputs sys_getenvid sys_env_destroy
syscall key syscallno a1 a2 k =
    if syscallno == 0
    then sys_cputs a1 a2 k
    else if syscallno == 1
    then ok (back (ret key) k)
    else if syscallno == 2
    then (do id ← sys_getenvid k; ok (back (ret id) k))
    else if syscallno == 3
    then sys_env_destroy a1 k
    else ok (back (err e_inval) k)
