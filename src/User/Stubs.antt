-- ===== src/User/Stubs.antt =====
-- lib/syscall.c and the stub of inc/lib.h, as environment `c` calls them, down to `trap` of the
-- kernel. `tf` is what the program has in its registers, `key` what `cons_getc` of the kernel
-- returns, and `fault_va` CR2.
use jos_lab.Base.{
  ℕ, ◌^◌, ◌%◌, ◌<◌, ◌≡◌, ◌≢◌, refl, ap, ◌∙◌, Bool, true, false, ◌&&◌, Option, none, some, ◌==◌,
  eq_self, ltb, if◌then◌else◌, Run, ok, stop, panic, ◌>>=◌, arith,
}
use jos_lab.Kernel.{err, e_inval, in_register}
use jos_lab.Env.{Trapframe, Kernel, is_running}
use jos_lab.Trap.{t_syscall}
use jos_lab.Trap.Dispatch.{trap}
use jos_lab.Trap.Return.{answer, trap-answer}

-- The frame of `int T_SYSCALL` with the number and the arguments in their registers.
abbrev pub call_frame : ℕ → ℕ → ℕ → ℕ → ℕ → ℕ → Trapframe → Trapframe
call_frame num a1 a2 a3 a4 a5 tf = record tf {
  tf_trapno = t_syscall;
  tf_regs = record (tf.tf_regs) {
    reg_eax = num;
    reg_edx = a1;
    reg_ecx = a2;
    reg_ebx = a3;
    reg_edi = a4;
    reg_esi = a5;
  };
}

-- A result above 0 in an `int32_t`.
abbrev pub is_positive : ℕ → Bool
is_positive r = ltb 0 r && ltb r (2 ^ 31)

abbrev pub is_current : ℕ → Option ℕ → Bool
is_current c none = false
is_current c (some i) = i == c

-- The result -E_INVAL.
abbrev pub not_known : ℕ
not_known = in_register (err e_inval)

module _ (key fault_va c : ℕ) (tf : Trapframe) where
  -- The result in eax, once the kernel goes on with `c`; `none` while it does not.
  abbrev pub call_result : Bool → Option Kernel → Run (Option (ℕ × Kernel))
  call_result check none = ok none
  call_result check (some k) =
      let r = (k.envs c).env_tf.tf_regs.reg_eax in
      if is_current c k.cur
      then (if check && is_positive r then stop panic else ok (some (r, k)))
      else ok none

  -- `syscall` of lib/syscall.c.
  unfoldable pub stub : ℕ → Bool → ℕ → ℕ → ℕ → ℕ → ℕ → Kernel → Run (Option (ℕ × Kernel))
  unfolding trap
  stub num check a1 a2 a3 a4 a5 k = do
    next ← trap key fault_va false (call_frame num a1 a2 a3 a4 a5 tf) k
    call_result check next

  abbrev pub cputs_call : ℕ → ℕ → Kernel → Run (Option (ℕ × Kernel))
  cputs_call s len = stub 0 false s len 0 0 0

  abbrev pub cgetc_call : Kernel → Run (Option (ℕ × Kernel))
  cgetc_call = stub 1 false 0 0 0 0 0

  abbrev pub getenvid_call : Kernel → Run (Option (ℕ × Kernel))
  getenvid_call = stub 2 false 0 0 0 0 0

  abbrev pub env_destroy_call : ℕ → Kernel → Run (Option (ℕ × Kernel))
  env_destroy_call envid = stub 3 true envid 0 0 0 0

  abbrev pub page_alloc_call : ℕ → ℕ → ℕ → Kernel → Run (Option (ℕ × Kernel))
  page_alloc_call envid va perm = stub 4 true envid va perm 0 0

  abbrev pub page_map_call : ℕ → ℕ → ℕ → ℕ → ℕ → Kernel → Run (Option (ℕ × Kernel))
  page_map_call srcenv srcva dstenv dstva perm = stub 5 true srcenv srcva dstenv dstva perm

  abbrev pub page_unmap_call : ℕ → ℕ → Kernel → Run (Option (ℕ × Kernel))
  page_unmap_call envid va = stub 6 true envid va 0 0 0

  -- It leaves the registers of the arguments as they are.
  abbrev pub exofork_call : Kernel → Run (Option (ℕ × Kernel))
  exofork_call =
      let r = tf.tf_regs in stub 7 false r.reg_edx r.reg_ecx r.reg_ebx r.reg_edi r.reg_esi

  abbrev pub env_set_status_call : ℕ → ℕ → Kernel → Run (Option (ℕ × Kernel))
  env_set_status_call envid status = stub 8 true envid status 0 0 0

  abbrev pub env_set_pgfault_upcall_call : ℕ → ℕ → Kernel → Run (Option (ℕ × Kernel))
  env_set_pgfault_upcall_call envid upcall = stub 9 true envid upcall 0 0 0

  abbrev pub yield_call : Kernel → Run (Option (ℕ × Kernel))
  yield_call = stub 10 false 0 0 0 0 0

  abbrev pub ipc_try_send_call : ℕ → ℕ → ℕ → ℕ → Kernel → Run (Option (ℕ × Kernel))
  ipc_try_send_call envid value srcva perm = stub 11 false envid value srcva perm 0

  abbrev pub ipc_recv_call : ℕ → Kernel → Run (Option (ℕ × Kernel))
  ipc_recv_call dstva = stub 12 true dstva 0 0 0 0

  -- exit of lib/exit.c
  abbrev pub exit : Kernel → Run (Option (ℕ × Kernel))
  exit = env_destroy_call 0

  -- The call returns `r` and has changed no memory and no other environment.
  abbrev pub Returns : ℕ → Kernel → Run (Option (ℕ × Kernel)) → Type 0
  Returns r k run =
      (k' : Kernel) × (run ≡ ok (some (r, k')))
      × (k'.mem ≡ k.mem)
      × ((j : ℕ) → j ≢ c → k'.envs j ≡ k.envs j)

  module _ (d : ℕ) (k : Kernel) (user : tf.tf_cs % 4 ≡ 3) (here : k.cur ≡ some c)
      (space : (k.envs c).env_pgdir ≡ some d) (runs : is_running (k.envs c).env_status ≡ true) where
    stub-Returns :
        (num : ℕ) (check : Bool) (a1 a2 a3 a4 a5 : ℕ) (r : ℕ)
        → num ≢ 0
        → num ≢ 3
        → in_register (answer key (k.envs c).env_id num) ≡ r
        → (check && is_positive r) ≡ false
        → Returns r k (stub num check a1 a2 a3 a4 a5 k)
    unfolding stub
    stub-Returns num check a1 a2 a3 a4 a5 r n0 n3 is fine =
        let (k', traps, frame, running, cur, cr3, mem, others, _, _) =
          trap-answer key fault_va c d (call_frame num a1 a2 a3 a4 a5 tf) k user refl n0 n3 here
            space runs in
        let eax : (k'.envs c).env_tf.tf_regs.reg_eax ≡ r =
          ap (λ (f : Trapframe). f.tf_regs.reg_eax) frame ∙ is in
        (k', rw (traps, cur, eq_self c, eax, fine) refl, mem, others)

    negative : (check : Bool) → (check && is_positive not_known) ≡ false
    negative true = refl
    negative false = refl

    unknown-Returns :
        (num : ℕ) (check : Bool) (a1 a2 a3 a4 a5 : ℕ)
        → 3 < num
        → Returns not_known k (stub num check a1 a2 a3 a4 a5 k)
    unknown-Returns num check a1 a2 a3 a4 a5 above =
        let n1 : (num == 1) ≡ false = ground arith in
        let n2 : (num == 2) ≡ false = ground arith in
        stub-Returns num check a1 a2 a3 a4 a5 not_known (omega (arith, above))
          (omega (arith, above)) (rw (n1, n2) refl) (negative check)

    -- For the running environment `c`, in user mode with a page directory, `sys_cgetc` returns
    -- the character that the kernel read and `sys_getenvid` the id of `c`. Each of the other
    -- calls, but for `sys_cputs` and `sys_env_destroy`, returns -E_INVAL whatever its arguments,
    -- and none panics on the result. No call changes memory or another environment.
    pub stubs_lem :
        Returns (key % 2 ^ 32) k (cgetc_call k)
        × Returns ((k.envs c).env_id % 2 ^ 32) k (getenvid_call k)
        × Returns not_known k (yield_call k)
        × Returns not_known k (exofork_call k)
        × ((envid va perm : ℕ) → Returns not_known k (page_alloc_call envid va perm k))
        × ((srcenv srcva dstenv dstva perm : ℕ)
            → Returns not_known k (page_map_call srcenv srcva dstenv dstva perm k))
        × ((envid va : ℕ) → Returns not_known k (page_unmap_call envid va k))
        × ((envid status : ℕ) → Returns not_known k (env_set_status_call envid status k))
        × ((envid upcall : ℕ) → Returns not_known k (env_set_pgfault_upcall_call envid upcall k))
        × ((envid value srcva perm : ℕ)
            → Returns not_known k (ipc_try_send_call envid value srcva perm k))
        × ((dstva : ℕ) → Returns not_known k (ipc_recv_call dstva k))
    stubs_lem = (
      stub-Returns 1 false 0 0 0 0 0 (key % 2 ^ 32) (omega arith) (omega arith) refl refl,
      stub-Returns 2 false 0 0 0 0 0 ((k.envs c).env_id % 2 ^ 32) (omega arith) (omega arith) refl
          refl,
      unknown-Returns 10 false 0 0 0 0 0 (omega arith),
      (let r = tf.tf_regs in
          unknown-Returns 7 false r.reg_edx r.reg_ecx r.reg_ebx r.reg_edi r.reg_esi (omega arith)),
      λ envid va perm. unknown-Returns 4 true envid va perm 0 0 (omega arith),
      λ srcenv srcva dstenv dstva perm.
          unknown-Returns 5 true srcenv srcva dstenv dstva perm (omega arith),
      λ envid va. unknown-Returns 6 true envid va 0 0 0 (omega arith),
      λ envid status. unknown-Returns 8 true envid status 0 0 0 (omega arith),
      λ envid upcall. unknown-Returns 9 true envid upcall 0 0 0 (omega arith),
      λ envid value srcva perm. unknown-Returns 11 false envid value srcva perm 0 (omega arith),
      λ dstva. unknown-Returns 12 true dstva 0 0 0 0 (omega arith),
    )
