-- ===== src/Trap/Dispatch.antt =====
-- `trap_dispatch` and `trap` of kern/trap.c. No CPU has panicked; the big kernel lock is taken and
-- given back around the kernel's work. The monitor's commands all return 0, so the monitor that a
-- breakpoint starts never returns, as the one of `sched_yield`.
use jos_lab.Base.{
  ℕ, ◌+◌, ◌%◌, Bool, true, false, Option, none, some, ◌==◌, if◌then◌else◌, Run, ok, stop, panic,
  fault, ◌>>=◌,
}
use jos_lab.Kernel.{in_register}
use jos_lab.Env.{Status, env_dying, Trapframe, Kernel, set_env, is_running, env_run}
use jos_lab.Env.Free.{Destroyed, returned, yielded, env_free, env_destroy}
use jos_lab.Sched.{sched_yield}
use jos_lab.Syscall.{Ending, back, left}
use jos_lab.Syscall.Ipc.{syscall}
use jos_lab.Trap.{t_brkpt, t_pgflt, t_syscall, irq_offset, irq_timer, irq_spurious, gd_kt}
use jos_lab.Trap.Fault.{page_fault_handler}

abbrev pub is_dying : Status → Bool
is_dying env_dying = true
is_dying _ = false

-- `tf->tf_regs.reg_eax = value`
abbrev pub with_eax : ℕ → Trapframe → Trapframe
with_eax value tf = record tf { tf_regs = record (tf.tf_regs) { reg_eax = value } }

-- The store to `tf`, which is the frame of environment `saved`, or the one on the kernel's stack,
-- which is not used again.
abbrev pub set_eax : Option ℕ → ℕ → Kernel → Kernel
set_eax none value k = k
set_eax (some e) value k =
    set_env e (record (k.envs e) { env_tf = with_eax value (k.envs e).env_tf }) k

-- What a system call's end does to the frame. `reg_eax` has no sign, so the panic for a negative
-- result behind the call is never reached.
abbrev pub answered : Option ℕ → Ending → Destroyed
answered saved (back r k) = returned (set_eax saved (in_register r) k)
answered saved (left next) = yielded next

-- The end of `trap_dispatch`, for traps that nothing handles or whose handler returned.
unfoldable pub unexpected : Trapframe → Kernel → Run Destroyed
unfolding env_destroy
unexpected tf k =
    if tf.tf_cs == gd_kt
    then stop panic
    else elim (k.cur) [ none ↦ stop fault | some c ↦ env_destroy c k ]

abbrev pub fall_through : Trapframe → Destroyed → Run Destroyed
fall_through tf (returned k) = unexpected tf k
fall_through tf (yielded next) = ok (yielded next)

-- `key` is what `cons_getc` returns, `fault_va` is CR2.
unfoldable pub trap_dispatch : ℕ → ℕ → Option ℕ → Trapframe → Kernel → Run Destroyed
unfolding page_fault_handler unexpected syscall sched_yield
trap_dispatch key fault_va saved tf k =
    if tf.tf_trapno == irq_offset + irq_spurious
    then ok (returned k)
    else if tf.tf_trapno == irq_offset + irq_timer
    then (do next ← sched_yield k; ok (yielded next))
    else if tf.tf_trapno == t_pgflt
    then page_fault_handler fault_va tf k >>= fall_through tf
    else if tf.tf_trapno == t_brkpt
    then ok (yielded none)
    else if tf.tf_trapno == t_syscall
    then (do
      end ← syscall key tf.tf_regs.reg_eax tf.tf_regs.reg_edx tf.tf_regs.reg_ecx k
      ok (answered saved end))
    else unexpected tf k

-- The end of `trap`: back to `curenv` if it can go on, else to the scheduler.
unfoldable pub resume : Option ℕ → Kernel → Run (Option Kernel)
unfolding sched_yield env_run
resume none k = sched_yield k
resume (some c) k =
    if is_running (k.envs c).env_status
    then (do running ← env_run c k; ok (some running))
    else sched_yield k

abbrev pub after_dispatch : Destroyed → Run (Option Kernel)
after_dispatch (returned k) = resume k.cur k
after_dispatch (yielded next) = ok next

-- A trap from user mode, of `curenv`, which must be there.
unfoldable pub trap_from_user : ℕ → ℕ → Option ℕ → Trapframe → Kernel → Run (Option Kernel)
unfolding env_free sched_yield trap_dispatch resume
trap_from_user key fault_va none tf k = stop panic
trap_from_user key fault_va (some c) tf k =
    if is_dying (k.envs c).env_status
    then (do freed ← env_free c k; sched_yield (record freed { cur = none }))
    else trap_dispatch key fault_va (some c) tf (set_env c (record (k.envs c) { env_tf = tf }) k)
      >>= after_dispatch

-- `interruptible` is FL_IF of the CPU, which the interrupt gates clear.
unfoldable pub trap : ℕ → ℕ → Bool → Trapframe → Kernel → Run (Option Kernel)
unfolding trap_from_user trap_dispatch resume
trap key fault_va interruptible tf k =
    if interruptible
    then stop panic
    else if tf.tf_cs % 4 == 3
    then trap_from_user key fault_va k.cur tf k
    else trap_dispatch key fault_va none tf k >>= after_dispatch
