-- ===== src/Trap/Return.antt =====
-- How a trap ends for the environment that made it.
use jos_lab.Base.{
  ℕ, ◌+◌, ◌%◌, ◌<◌, ◌≡◌, ◌≢◌, inl, inr, refl, ap, ◌∙◌, sym, true, false, Option, none, some, ◌==◌,
  ne→eqb, eq_self, Bool-cases, Run, ok, stop, fault, ◌>>=◌, if◌then◌else◌, arith, eq_of_eqb,
}
use jos_lab.Kernel.{Reply, ret, err, e_inval, in_register}
use jos_lab.Env.{Trapframe, Status, Env, Kernel, set_env, entered, is_running, is_runnable, env_run}
use jos_lab.Env.Free.{returned, yielded}
use jos_lab.Env.Switch.{OnlyCurrent, env_run_self, env_run-frame}
use jos_lab.Sched.{sched_yield, run_chosen, chosen}
use jos_lab.Sched.Order.{waits}
use jos_lab.Sched.Progress.{Housed, Served, sched_yield-progress}
use jos_lab.Syscall.{back, sys_getenvid}
use jos_lab.Syscall.Ipc.{syscall}
use jos_lab.Trap.{t_syscall, irq_offset, irq_timer}
use jos_lab.Trap.Dispatch.{
  is_dying, with_eax, set_eax, trap_dispatch, resume, after_dispatch, trap_from_user, trap,
}

-- The kernel with the trap frame in environment `c`.
abbrev pub saving : ℕ → Trapframe → Kernel → Kernel
saving c tf k = set_env c (record (k.envs c) { env_tf = tf }) k

saving-same :
    (c : ℕ) (tf : Trapframe) (k : Kernel) (i : ℕ)
    → (((saving c tf k).envs i).env_status ≡ (k.envs i).env_status)
      × (((saving c tf k).envs i).env_cpunum ≡ (k.envs i).env_cpunum)
      × (((saving c tf k).envs i).env_pgdir ≡ (k.envs i).env_pgdir)
saving-same c tf k i = elim (Bool-cases (i == c)) [
  | inl h ↦ rw h (rw (eq_of_eqb i c h) (refl, refl, refl))
  | inr h ↦ rw h (refl, refl, refl)
]

running-live : (s : Status) → is_running s ≡ true → is_dying s ≡ false
running-live s h = ground arith

from_user :
    (key fault_va c : ℕ) (tf : Trapframe) (k : Kernel)
    → tf.tf_cs % 4 ≡ 3
    → k.cur ≡ some c
    → is_running (k.envs c).env_status ≡ true
    → trap key fault_va false tf k
      ≡ (trap_dispatch key fault_va (some c) tf (saving c tf k) >>= after_dispatch)
unfolding trap trap_from_user
from_user key fault_va c tf k user here runs =
    let mode : (tf.tf_cs % 4 == 3) ≡ true = ground arith in
    rw mode (
      ap (λ o. trap_from_user key fault_va o tf k) here
      ∙ rw (running-live (k.envs c).env_status runs) refl)

getenvid :
    (o : Option ℕ) (c : ℕ) (k : Kernel)
    → o ≡ some c
    → (elim o [ none ↦ stop fault | some e ↦ ok (k.envs e).env_id ]) ≡ ok (k.envs c).env_id
getenvid o c k here =
    ap (λ (o : Option ℕ). elim o [ none ↦ stop fault | some e ↦ ok (k.envs e).env_id ]) here

-- What a call other than SYS_cputs and SYS_env_destroy answers an environment with id `id`.
abbrev pub answer : ℕ → ℕ → ℕ → Reply
answer key id call = if call == 1 then ret key else if call == 2 then ret id else err e_inval

calls :
    (key c call a1 a2 : ℕ) (k : Kernel)
    → k.cur ≡ some c
    → call ≢ 0
    → call ≢ 3
    → syscall key call a1 a2 k ≡ ok (back (answer key (k.envs c).env_id call) k)
unfolding syscall sys_getenvid
calls key c call a1 a2 k here n0 n3 = elim (Bool-cases (call == 1)) [
  | inl first ↦ rw (ne→eqb call 0 n0, first) refl
  | inr later ↦ elim (Bool-cases (call == 2)) [
    | inl second ↦ rw (ne→eqb call 0 n0, later, second, getenvid k.cur c k here) refl
    | inr other ↦ rw (ne→eqb call 0 n0, later, other, ne→eqb call 3 n3) refl
  ]
]

-- The end of a trap whose handler returned, in a kernel where `curenv` can go on.
resume_self :
    (c d : ℕ) (k : Kernel)
    → k.cur ≡ some c
    → (k.envs c).env_pgdir ≡ some d
    → is_running (k.envs c).env_status ≡ true
    → (k' : Kernel) × (resume k.cur k ≡ ok (some k'))
      × (k'.envs c ≡ entered (k.envs c) k)
      × ((j : ℕ) → j ≢ c → k'.envs j ≡ k.envs j)
      × (k'.cur ≡ some c)
      × (k'.cr3 ≡ some d)
      × (k'.mem ≡ k.mem)
      × (k' ≡ record k { envs = k'.envs; cur = some c; cr3 = some d })
unfolding resume
resume_self c d k here space runs =
    let (k', goes, mine, others, cur, cr3, mem, frame) = env_run_self c d k here space in
    (k', ap (λ o. resume o k) here ∙ rw (runs, goes) refl, mine, others, cur, cr3, mem, frame)

dispatch-call :
    (key fault_va c : ℕ) (tf : Trapframe) (k k1 : Kernel) (r : Reply)
    → tf.tf_trapno ≡ t_syscall
    → syscall key tf.tf_regs.reg_eax tf.tf_regs.reg_edx tf.tf_regs.reg_ecx k ≡ ok (back r k1)
    → trap_dispatch key fault_va (some c) tf k ≡ ok (returned (set_eax (some c) (in_register r) k1))
unfolding trap_dispatch
dispatch-call key fault_va c tf k k1 r num done = rw (num, done) refl

pub trap-answer :
    (key fault_va c d : ℕ) (tf : Trapframe) (k : Kernel)
    → tf.tf_cs % 4 ≡ 3
    → tf.tf_trapno ≡ t_syscall
    → tf.tf_regs.reg_eax ≢ 0
    → tf.tf_regs.reg_eax ≢ 3
    → k.cur ≡ some c
    → (k.envs c).env_pgdir ≡ some d
    → is_running (k.envs c).env_status ≡ true
    → (k' : Kernel) × (trap key fault_va false tf k ≡ ok (some k'))
      × ((k'.envs c).env_tf
          ≡ with_eax (in_register (answer key (k.envs c).env_id tf.tf_regs.reg_eax)) tf)
      × (is_running (k'.envs c).env_status ≡ true)
      × (k'.cur ≡ some c)
      × (k'.cr3 ≡ some d)
      × (k'.mem ≡ k.mem)
      × ((j : ℕ) → j ≢ c → k'.envs j ≡ k.envs j)
      × (k'.envs c ≡ record (entered (k.envs c) k) {
        env_tf = with_eax (in_register (answer key (k.envs c).env_id tf.tf_regs.reg_eax)) tf;
      })
      × (k' ≡ record k { envs = k'.envs; cur = some c; cr3 = some d })
trap-answer key fault_va c d tf k user num n0 n3 here space runs =
    let k1 : Kernel = saving c tf k in
    let reply : Reply = answer key (k1.envs c).env_id tf.tf_regs.reg_eax in
    let k2 : Kernel = set_eax (some c) (in_register reply) k1 in
    let saved : k1.envs c ≡ record (k.envs c) { env_tf = tf } = rw (eq_self c) refl in
    let id : (k1.envs c).env_id ≡ (k.envs c).env_id = ap (λ (x : Env). x.env_id) saved in
    let at : k2.envs c ≡ record (k.envs c) { env_tf = with_eax (in_register reply) tf } =
      rw (eq_self c) refl in
    let (k', goes, mine, others, cur, cr3, mem, frame) =
      resume_self c d k2 here (ap (λ (x : Env). x.env_pgdir) at ∙ space)
        (ap (λ (x : Env). is_running x.env_status) at ∙ runs) in
    let env = mine ∙ ap (λ x. entered x k2) at in
    let done =
      dispatch-call key fault_va c tf k1 k1 reply num
        (calls key c tf.tf_regs.reg_eax tf.tf_regs.reg_edx tf.tf_regs.reg_ecx k1 here n0 n3) in
    (
      k',
      from_user key fault_va c tf k user here runs ∙ rw done goes,
      ap (λ (x : Env). x.env_tf) env
          ∙ ap (λ n. with_eax (in_register (answer key n tf.tf_regs.reg_eax)) tf) id,
      ap (λ (x : Env). is_running x.env_status) env,
      cur,
      cr3,
      mem,
      λ j ne. others j ne ∙ rw (ne→eqb j c ne) refl,
      env
          ∙ ap
              (λ n. record (entered (k.envs c) k) {
                env_tf = with_eax (in_register (answer key n tf.tf_regs.reg_eax)) tf;
              })
              id,
      frame,
    )

-- A switch that is made leaves the kernel that is entered.
switched : (m : Run Kernel) (k : Kernel) → (do x ← m; ok (some x)) ≡ ok (some k) → m ≡ ok k
switched (ok x) k h = cc
switched (stop e) k h = absurd (ground arith)

run_chosen-frame :
    (o : Option ℕ) (k k' : Kernel) (j : ℕ)
    → run_chosen o k ≡ ok (some k')
    → (k'.envs j).env_tf ≡ (k.envs j).env_tf
unfolding run_chosen
run_chosen-frame none k k' j runs = absurd (ground arith)
run_chosen-frame (some e) k k' j runs = env_run-frame e k k' j (switched (env_run e k) k' runs)

dispatch-clock :
    (key fault_va c : ℕ) (tf : Trapframe) (k : Kernel) (next : Option Kernel)
    → tf.tf_trapno ≡ irq_offset + irq_timer
    → sched_yield k ≡ ok next
    → trap_dispatch key fault_va (some c) tf k ≡ ok (yielded next)
unfolding trap_dispatch
dispatch-clock key fault_va c tf k next num done = rw num (ap (λ m. m >>= λ x. ok (yielded x)) done)

-- A clock interrupt in user mode, with interrupts off, of the running environment `c`, under the
-- conditions of the theorem on `sched_yield` (`c` is the only one marked running on this CPU, every
-- runnable environment has a page directory, `j`, which is not `envs[0]`, is runnable): the CPU
-- goes on in an environment that is `j`, or after which `j` is nearer to its turn, and `c` keeps
-- the registers that it was interrupted with.
pub trap-preempts :
    (key fault_va c j : ℕ) (tf : Trapframe) (k : Kernel)
    → tf.tf_cs % 4 ≡ 3
    → tf.tf_trapno ≡ irq_offset + irq_timer
    → k.cur ≡ some c
    → c < 1024
    → is_running (k.envs c).env_status ≡ true
    → OnlyCurrent k
    → Housed k
    → 0 < j
    → j < 1024
    → waits k.envs j ≡ true
    → (q : ℕ) × (k' : Kernel) × (trap key fault_va false tf k ≡ ok (some k'))
      × Served c j q (saving c tf k) k'
      × ((k'.envs c).env_tf ≡ tf)
unfolding sched_yield
trap-preempts key fault_va c j tf k user num here ch runs only homes jl jh w =
    let k1 : Kernel = saving c tf k in
    let (q, k', served) =
      sched_yield-progress k1 c j here ch
        (λ i r on.
          only i (ap is_running (sym (saving-same c tf k i).0) ∙ r)
            (sym (saving-same c tf k i).1 ∙ on))
        (λ i lt r.
          let (d, at) = homes i lt (ap is_runnable (sym (saving-same c tf k i).0) ∙ r) in
          (d, (saving-same c tf k i).2 ∙ at))
        jl jh (ap is_runnable (saving-same c tf k j).0 ∙ w) in
    (
      q,
      k',
      from_user key fault_va c tf k user here runs
          ∙ rw (dispatch-clock key fault_va c tf k1 (some k') num served.yields) refl,
      served,
      run_chosen-frame (chosen k1) k1 k' c served.yields ∙ rw (eq_self c) refl,
    )
