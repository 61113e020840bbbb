-- ===== src/Examples/Traps.antt =====
-- Traps and the search in the symbol table, on concrete states.
use jos_lab.Base.{
  ℕ, ◌+◌, ◌*◌, ◌%◌, ◌^◌, ◌≡◌, ◌≢◌, refl, false, some, arith, ◌==◌, if◌then◌else◌, ok,
}
use jos_lab.Mmu.Descriptor.{Gatedesc}
use jos_lab.Pmap.{Mem}
use jos_lab.Env.{Trapframe, Kernel}
use jos_lab.Sched.Progress.{Served}
use jos_lab.Kdebug.{Stab, stab_binsearch}
use jos_lab.Kdebug.Region.{Region, stab_binsearch_lem, stab_binsearch_returns}
use jos_lab.Trap.Idt.{Routine, trap_init}
use jos_lab.Trap.Gates.{Exists, LeadsTo, pushes, trap_init_lem}
use jos_lab.Trap.Dispatch.{trap}
use jos_lab.Trap.Return.{saving, trap-preempts}
use jos_lab.Examples.Machine.{
  empty_mem, blank_regs, blank_frame, some_envs, some_kernel, some-OnlyCurrent, some-Housed,
}

-- Stabs of type 100 at 0, 2 and 5, at 16 times their index.
abbrev some_stabs : ℕ → Stab
some_stabs i = record {
  n_strx = i;
  n_type = if i == 0 then 100 else if i == 2 then 100 else if i == 5 then 100 else 36;
  n_other = 0;
  n_desc = 0;
  n_value = 16 * i;
}

stab_binsearch_lem_example :
    (l : ℕ) × (r : ℕ) × (stab_binsearch some_stabs 0 7 100 40 ≡ ok (l, r))
    × Region some_stabs 100 0 7 40 l r
stab_binsearch_lem_example =
    stab_binsearch_lem some_stabs 100 0 7 40 (λ i j a b lt. omega (arith, lt))
      (λ i a e. omega (arith, e)) (omega arith)

stab_binsearch_returns_example :
    (l : ℕ) × (r : ℕ) × (stab_binsearch some_stabs 0 7 100 40 ≡ ok (l, r))
stab_binsearch_returns_example = stab_binsearch_returns some_stabs 0 7 100 40

stab_binsearch_run : stab_binsearch some_stabs 0 7 100 40 ≡ ok (3, 5)
unfolding stab_binsearch
stab_binsearch_run = refl

abbrev some_addr : Routine → ℕ
some_addr r = (0xf0103000 + 16 * pushes r) % 2 ^ 32

abbrev empty_gate : Gatedesc
empty_gate = record {
  gd_off_15_0 = 0;
  gd_sel = 0;
  gd_args = 0;
  gd_rsv1 = 0;
  gd_type = 0;
  gd_s = 0;
  gd_dpl = 0;
  gd_p = 0;
  gd_off_31_16 = 0;
}

trap_init_lem_example :
    ((r : Routine)
      → Exists r
      → LeadsTo some_addr r (trap_init some_addr (λ v. empty_gate) (pushes r)))
    × ((v : ℕ)
        → ((r : Routine) → Exists r → pushes r ≢ v)
        → trap_init some_addr (λ v. empty_gate) v ≡ empty_gate)
trap_init_lem_example = trap_init_lem some_addr (λ v. empty_gate) (λ r. omega arith)

-- The exception stack of environment 0 is page 5, by way of table 4.
abbrev stack_mem : Mem
stack_mem = record empty_mem {
  word = λ f j.
      if f == 1
      then (if j == 954 then 4 * 4096 + 7 else 0)
      else if f == 4
      then (if j == 1023 then 5 * 4096 + 7 else 0)
      else 0;
}

abbrev upcall_kernel : Kernel
upcall_kernel = record some_kernel {
  mem = stack_mem;
  envs = λ i. record (some_envs i) { env_pgfault_upcall = 0x800100 };
}

-- A trap frame of user mode.
abbrev pub user_trap : ℕ → ℕ → Trapframe
user_trap num call = record blank_frame {
  tf_regs = record blank_regs { reg_eax = call };
  tf_trapno = num;
  tf_cs = 0x1b;
  tf_esp = 0xeebfdf80;
}

trap-preempts_example :
    (q : ℕ) × (k' : Kernel) × (trap 0 0 false (user_trap 32 9) some_kernel ≡ ok (some k'))
    × Served 0 2 q (saving 0 (user_trap 32 9) some_kernel) k'
    × ((k'.envs 0).env_tf ≡ user_trap 32 9)
trap-preempts_example =
    trap-preempts 0 0 0 2 (user_trap 32 9) some_kernel refl refl refl (omega arith) refl
      some-OnlyCurrent some-Housed (omega arith) (omega arith) refl
