-- ===== src/Trap/Fault.antt =====
-- `page_fault_handler` of kern/trap.c, and its stores through the page tables of the CPU. User
-- memory is written byte by byte, since the user's stack pointer need not be aligned.
use jos_lab.Base.{
  ℕ, ◌+◌, ◌-◌, ◌*◌, ◌/◌, ◌%◌, bit_or, ◌&&◌, Option, none, some, List, [], ◌∷◌, ◌==◌, ltb, leb,
  if◌then◌else◌, Run, ok, stop, panic, fault, ◌>>=◌,
}
use jos_lab.Mmu.{is_writeable, word_mod, pgsize, uxstacktop, pte_u, pte_w}
use jos_lab.Pmap.{Mem, store}
use jos_lab.Pmap.Space.{translate}
use jos_lab.Env.{PushRegs, Trapframe, Env, Kernel, set_env, set_mem, env_run}
use jos_lab.Env.Free.{Destroyed, returned, yielded, env_destroy}
use jos_lab.Syscall.{on_space}
use jos_lab.Syscall.Ipc.{user_mem_assert}

pub record UTrapframe : Type 0 where
  pub utf_fault_va : ℕ
  pub utf_err : ℕ
  pub utf_regs : PushRegs
  pub utf_eip : ℕ
  pub utf_eflags : ℕ
  pub utf_esp : ℕ

-- What byte `i` of a word counts for.
abbrev pub unit : ℕ → ℕ
unit i = if i == 0 then 1 else if i == 1 then 256 else if i == 2 then 65536 else 16777216

abbrev pub byte_in : ℕ → ℕ → ℕ
byte_in i w = w / unit i % 256

abbrev pub with_byte : ℕ → ℕ → ℕ → ℕ
with_byte i b w = w - byte_in i w * unit i + b * unit i

-- Byte `o` of frame `f`.
unfoldable pub set_byte : ℕ → ℕ → ℕ → Mem → Mem
set_byte f o b m = store (f, o / 4) (with_byte (o % 4) b (m.word f (o / 4))) m

unfoldable pub put_at : Option ℕ → ℕ → ℕ → Mem → Run Mem
unfolding set_byte
put_at none va b m = stop fault
put_at (some pte) va b m =
    if is_writeable pte then ok (set_byte (pte / 4096) (va % 4096) b m) else stop fault

-- A store to `va` in the address space `d`. The kernel runs with CR0_WP, so that a page that is not
-- writable faults for it too; `pgdir_walk` makes the entries of a directory writable.
unfoldable pub put_byte : ℕ → ℕ → ℕ → Mem → Run Mem
unfolding put_at translate
put_byte d va b m = put_at (translate m d va) va b m

unfoldable pub put_word : ℕ → ℕ → ℕ → Mem → Run Mem
unfolding put_byte
put_word d va v m = do
  first ← put_byte d va (v % 256) m
  second ← put_byte d ((va + 1) % word_mod) (v / 256 % 256) first
  third ← put_byte d ((va + 2) % word_mod) (v / 65536 % 256) second
  put_byte d ((va + 3) % word_mod) (v / 16777216 % 256) third

unfoldable pub put_fields : ℕ → ℕ → List (ℕ × ℕ) → Mem → Run Mem
unfolding put_word
put_fields d va [] m = ok m
put_fields d va ((o, v) ∷ rest) m = do
  written ← put_word d ((va + o) % word_mod) v m
  put_fields d va rest written

-- The stores to the fields of a `UTrapframe`, with their offsets, in the order of the source.
unfoldable pub fields : UTrapframe → List (ℕ × ℕ)
fields u =
    (44, u.utf_eflags)
    ∷ (40, u.utf_eip)
    ∷ (4, u.utf_err)
    ∷ (48, u.utf_esp)
    ∷ (0, u.utf_fault_va)
    ∷ (8, u.utf_regs.reg_edi)
    ∷ (12, u.utf_regs.reg_esi)
    ∷ (16, u.utf_regs.reg_ebp)
    ∷ (20, u.utf_regs.reg_oesp)
    ∷ (24, u.utf_regs.reg_ebx)
    ∷ (28, u.utf_regs.reg_edx)
    ∷ (32, u.utf_regs.reg_ecx)
    ∷ (36, u.utf_regs.reg_eax)
    ∷ []

abbrev pub utf_size : ℕ
utf_size = 52

-- Where the frame goes: below the top of the exception stack, or below the stack pointer with a
-- word left free if the fault came on the exception stack.
unfoldable pub utf_at : Trapframe → ℕ
utf_at tf =
    if leb (uxstacktop - pgsize) tf.tf_esp && ltb tf.tf_esp uxstacktop
    then (tf.tf_esp + word_mod - utf_size - 4) % word_mod
    else uxstacktop - utf_size

abbrev pub user_frame_of : ℕ → Trapframe → UTrapframe
user_frame_of fault_va tf = record {
  utf_fault_va = fault_va;
  utf_err = tf.tf_err;
  utf_regs = tf.tf_regs;
  utf_eip = tf.tf_eip;
  utf_eflags = tf.tf_eflags;
  utf_esp = tf.tf_esp;
}

-- `curenv` with its next instruction and stack.
abbrev pub redirected : ℕ → ℕ → Env → Env
redirected eip esp e = record e { env_tf = record (e.env_tf) { tf_eip = eip; tf_esp = esp } }

-- The stores and the switch, in the address space `d` that the CPU uses.
unfoldable pub upcall : ℕ → ℕ → Trapframe → Kernel → ℕ → Run Destroyed
unfolding put_fields fields utf_at env_run
upcall c fault_va tf k d = do
  m ← put_fields d (utf_at tf) (fields (user_frame_of fault_va tf)) k.mem
  running ←
      env_run c
        (set_env c (redirected (k.envs c).env_pgfault_upcall (utf_at tf) (k.envs c)) (set_mem m k))
  ok (yielded (some running))

-- `tf` is `&curenv->env_tf` here, of environment `c`; `fault_va` is CR2.
unfoldable pub fault_in : ℕ → ℕ → Trapframe → Kernel → Run Destroyed
unfolding upcall user_mem_assert env_destroy utf_at
fault_in c fault_va tf k = if (k.envs c).env_pgfault_upcall == 0 then env_destroy c k else (do
  checked ← user_mem_assert c (utf_at tf) utf_size (bit_or pte_u pte_w) k
  (elim checked [
    | yielded next ↦ ok (yielded next)
    | returned k' ↦ on_space (upcall c fault_va tf k') k'.cr3
  ]))

unfoldable pub page_fault_handler : ℕ → Trapframe → Kernel → Run Destroyed
unfolding fault_in
page_fault_handler fault_va tf k =
    if tf.tf_cs % 4 == 0
    then stop panic
    else elim (k.cur) [ none ↦ stop fault | some c ↦ fault_in c fault_va tf k ]
