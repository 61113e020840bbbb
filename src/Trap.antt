-- ===== src/Trap.antt =====
-- inc/trap.h and kern/trap.c: the numbers of traps and interrupts, the selectors of inc/memlayout.h
-- and the names that kern/trap.c gives to traps.
pub mod Idt
pub mod Gates
pub mod Fault
pub mod Bytes
pub mod Stores
pub mod Frame
pub mod Upcall
pub mod Dispatch
pub mod Return
use Prim.Native.String.{String}
use jos_lab.Base.{ℕ, zero, suc, ◌+◌, ◌&&◌, List, [], ◌∷◌, ◌==◌, ltb, leb, if◌then◌else◌}

abbrev pub t_divide : ℕ
t_divide = 0

abbrev pub t_debug : ℕ
t_debug = 1

abbrev pub t_nmi : ℕ
t_nmi = 2

abbrev pub t_brkpt : ℕ
t_brkpt = 3

abbrev pub t_oflow : ℕ
t_oflow = 4

abbrev pub t_bound : ℕ
t_bound = 5

abbrev pub t_illop : ℕ
t_illop = 6

abbrev pub t_device : ℕ
t_device = 7

abbrev pub t_dblflt : ℕ
t_dblflt = 8

abbrev pub t_tss : ℕ
t_tss = 10

abbrev pub t_segnp : ℕ
t_segnp = 11

abbrev pub t_stack : ℕ
t_stack = 12

abbrev pub t_gpflt : ℕ
t_gpflt = 13

abbrev pub t_pgflt : ℕ
t_pgflt = 14

abbrev pub t_fperr : ℕ
t_fperr = 16

abbrev pub t_align : ℕ
t_align = 17

abbrev pub t_mchk : ℕ
t_mchk = 18

abbrev pub t_simderr : ℕ
t_simderr = 19

abbrev pub t_syscall : ℕ
t_syscall = 48

abbrev pub irq_offset : ℕ
irq_offset = 32

abbrev pub irq_timer : ℕ
irq_timer = 0

abbrev pub irq_spurious : ℕ
irq_spurious = 7

abbrev pub gd_kt : ℕ
gd_kt = 0x08

abbrev pub gd_kd : ℕ
gd_kd = 0x10

abbrev pub gd_ut : ℕ
gd_ut = 0x18

abbrev pub gd_ud : ℕ
gd_ud = 0x20

abbrev pub gd_tss0 : ℕ
gd_tss0 = 0x28

excnames : List String
excnames =
    "Divide error" ∷ "Debug" ∷ "Non-Maskable Interrupt" ∷ "Breakpoint" ∷ "Overflow"
    ∷ "BOUND Range Exceeded" ∷ "Invalid Opcode" ∷ "Device Not Available" ∷ "Double Fault"
    ∷ "Coprocessor Segment Overrun" ∷ "Invalid TSS" ∷ "Segment Not Present" ∷ "Stack Fault"
    ∷ "General Protection" ∷ "Page Fault" ∷ "(unknown trap)" ∷ "x87 FPU Floating-Point Error"
    ∷ "Alignment Check" ∷ "Machine-Check" ∷ "SIMD Floating-Point Exception" ∷ []

nth_name : List String → ℕ → String → String
nth_name [] i d = d
nth_name (x ∷ xs) zero d = x
nth_name (x ∷ xs) (suc i) d = nth_name xs i d

-- A negative `trapno` is compared as a number from 2 ^ 31 on.
unfoldable pub trapname : ℕ → String
unfolding excnames nth_name
trapname trapno =
    if ltb trapno 20
    then nth_name excnames trapno ""
    else if trapno == t_syscall
    then "System call"
    else if leb irq_offset trapno && ltb trapno (irq_offset + 16)
    then "Hardware Interrupt"
    else "(unknown trap)"
