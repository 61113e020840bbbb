-- ===== src/Trap/Idt.antt =====
-- kern/trap.c: the interrupt descriptor table that `trap_init` fills, and the task state segment;
-- the global descriptor table of kern/env.c. The handlers' entry points are assembly: their
-- addresses are an argument.
use jos_lab.Base.{ℕ, ◌+◌, ◌/◌, ◌^◌, bit_or, false, List, [], ◌∷◌, ◌==◌, if◌then◌else◌, update}
use jos_lab.Mmu.{kstacktop}
use jos_lab.Mmu.Descriptor.{Gatedesc, Segdesc, setgate, seg, seg16}
use jos_lab.Trap.{
  t_divide, t_debug, t_nmi, t_brkpt, t_oflow, t_bound, t_illop, t_device, t_dblflt, t_tss, t_segnp,
  t_stack, t_gpflt, t_pgflt, t_fperr, t_align, t_mchk, t_simderr, t_syscall, irq_offset, gd_kt,
  gd_kd, gd_ut, gd_ud, gd_tss0,
}

-- The entry points of kern/trapentry.S.
pub data Routine : Type 0 where
  routine_divide : Routine
  routine_debug : Routine
  routine_nmi : Routine
  routine_brkpt : Routine
  routine_oflow : Routine
  routine_bound : Routine
  routine_illop : Routine
  routine_device : Routine
  routine_dblflt : Routine
  routine_tss : Routine
  routine_segnp : Routine
  routine_stack : Routine
  routine_gpflt : Routine
  routine_pgflt : Routine
  routine_fperr : Routine
  routine_align : Routine
  routine_mchk : Routine
  routine_simderr : Routine
  routine_syscall : Routine
  routine_irq : ℕ → Routine

-- The gates of `trap_init`, one for each use of SETGATE: the vector, its routine and the DPL.
abbrev pub gates : List (ℕ × Routine × ℕ)
gates =
    (t_divide, routine_divide, 0)
    ∷ (t_debug, routine_debug, 0)
    ∷ (t_nmi, routine_nmi, 0)
    ∷ (t_brkpt, routine_brkpt, 3)
    ∷ (t_oflow, routine_oflow, 0)
    ∷ (t_bound, routine_bound, 0)
    ∷ (t_illop, routine_illop, 0)
    ∷ (t_device, routine_device, 0)
    ∷ (t_dblflt, routine_dblflt, 0)
    ∷ (t_tss, routine_tss, 0)
    ∷ (t_segnp, routine_segnp, 0)
    ∷ (t_stack, routine_stack, 0)
    ∷ (t_gpflt, routine_gpflt, 0)
    ∷ (t_pgflt, routine_pgflt, 0)
    ∷ (t_fperr, routine_fperr, 0)
    ∷ (t_align, routine_align, 0)
    ∷ (t_mchk, routine_mchk, 0)
    ∷ (t_simderr, routine_simderr, 0)
    ∷ (t_syscall, routine_syscall, 3)
    ∷ (irq_offset + 0, routine_irq 0, 0)
    ∷ (irq_offset + 1, routine_irq 1, 0)
    ∷ (irq_offset + 2, routine_irq 2, 0)
    ∷ (irq_offset + 3, routine_irq 3, 0)
    ∷ (irq_offset + 4, routine_irq 4, 0)
    ∷ (irq_offset + 5, routine_irq 5, 0)
    ∷ (irq_offset + 6, routine_irq 6, 0)
    ∷ (irq_offset + 7, routine_irq 7, 0)
    ∷ (irq_offset + 8, routine_irq 8, 0)
    ∷ (irq_offset + 9, routine_irq 9, 0)
    ∷ (irq_offset + 10, routine_irq 10, 0)
    ∷ (irq_offset + 11, routine_irq 11, 0)
    ∷ (irq_offset + 12, routine_irq 12, 0)
    ∷ (irq_offset + 13, routine_irq 13, 0)
    ∷ (irq_offset + 14, routine_irq 14, 0)
    ∷ (irq_offset + 15, routine_irq 15, 0)
    ∷ []

unfoldable pub install : (Routine → ℕ) → List (ℕ × Routine × ℕ) → (ℕ → Gatedesc) → ℕ → Gatedesc
install addr [] idt = idt
install addr ((v, r, dpl) ∷ rest) idt =
    install addr rest (update idt v (setgate false gd_kt (addr r) dpl))

unfoldable pub trap_init : (Routine → ℕ) → (ℕ → Gatedesc) → ℕ → Gatedesc
unfolding install
trap_init addr idt = install addr gates idt

-- inc/mmu.h: the task state segment, less its padding.
pub record Taskstate : Type 0 where
  pub ts_link : ℕ
  pub ts_esp0 : ℕ
  pub ts_ss0 : ℕ
  pub ts_esp1 : ℕ
  pub ts_ss1 : ℕ
  pub ts_esp2 : ℕ
  pub ts_ss2 : ℕ
  pub ts_cr3 : ℕ
  pub ts_eip : ℕ
  pub ts_eflags : ℕ
  pub ts_eax : ℕ
  pub ts_ecx : ℕ
  pub ts_edx : ℕ
  pub ts_ebx : ℕ
  pub ts_esp : ℕ
  pub ts_ebp : ℕ
  pub ts_esi : ℕ
  pub ts_edi : ℕ
  pub ts_es : ℕ
  pub ts_cs : ℕ
  pub ts_ss : ℕ
  pub ts_ds : ℕ
  pub ts_fs : ℕ
  pub ts_gs : ℕ
  pub ts_ldt : ℕ
  pub ts_t : ℕ
  pub ts_iomb : ℕ

abbrev pub sta_x : ℕ
sta_x = 0x8

abbrev pub sta_w : ℕ
sta_w = 0x2

abbrev pub sta_r : ℕ
sta_r = 0x2

abbrev pub sts_t32a : ℕ
sts_t32a = 0x9

-- SEG_NULL
abbrev pub seg_null : Segdesc
seg_null = record {
  sd_lim_15_0 = 0;
  sd_base_15_0 = 0;
  sd_base_23_16 = 0;
  sd_type = 0;
  sd_s = 0;
  sd_dpl = 0;
  sd_p = 0;
  sd_lim_19_16 = 0;
  sd_avl = 0;
  sd_rsv1 = 0;
  sd_db = 0;
  sd_g = 0;
  sd_base_31_24 = 0;
}

-- The table as kern/env.c initializes it, by index.
unfoldable pub gdt : ℕ → Segdesc
unfolding seg
gdt i =
    if i == gd_kt / 2 ^ 3
    then seg (bit_or sta_x sta_r) 0 0xffffffff 0
    else if i == gd_kd / 2 ^ 3
    then seg sta_w 0 0xffffffff 0
    else if i == gd_ut / 2 ^ 3
    then seg (bit_or sta_x sta_r) 0 0xffffffff 3
    else if i == gd_ud / 2 ^ 3
    then seg sta_w 0 0xffffffff 3
    else seg_null

-- What the CPU's registers are loaded with: the selector of the task, and the address of the
-- pseudo-descriptor of the interrupt table.
pub record Loaded : Type 0 where
  pub tr : ℕ
  pub idtr : ℕ

-- The one `ts` of the kernel, which stands at `ts_at`; its size is 104 bytes.
unfoldable pub trap_init_percpu :
    ℕ → ℕ → Taskstate → (ℕ → Segdesc) → Taskstate × (ℕ → Segdesc) × Loaded
unfolding seg16
trap_init_percpu ts_at idt_pd ts table = (
  record ts { ts_esp0 = kstacktop; ts_ss0 = gd_kd },
  update table (gd_tss0 / 2 ^ 3) (record (seg16 sts_t32a ts_at 104 0) { sd_s = 0 }),
  record { tr = gd_tss0; idtr = idt_pd },
)
