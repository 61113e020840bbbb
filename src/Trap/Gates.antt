-- ===== src/Trap/Gates.antt =====
-- The interrupt descriptor table that `trap_init` leaves, against the numbers that the entry points
-- of kern/trapentry.S push.
use mathlib.Core.Path.{subst}
use jos_lab.Base.{
  ℕ, ◌+◌, ◌<◌, ◌≡◌, ◌≢◌, refl, false, true, Bool, ltb, ◌&&◌, ◌||◌, List, [], ◌∷◌, ◌==◌,
  if◌then◌else◌, update, Bool-cases, sym, ◌∙◌, eq_of_eqb, ne→eqb, All, has, inl, inr, ◌⊎◌, ◌↔◌, ◌^◌,
  arith,
}
use jos_lab.Mmu.Descriptor.{Gatedesc, setgate, offset_of, sts_ig32}
use jos_lab.Trap.{
  t_divide, t_debug, t_nmi, t_brkpt, t_oflow, t_bound, t_illop, t_device, t_dblflt, t_tss, t_segnp,
  t_stack, t_gpflt, t_pgflt, t_fperr, t_align, t_mchk, t_simderr, t_syscall, irq_offset, gd_kt,
}
use jos_lab.Trap.Idt.{
  Routine, routine_divide, routine_debug, routine_nmi, routine_brkpt, routine_oflow, routine_bound,
  routine_illop, routine_device, routine_dblflt, routine_tss, routine_segnp, routine_stack,
  routine_gpflt, routine_pgflt, routine_fperr, routine_align, routine_mchk, routine_simderr,
  routine_syscall, routine_irq, install, gates, trap_init,
}

-- kern/trapentry.S: the number that a routine pushes, which becomes `tf_trapno`.
abbrev pub pushes : Routine → ℕ
pushes routine_divide = t_divide
pushes routine_debug = t_debug
pushes routine_nmi = t_nmi
pushes routine_brkpt = t_brkpt
pushes routine_oflow = t_oflow
pushes routine_bound = t_bound
pushes routine_illop = t_illop
pushes routine_device = t_device
pushes routine_dblflt = t_dblflt
pushes routine_tss = t_tss
pushes routine_segnp = t_segnp
pushes routine_stack = t_stack
pushes routine_gpflt = t_gpflt
pushes routine_pgflt = t_pgflt
pushes routine_fperr = t_fperr
pushes routine_align = t_align
pushes routine_mchk = t_mchk
pushes routine_simderr = t_simderr
pushes routine_syscall = t_syscall
pushes (routine_irq n) = irq_offset + n

-- The routines that exist: there are 16 hardware interrupts.
abbrev known : Routine → Bool
known (routine_irq n) = ltb n 16
known r = true

abbrev pub Exists : Routine → Type 0
Exists r = known r ≡ true

-- A present interrupt gate into the kernel's text, to the routine's address; the privilege that
-- software needs to invoke it.
pub record LeadsTo (addr : Routine → ℕ) (r : Routine) (g : Gatedesc) : Type 0 where
  pub present : g.gd_p ≡ 1
  pub masks : g.gd_type ≡ sts_ig32
  pub kernel : g.gd_sel ≡ gd_kt
  pub address : offset_of g ≡ addr r
  pub user_may : (g.gd_dpl ≡ 3) ↔ ((pushes r ≡ t_brkpt) ⊎ (pushes r ≡ t_syscall))

made :
    (addr : Routine → ℕ) (r : Routine)
    → addr r < 2 ^ 32
    → LeadsTo addr r (
        setgate false gd_kt
          (addr r)
          (if (pushes r == t_brkpt) || (pushes r == t_syscall) then 3 else 0))
unfolding setgate offset_of
made addr r h = record {
  present = refl;
  masks = refl;
  kernel = refl;
  address = omega arith;
  user_may = elim (Bool-cases (pushes r == t_brkpt)) [
    | inl e ↦ rw e (ground arith)
    | inr e ↦ elim (Bool-cases (pushes r == t_syscall)) [
      | inl f ↦ rw (e, f) (ground arith)
      | inr f ↦ rw (e, f) (ground arith)
    ]
  ];
}

-- A statement about each number of a list holds of a number that is in it.
All-has : (P : ℕ → Type 0) (n : ℕ) (xs : List ℕ) → All P xs → has n xs ≡ true → P n
All-has P n [] all h = ground arith
All-has P n (x ∷ xs) (p, rest) h = elim (Bool-cases (n == x)) [
  | inl e ↦ subst P (sym (eq_of_eqb n x e)) p
  | inr e ↦ All-has P n xs rest (ground arith)
]

abbrev sixteen : List ℕ
sixteen = 0 ∷ 1 ∷ 2 ∷ 3 ∷ 4 ∷ 5 ∷ 6 ∷ 7 ∷ 8 ∷ 9 ∷ 10 ∷ 11 ∷ 12 ∷ 13 ∷ 14 ∷ 15 ∷ []

module _ (addr : Routine → ℕ) (idt : ℕ → Gatedesc) where
  abbrev Gate : Routine → Type 0
  Gate r =
      trap_init addr idt (pushes r)
      ≡ setgate false gd_kt (addr r)
          (if (pushes r == t_brkpt) || (pushes r == t_syscall) then 3 else 0)

  at : (r : Routine) → Exists r → Gate r
  unfolding trap_init
  at routine_divide h = refl
  at routine_debug h = refl
  at routine_nmi h = refl
  at routine_brkpt h = refl
  at routine_oflow h = refl
  at routine_bound h = refl
  at routine_illop h = refl
  at routine_device h = refl
  at routine_dblflt h = refl
  at routine_tss h = refl
  at routine_segnp h = refl
  at routine_stack h = refl
  at routine_gpflt h = refl
  at routine_pgflt h = refl
  at routine_fperr h = refl
  at routine_align h = refl
  at routine_mchk h = refl
  at routine_simderr h = refl
  at routine_syscall h = refl
  at (routine_irq n) h =
      All-has (λ i. Gate (routine_irq i)) n sixteen
        (
          refl,
          (
            refl,
            (
              refl,
              (
                refl,
                (
                  refl,
                  (
                    refl,
                    (
                      refl,
                      (refl, (refl, (refl, (refl, (refl, (refl, (refl, (refl, (refl, _))))))))),
                    ),
                  ),
                ),
              ),
            ),
          ),
        )
        (ground arith)

  -- A vector with no routine keeps its gate.
  install-off :
      (v : ℕ)
      → ((r : Routine) → Exists r → pushes r ≢ v)
      → (gs : List (ℕ × Routine × ℕ)) → All (λ g. (g.0 ≡ pushes g.1) × Exists g.1) gs
      → (table : ℕ → Gatedesc) → install addr gs table v ≡ table v
  unfolding install
  install-off v free [] all table = refl
  install-off v free ((x, r, dpl) ∷ rest) ((here, exists), all) table =
      install-off v free rest all (update table x (setgate false gd_kt (addr r) dpl))
      ∙ rw (ne→eqb v x (λ e. free r exists (sym (e ∙ here)))) refl

-- The vectors of the table are the numbers that its routines push.
abbrev routed : List (ℕ × Routine × ℕ) → Bool
routed [] = true
routed ((v, r, _) ∷ rest) = ((v == pushes r) && known r) && routed rest

routed-All :
    (gs : List (ℕ × Routine × ℕ)) → routed gs ≡ true → All (λ g. (g.0 ≡ pushes g.1) × Exists g.1) gs
routed-All [] h = _
routed-All ((v, r, dpl) ∷ rest) h = ((ground arith, ground arith), routed-All rest (ground arith))

gates_routed : All (λ g. (g.0 ≡ pushes g.1) × Exists g.1) gates
gates_routed = routed-All gates refl

-- After `trap_init`, whatever the addresses of the routines, which have 32 bits: the gate at the
-- number that a routine pushes is a present interrupt gate into the kernel's text that leads to
-- this routine, and user code may invoke it only for the breakpoint and for system calls. The
-- gate of a number that no routine pushes is as it was.
pub trap_init_lem :
    (addr : Routine → ℕ) (idt : ℕ → Gatedesc)
    → ((r : Routine) → addr r < 2 ^ 32)
    → ((r : Routine) → Exists r → LeadsTo addr r (trap_init addr idt (pushes r)))
      × ((v : ℕ) → ((r : Routine) → Exists r → pushes r ≢ v) → trap_init addr idt v ≡ idt v)
unfolding trap_init
trap_init_lem addr idt words = (
  λ r h. subst (LeadsTo addr r) (sym (at addr idt r h)) (made addr r (words r)),
  λ v free. install-off addr idt v free gates gates_routed idt,
)
