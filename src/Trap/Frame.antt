-- ===== src/Trap/Frame.antt =====
-- The frame that `upcall` of kern/trap.c pushes, a `struct UTrapframe` of inc/trap.h, in bytes.
use jos_lab.Base.{ℕ, ◌+◌, ◌^◌, ◌<◌, ◌≡◌, refl, arith}
use jos_lab.Pmap.{Mem}
use jos_lab.Trap.Fault.{UTrapframe, fields, utf_size}
use jos_lab.Trap.Bytes.{read_word}
use jos_lab.Trap.Stores.{Inside, Apart, apart, apart-Apart, stored, stored-reads}

-- The words of a `UTrapframe` at byte `o` of frame `f`, as inc/trap.h lays it out.
pub record Pushed (u : UTrapframe) (f o : ℕ) (m : Mem) : Type 0 where
  pub fault_va : read_word f (o + 0) m ≡ u.utf_fault_va
  pub error : read_word f (o + 4) m ≡ u.utf_err
  pub edi : read_word f (o + 8) m ≡ u.utf_regs.reg_edi
  pub esi : read_word f (o + 12) m ≡ u.utf_regs.reg_esi
  pub ebp : read_word f (o + 16) m ≡ u.utf_regs.reg_ebp
  pub oesp : read_word f (o + 20) m ≡ u.utf_regs.reg_oesp
  pub ebx : read_word f (o + 24) m ≡ u.utf_regs.reg_ebx
  pub edx : read_word f (o + 28) m ≡ u.utf_regs.reg_edx
  pub ecx : read_word f (o + 32) m ≡ u.utf_regs.reg_ecx
  pub eax : read_word f (o + 36) m ≡ u.utf_regs.reg_eax
  pub eip : read_word f (o + 40) m ≡ u.utf_eip
  pub eflags : read_word f (o + 44) m ≡ u.utf_eflags
  pub esp : read_word f (o + 48) m ≡ u.utf_esp

-- All registers have 32 bits.
pub record IsWords (u : UTrapframe) : Type 0 where
  pub fault_va : u.utf_fault_va < 2 ^ 32
  pub error : u.utf_err < 2 ^ 32
  pub edi : u.utf_regs.reg_edi < 2 ^ 32
  pub esi : u.utf_regs.reg_esi < 2 ^ 32
  pub ebp : u.utf_regs.reg_ebp < 2 ^ 32
  pub oesp : u.utf_regs.reg_oesp < 2 ^ 32
  pub ebx : u.utf_regs.reg_ebx < 2 ^ 32
  pub edx : u.utf_regs.reg_edx < 2 ^ 32
  pub ecx : u.utf_regs.reg_ecx < 2 ^ 32
  pub eax : u.utf_regs.reg_eax < 2 ^ 32
  pub eip : u.utf_eip < 2 ^ 32
  pub eflags : u.utf_eflags < 2 ^ 32
  pub esp : u.utf_esp < 2 ^ 32

module _ (u : UTrapframe) where
  pub fields-Inside : IsWords u → Inside utf_size (fields u)
  unfolding fields
  fields-Inside w = (
    (omega arith, w.eflags),
    (
      (omega arith, w.eip),
      (
        (omega arith, w.error),
        (
          (omega arith, w.esp),
          (
            (omega arith, w.fault_va),
            (
              (omega arith, w.edi),
              (
                (omega arith, w.esi),
                (
                  (omega arith, w.ebp),
                  (
                    (omega arith, w.oesp),
                    (
                      (omega arith, w.ebx),
                      ((omega arith, w.edx), ((omega arith, w.ecx), ((omega arith, w.eax), _))),
                    ),
                  ),
                ),
              ),
            ),
          ),
        ),
      ),
    ),
  )

  fields-Apart : Apart (fields u)
  unfolding fields apart
  fields-Apart = apart-Apart (fields u) refl

  pub pushed : IsWords u → (f o : ℕ) (m : Mem) → Pushed u f o (stored f o (fields u) m)
  unfolding fields
  pushed w f o m =
      let r = stored-reads f o utf_size (fields u) m (fields-Inside w) fields-Apart in
      record {
        fault_va = r.1.1.1.1.0;
        error = r.1.1.0;
        edi = r.1.1.1.1.1.0;
        esi = r.1.1.1.1.1.1.0;
        ebp = r.1.1.1.1.1.1.1.0;
        oesp = r.1.1.1.1.1.1.1.1.0;
        ebx = r.1.1.1.1.1.1.1.1.1.0;
        edx = r.1.1.1.1.1.1.1.1.1.1.0;
        ecx = r.1.1.1.1.1.1.1.1.1.1.1.0;
        eax = r.1.1.1.1.1.1.1.1.1.1.1.1.0;
        eip = r.1.0;
        eflags = r.0;
        esp = r.1.1.1.0;
      }
