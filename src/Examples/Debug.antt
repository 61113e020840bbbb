-- ===== src/Examples/Debug.antt =====
-- `debuginfo_eip` and the boot loader, on small tables.
use jos_lab.Base.{
  ℕ, zero, suc, ◌+◌, ◌*◌, ◌/◌, ◌%◌, ◌≤◌, ◌<◌, ◌≡◌, ◌⊎◌, refl, inl, inr, [], ◌∷◌, get_or, ok, arith,
}
use jos_lab.Kernel.{ret}
use jos_lab.Strings.{Bytes}
use jos_lab.Kdebug.Bracket.{Marked}
use jos_lab.Kdebug.Eip.{
  StabData, Eipdebuginfo, unknown, stab_at, n_so, n_fun, string_at, debuginfo_eip,
}
use jos_lab.Kdebug.Functions.{Ordered, Holds, debuginfo_eip_lem}
use jos_lab.Boot.{readseg}
use jos_lab.Boot.Segments.{readseg_lem}
use jos_lab.Examples.Machine.{empty_mem}

-- At address 0: a header, the file at 0xf0100000, and its functions at 0xf0100010 and 0xf0100050,
-- with names at 1 and 3 in the strings behind them.
abbrev image : Bytes
image a =
    get_or
      (0 ∷ 0 ∷ 0 ∷ 0 ∷ 0 ∷ 0 ∷ 0 ∷ 0 ∷ 0 ∷ 0 ∷ 0 ∷ 0 ∷ 0 ∷ 0 ∷ 0 ∷ 0 ∷ 0x64 ∷ 0 ∷ 0 ∷ 0 ∷ 0 ∷ 0
        ∷ 0x10 ∷ 0xf0 ∷ 1 ∷ 0 ∷ 0 ∷ 0 ∷ 0x24 ∷ 0 ∷ 0 ∷ 0 ∷ 0x10 ∷ 0 ∷ 0x10 ∷ 0xf0 ∷ 3 ∷ 0 ∷ 0 ∷ 0
        ∷ 0x24 ∷ 0 ∷ 0 ∷ 0 ∷ 0x50 ∷ 0 ∷ 0x10 ∷ 0xf0 ∷ 0 ∷ 97 ∷ 0 ∷ 98 ∷ 0 ∷ [])
      a 0

abbrev tables : StabData
tables = record { stabs = 0; stab_end = 48; stabstr = 48; stabstr_end = 53 }

file_at : (i : ℕ) → Marked (stab_at image 0) n_so 0 4 i → i ≡ 1
file_at zero (lo, hi, e) = absurd (omega (arith, e))
file_at (suc zero) k = refl
file_at (suc (suc zero)) (lo, hi, e) = absurd (omega (arith, e))
file_at (suc (suc (suc zero))) (lo, hi, e) = absurd (omega (arith, e))
file_at (suc (suc (suc (suc i)))) (lo, hi, e) = absurd (omega (arith, hi))

function_at : (i : ℕ) → Marked (stab_at image 0) n_fun 0 4 i → (i ≡ 2) ⊎ (i ≡ 3)
function_at zero (lo, hi, e) = absurd (omega (arith, e))
function_at (suc zero) (lo, hi, e) = absurd (omega (arith, e))
function_at (suc (suc zero)) k = inl refl
function_at (suc (suc (suc zero))) k = inr refl
function_at (suc (suc (suc (suc i)))) (lo, hi, e) = absurd (omega (arith, hi))

files : Ordered (stab_at image 0) n_so 0 4 0xf0100020
files = record {
  rising = λ i j p q lt. absurd (omega (arith, file_at i p, file_at j q, lt));
  gap = λ i p. rw (file_at i p) (omega arith);
}

functions : Ordered (stab_at image 0) n_fun 0 4 0xf0100020
functions = record {
  rising = λ i j p q lt. elim (function_at i p) [
    | inl e ↦ elim (function_at j q) [
      | inl f ↦ absurd (omega (arith, e, f, lt))
      | inr f ↦ rw (e, f) (omega arith)
    ]
    | inr e ↦ elim (function_at j q) [
      | inl f ↦ absurd (omega (arith, e, f, lt))
      | inr f ↦ absurd (omega (arith, e, f, lt))
    ]
  ];
  gap = λ i p. elim (function_at i p) [ inl e ↦ rw e (omega arith) | inr e ↦ rw e (omega arith) ];
}

debuginfo_eip_lem_example :
    (info : Eipdebuginfo) × (debuginfo_eip tables 1 image 0xf0100020 empty_mem
      ≡ ok ((ret 0, info), empty_mem))
    × (r : ℕ) × (h : ℕ) × (e : ℕ) × Holds (stab_at image 0) n_so 0 4 0xf0100020 1 r
    × Holds (stab_at image 0) n_fun 1 r 0xf0100020 h e
    × (info.eip_fn_addr ≡ (stab_at image 0 h).n_value)
    × (info.eip_fn_name ≡ string_at tables (stab_at image 0) h unknown)
    × (info.eip_line ≡ 0)
debuginfo_eip_lem_example =
    debuginfo_eip_lem tables 1 image 0xf0100020 empty_mem 1 2 (omega arith) (omega arith) refl
      (omega arith) files functions (omega arith) (omega arith, omega arith, refl) (omega arith)
      (λ i k lt. absurd (omega (arith, file_at i k, lt))) (omega arith, omega arith, refl)
      (omega arith)

abbrev disk : ℕ → Bytes
disk s o = s + o

readseg_lem_example :
    (m' : Bytes) × (readseg disk 0x100210 600 528 (λ a. 0) ≡ ok m')
    × ((i : ℕ) → i < 600 → m' (0x100210 + i) ≡ disk ((528 + i) / 512 + 1) ((528 + i) % 512))
    × ((a : ℕ) → (a < 0x100210 / 512 * 512) ⊎ ((0x100210 + 600 + 511) / 512 * 512 ≤ a) → m' a ≡ 0)
readseg_lem_example = readseg_lem disk 0x100210 600 528 (λ a. 0) (omega arith) (omega arith) refl
