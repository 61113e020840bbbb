-- ===== src/Examples/Loading.antt =====
-- Loading of a program, in a small kernel with four free pages.
use jos_lab.Base.{
  ℕ, ◌+◌, ◌*◌, ◌/◌, ◌≤◌, ◌<◌, ◌≡◌, ◌⊎◌, inr, zero, suc, refl, some, none, List, [], ◌∷◌, All,
  get_or, ◌==◌, if◌then◌else◌, bit_or, ok, arith,
}
use jos_lab.Mmu.{utop, pte_w, pte_u}
use jos_lab.Pmap.{PageInfo, Mem}
use jos_lab.Pmap.Space.{IsSpace, translate, translate_no_table}
use jos_lab.Pmap.Insert.{pte_of}
use jos_lab.Strings.{Bytes}
use jos_lab.Env.{Kernel}
use jos_lab.Env.Load.{load_icode}
use jos_lab.Env.Program.{headers, OutOf, Present}
use jos_lab.Env.Icode.{stack_page, started, load_icode_lem}
use jos_lab.Examples.Machine.{empty_mem, some_kernel}

abbrev elf : List ℕ
elf =
    0x7f ∷ 0x45 ∷ 0x4c ∷ 0x46 ∷ 1 ∷ 1 ∷ 1 ∷ 0 ∷ 0 ∷ 0 ∷ 0 ∷ 0 ∷ 0 ∷ 0 ∷ 0 ∷ 0 ∷ 2 ∷ 0 ∷ 3 ∷ 0 ∷ 1
    ∷ 0 ∷ 0 ∷ 0 ∷ 0x20 ∷ 0 ∷ 0x80 ∷ 0 ∷ 52 ∷ 0 ∷ 0 ∷ 0 ∷ 0 ∷ 0 ∷ 0 ∷ 0 ∷ 0 ∷ 0 ∷ 0 ∷ 0 ∷ 52 ∷ 0 ∷ 32
    ∷ 0 ∷ 1 ∷ 0 ∷ 0 ∷ 0 ∷ 0 ∷ 0 ∷ 0 ∷ 0 ∷ 1 ∷ 0 ∷ 0 ∷ 0 ∷ 84 ∷ 0 ∷ 0 ∷ 0 ∷ 0x20 ∷ 0 ∷ 0x80 ∷ 0 ∷ 0
    ∷ 0 ∷ 0 ∷ 0 ∷ 4 ∷ 0 ∷ 0 ∷ 0 ∷ 8 ∷ 0 ∷ 0 ∷ 0 ∷ 5 ∷ 0 ∷ 0 ∷ 0 ∷ 0 ∷ 0x10 ∷ 0 ∷ 0 ∷ 0x55 ∷ 0x89
    ∷ 0xe5 ∷ 0xc3 ∷ []

-- One segment of 8 bytes at 0x800020, 4 of them in the file.
abbrev image : Bytes
image i = get_or elf i 0

get_or-below : (xs : List ℕ) → All (λ x. x < 256) xs → (i : ℕ) → get_or xs i 0 < 256
get_or-below [] all i = omega arith
get_or-below (x ∷ xs) (h, all) zero = h
get_or-below (x ∷ xs) (h, all) (suc i) = get_or-below xs all i

-- Pages 2, 3, 6 and 7 are free.
abbrev roomy_pages : ℕ → PageInfo
roomy_pages p = record {
  pp_link = if p == 2 then some 3 else if p == 3 then some 6 else if p == 6 then some 7 else none;
  pp_ref = if p == 1 then 1 else 0;
}

abbrev roomy_mem : Mem
roomy_mem = record empty_mem { pages = roomy_pages }

abbrev roomy_kernel : Kernel
roomy_kernel = record some_kernel { mem = roomy_mem }

roomy-IsSpace : IsSpace roomy_mem 1 (2 ∷ 3 ∷ 6 ∷ 7 ∷ [])
roomy-IsSpace = record {
  small = omega arith;
  free = record {
    chain = (refl, (refl, (refl, (refl, refl))));
    in_range = (omega arith, (omega arith, (omega arith, (omega arith, _))));
    unreferenced = (refl, (refl, (refl, (refl, _))));
    distinct = (refl, (refl, (refl, (refl, _))));
  };
  root = refl;
  exists = λ i h p. ground arith;
  off_root = λ i h p. ground arith;
  in_use = λ i h p. ground arith;
  separate = λ i j h g p q e. ground arith;
}

load_icode_lem_example :
    (m' : Mem) × (left : List ℕ) × (load_icode 0 image roomy_kernel
      ≡ ok (started 0 image m' roomy_kernel))
    × IsSpace m' 1 left
    × Present 1 image m' left (headers image 1 52)
    × ((f : ℕ) × (translate m' 1 stack_page ≡ some (pte_of f (bit_or pte_w pte_u))))
    × ((a : ℕ)
        → a < utop
        → (a / 4096 < stack_page / 4096) ⊎ (stack_page / 4096 + 1 ≤ a / 4096)
        → OutOf a (headers image 1 52)
        → translate m' 1 a ≡ translate roomy_mem 1 a)
load_icode_lem_example =
    load_icode_lem 0 1 image roomy_kernel (2 ∷ 3 ∷ 6 ∷ 7 ∷ []) refl roomy-IsSpace
      (get_or-below elf (omega arith)) refl
      (
        λ load. (
          record { low = omega arith; shorter = omega arith },
          λ p lo hi. translate_no_table roomy_mem 1 (p * 4096) refl,
          _,
        ),
        _,
      )
      (λ load. inr (omega arith), _) (translate_no_table roomy_mem 1 stack_page refl) (omega arith)
