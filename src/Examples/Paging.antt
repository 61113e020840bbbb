-- ===== src/Examples/Paging.antt =====
-- Page allocation, page tables and address arithmetic on the small machine.
use mathlib.Core.Path.{subst}
use jos_lab.Base.{
  ℕ, ◌+◌, ◌*◌, ◌/◌, ◌≡◌, ◌⊎◌, refl, false, none, some, List, [], ◌∷◌, arith, ok, bit_or,
}
use jos_lab.Mmu.{pdx, is_present, pte_u, pte_p}
use jos_lab.Kernel.{ret, err, e_no_mem}
use jos_lab.Pmap.{Mem, page_remove, page_insert}
use jos_lab.Pmap.Space.{translate}
use jos_lab.Pmap.Lookup.{IsData, some-inj}
use jos_lab.Pmap.Remove.{Unmapped, page_remove_lem}
use jos_lab.Pmap.Insert.{Inserted, page_insert_lem}
use jos_lab.Pmap.User.{Checked, user_mem_check, user_mem_check_lem, user_mem_check_wraps}
use jos_lab.Examples.Machine.{empty_mem, mapped_mem, mapped-IsSpace, five-IsData}

user_mem_check_lem_example :
    Checked mapped_mem 1
      (bit_or (bit_or 4 pte_u) pte_p)
      (0x1100 + 50)
      0x1100
      (user_mem_check 1 0x1100 50 4 mapped_mem)
user_mem_check_lem_example =
    user_mem_check_lem mapped_mem 1 0x1100 50 4 (λ i h p. ground arith) (omega arith)

user_mem_check_wraps_example :
    user_mem_check 1 0xF0000000 0x10000000 4 empty_mem ≡ ok (ret 0, empty_mem)
user_mem_check_wraps_example =
    user_mem_check_wraps empty_mem 1 0xF0000000 0x10000000 4 (omega arith) (omega arith)
      (omega arith)

abbrev two_free : List ℕ
two_free = 2 ∷ 3 ∷ []

-- What is mapped at 0x1000 is page 5.
five_there : (w : ℕ) → translate mapped_mem 1 0x1000 ≡ some w → IsData mapped_mem 1 (w / 4096)
unfolding translate
five_there w e =
    let same : 5 * 4096 + 5 ≡ w = some-inj (5 * 4096 + 5) w e in
    subst (λ x. IsData mapped_mem 1 (x / 4096)) same five-IsData

page_remove_lem_example :
    (m' : Mem) × (page_remove none 1 0x1000 mapped_mem ≡ ok m')
    × (((translate mapped_mem 1 0x1000 ≡ none) × (m' ≡ mapped_mem))
        ⊎ ((w : ℕ) × (translate mapped_mem 1 0x1000 ≡ some w)
            × Unmapped 1 0x1000 (w / 4096) mapped_mem two_free m'))
page_remove_lem_example =
    page_remove_lem none 1 0x1000 mapped_mem two_free mapped-IsSpace (omega arith) five_there

page_insert_lem_example :
    (is_present (mapped_mem.word 1 (pdx 0x1000)) ≡ false)
      × (two_free ≡ [])
      × (page_insert none 1 7 0x1000 6 mapped_mem ≡ ok (err e_no_mem, mapped_mem))
    ⊎ ((m' : Mem) × (page_insert none 1 7 0x1000 6 mapped_mem ≡ ok (ret 0, m'))
        × Inserted 1 7 0x1000 6 mapped_mem two_free m')
page_insert_lem_example =
    page_insert_lem none 1 7 0x1000 6 mapped_mem two_free mapped-IsSpace (omega arith) (omega arith)
      (omega arith) refl (omega arith) five_there

-- A machine of 1024 pages before its free list is set up.
abbrev bare_mem : Mem
bare_mem = record empty_mem { npages = 1024; page_free_list = none }
