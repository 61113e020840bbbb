-- ===== src/Start.antt =====
-- kern/entrypgdir.c: the page directory and the page table that the kernel starts with. Their
-- initializers are functions of the index; `table` is the physical address of `entry_pgtable`.
use jos_lab.Base.{
  ℕ, ◌+◌, ◌-◌, ◌*◌, ◌/◌, ◌%◌, ◌^◌, ◌<◌, ◌≡◌, inl, inr, refl, ◌∙◌, true, false, bit_or,
  bit_or-mod_two, bit_or-div, bit_or-zero, Option, none, some, ◌==◌, ltb, if◌then◌else◌, Bool-cases,
  arith,
}
use jos_lab.Mmu.{kernbase, pte_p, pte_w, pdx, ptx, is_present, is_writeable}
use jos_lab.Pmap.{Mem}
use jos_lab.Pmap.Space.{translate, translate_no_table, translate_page}

unfoldable pub entry_pgdir : ℕ → ℕ → ℕ
entry_pgdir table i =
    if i == 0 then table + pte_p else if i == kernbase / 2 ^ 22 then table + pte_p + pte_w else 0

-- The 1024 entries.
unfoldable pub entry_pgtable : ℕ → ℕ
entry_pgtable i = bit_or (bit_or (i * 0x1000) pte_p) pte_w

table_entry : (i : ℕ) → i < 1024 → (entry_pgtable i % 2 ≡ 1) × (entry_pgtable i / 4096 ≡ i)
unfolding entry_pgtable
table_entry i h = (
  omega
      (arith, bit_or-mod_two (bit_or (i * 0x1000) pte_p) pte_w, bit_or-mod_two (i * 0x1000) pte_p),
  omega (
    arith,
    bit_or-div 12 (bit_or (i * 0x1000) pte_p) pte_w,
    bit_or-div 12 (i * 0x1000) pte_p,
    bit_or-zero (bit_or (i * 0x1000) pte_p / 4096),
    bit_or-zero (i * 0x1000 / 4096),
  ),
)

-- A memory that holds the two tables, the directory in frame `d` and the page table in frame `t`.
pub record Loaded (m : Mem) (d t : ℕ) : Type 0 where
  pub dir : (i : ℕ) → i < 1024 → m.word d i ≡ entry_pgdir (t * 4096) i
  pub table : (i : ℕ) → i < 1024 → m.word t i ≡ entry_pgtable i

-- The entry that the MMU finds for an address: of the page at its offset, if the address is in
-- the first 4 MB or in the 4 MB from KERNBASE on.
abbrev pub window : ℕ → Option ℕ
window va =
    if ltb va (2 ^ 22)
    then some (va / 4096)
    else if ltb va kernbase
    then none
    else if ltb va (kernbase + 2 ^ 22)
    then some ((va - kernbase) / 4096)
    else none

-- The entry of the page that `window` names.
abbrev pub entry_of : Option ℕ → Option ℕ
entry_of none = none
entry_of (some p) = some (entry_pgtable p)

-- With the two tables in memory, for every 32-bit address: the MMU maps the first 4 MB of the
-- address space and the 4 MB from KERNBASE on to the first 4 MB of memory, page by page, and
-- nothing else; the directory allows writes in the second window only.
pub entry_pgdir_lem :
    (m : Mem) (d t va : ℕ)
    → t < 2 ^ 20
    → Loaded m d t
    → va < 2 ^ 32
    → (translate m d va ≡ entry_of (window va))
      × (is_writeable (m.word d 0) ≡ false)
      × (is_writeable (m.word d 960) ≡ true)
unfolding entry_pgdir
entry_pgdir_lem m d t va small h word =
    let first = h.dir 0 (omega arith) in
    let second = h.dir 960 (omega arith) in
    let here : ptx va < 1024 = omega arith in
    let (present, frame) = table_entry (ptx va) here in
    let there : is_present (m.word t (ptx va)) ≡ true = rw (h.table (ptx va) here) (ground arith) in
    (
      elim (Bool-cases (ltb va (2 ^ 22))) [
        | inl low ↦
            let i : pdx va ≡ 0 = ground arith in
            let p : ptx va ≡ va / 4096 = ground arith in
            translate_page m d va t (rw (i, first) (ground arith)) (rw (i, first) (omega arith))
              there
            ∙ rw (low, h.table (ptx va) here, p) refl
        | inr up ↦ elim (Bool-cases (ltb va kernbase)) [
          | inl between ↦
              let i = h.dir (pdx va) (omega arith) in
              translate_no_table m d va (rw i (ground arith)) ∙ rw (up, between) refl
          | inr above ↦ elim (Bool-cases (ltb va (kernbase + 2 ^ 22))) [
            | inl in_window ↦
                let i : pdx va ≡ 960 = ground arith in
                let p : ptx va ≡ (va - kernbase) / 4096 = ground arith in
                translate_page m d va t (rw (i, second) (ground arith))
                  (rw (i, second) (omega arith)) there
                ∙ rw (up, above, in_window, h.table (ptx va) here, p) refl
            | inr beyond ↦
                let i = h.dir (pdx va) (omega arith) in
                translate_no_table m d va (rw i (ground arith)) ∙ rw (up, above, beyond) refl
          ]
        ]
      ],
      rw first (ground arith),
      rw second (ground arith),
    )
