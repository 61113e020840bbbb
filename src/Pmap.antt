-- ===== src/Pmap.antt =====
-- kern/pmap.c and kern/pmap.h: physical pages, their free list and reference counts, and the
-- two-level page tables. A page is named by its index in `pages`, which is its frame number.
-- Physical memory is read and written by 32-bit words: `word f i` is word `i` of frame `f`.
-- A kernel pointer that `KADDR` gives is the frame that it points to, and a `pte_t *` a frame and
-- a word in it; the checks of `KADDR` and `pa2page` against `npages` are kept, and panic.
pub mod Free
pub mod Space
pub mod Grown
pub mod Walk
pub mod Entry
pub mod Lookup
pub mod Remove
pub mod Displace
pub mod Insert
pub mod User
pub mod Boot
pub mod Region
pub mod Overlay
pub mod Init
use jos_lab.Base.{
  ℕ, ◌+◌, ◌*◌, ◌%◌, ◌^◌, bit_or, Bool, true, false, not, ◌&&◌, Option, none, some, List, ◌∷◌, ◌==◌,
  leb, if◌then◌else◌, update, Run, ok, stop, panic, ◌>>=◌,
}
use jos_lab.Mmu.{word_mod, pgnum, pdx, ptx, pte_p, pte_w, pte_u, pte_addr, is_present}
use jos_lab.Kernel.{Reply, ret, err, e_no_mem}

-- `pp_ref` is a `uint16_t`.
pub record PageInfo : Type 0 where
  pub pp_link : Option ℕ
  pub pp_ref : ℕ

-- The state behind the functions. `invlpg` lists the addresses whose TLB entries were flushed,
-- the latest first; the last three fields are the static variables of `boot_alloc`,
-- `mmio_map_region` and `user_mem_check`.
pub record Mem : Type 0 where
  pub npages : ℕ
  pub pages : ℕ → PageInfo
  pub page_free_list : Option ℕ
  pub word : ℕ → ℕ → ℕ
  pub invlpg : List ℕ
  pub nextfree : ℕ
  pub mmio_base : ℕ
  pub user_mem_check_addr : ℕ

abbrev pub PtePtr : Type 0
PtePtr = ℕ × ℕ

abbrev pub load : PtePtr → Mem → ℕ
load (f, i) m = m.word f i

abbrev pub store : PtePtr → ℕ → Mem → Mem
store (f, i) v m = record m { word = λ g j. if (g == f) && (j == i) then v else m.word g j }

abbrev pub set_ref : ℕ → ℕ → Mem → Mem
set_ref p n m = record m { pages = update m.pages p (record (m.pages p) { pp_ref = n }) }

-- kern/pmap.h

abbrev pub page2pa : ℕ → ℕ
page2pa p = p * 2 ^ 12 % word_mod

unfoldable pub pa2page : Mem → ℕ → Run ℕ
pa2page m pa = if leb m.npages (pgnum pa) then stop panic else ok (pgnum pa)

-- The frame behind `pa + KERNBASE`.
unfoldable pub kaddr : Mem → ℕ → Run ℕ
kaddr m pa = if leb m.npages (pgnum pa) then stop panic else ok (pgnum pa)

unfoldable pub page2kva : Mem → ℕ → Run ℕ
unfolding kaddr
page2kva m p = kaddr m (page2pa p)

abbrev pub alloc_zero : ℕ
alloc_zero = 1

-- kern/pmap.c

-- memset(page, 0, PGSIZE)
abbrev pub clear_page : ℕ → Mem → Mem
clear_page f m = record m { word = λ g j. if g == f then 0 else m.word g j }

unfoldable pub page_alloc : ℕ → Mem → Run (Option ℕ × Mem)
unfolding page2kva
page_alloc alloc_flags m = elim (m.page_free_list) [
  | none ↦ ok (none, m)
  | some p ↦
      let rest = record m { page_free_list = (m.pages p).pp_link } in
      if alloc_flags % 2 == 1
      then (do q ← page2kva rest p; ok (some p, clear_page q rest))
      else ok (some p, rest)
]

unfoldable pub page_free : ℕ → Mem → Mem
page_free pp m =
    if (m.pages pp).pp_ref == 0
    then record m {
      pages = update m.pages pp (record (m.pages pp) { pp_link = m.page_free_list });
      page_free_list = some pp;
    }
    else m

unfoldable pub page_decref : ℕ → Mem → Mem
page_decref pp m =
    let n = ((m.pages pp).pp_ref + 65535) % 65536 in
    if n == 0 then page_free pp (set_ref pp n m) else set_ref pp n m

-- What `pgdir_walk` does with the page that it allocated for a table.
unfoldable pub new_table : ℕ → ℕ → Option ℕ × Mem → Run (Option PtePtr × Mem)
unfolding page2kva
new_table pgdir va (none, m) = ok (none, m)
new_table pgdir va (some temp, m) = do
  pgtab ← page2kva (set_ref temp 1 m) temp
  ok (
    some (pgtab, ptx va),
    store (pgdir, pdx va) (bit_or (bit_or (bit_or (page2pa temp) pte_p) pte_u) pte_w)
        (set_ref temp 1 m),
  )

unfoldable pub pgdir_walk : ℕ → ℕ → Bool → Mem → Run (Option PtePtr × Mem)
unfolding kaddr page_alloc new_table
pgdir_walk pgdir va create m =
    let pde = m.word pgdir (pdx va) in
    if is_present pde
    then (do pgtab ← kaddr m (pte_addr pde); ok (some (pgtab, ptx va), m))
    else if not create
    then ok (none, m)
    else page_alloc alloc_zero m >>= new_table pgdir va

-- The page, and what is stored through `pte_store` (`none` if nothing is).
unfoldable pub page_lookup : ℕ → ℕ → Mem → Run (Option ℕ × Option PtePtr)
unfolding pgdir_walk pa2page
page_lookup pgdir va m = do
  (temp, _) ← pgdir_walk pgdir va false m
  elim temp [
    | none ↦ ok (none, none)
    | some pte ↦
        if is_present (load pte m)
        then (do pp ← pa2page m (pte_addr (load pte m)); ok (some pp, some pte))
        else ok (none, some pte)
  ]

-- `cur` is the page directory of `curenv`, or `none` if there is no `curenv`.
unfoldable pub tlb_invalidate : Option ℕ → ℕ → ℕ → Mem → Mem
tlb_invalidate none pgdir va m = record m { invlpg = va ∷ m.invlpg }
tlb_invalidate (some d) pgdir va m = if d == pgdir then record m { invlpg = va ∷ m.invlpg } else m

unfoldable pub page_remove : Option ℕ → ℕ → ℕ → Mem → Run Mem
unfolding page_lookup page_decref page_free tlb_invalidate
page_remove cur pgdir va m = do
  (temp, stored) ← page_lookup pgdir va m
  elim temp [
    | none ↦ ok m
    | some pp ↦ elim stored [
      | none ↦ ok m
      | some pte ↦ ok (store pte 0 (tlb_invalidate cur pgdir va (page_decref pp m)))
    ]
  ]

-- The middle of `page_insert`: what it does about a page that is mapped at `va` already.
unfoldable pub displace : Option ℕ → ℕ → ℕ → ℕ → PtePtr → Mem → Run Mem
unfolding page_remove
displace cur pgdir pp va pte m =
    if is_present (load pte m)
    then (if pte_addr (load pte m) == page2pa pp
        then ok (tlb_invalidate cur pgdir va (set_ref pp (((m.pages pp).pp_ref + 65535) % 65536) m))
        else page_remove cur pgdir va m)
    else ok m

unfoldable pub page_insert : Option ℕ → ℕ → ℕ → ℕ → ℕ → Mem → Run (Reply × Mem)
unfolding pgdir_walk displace
page_insert cur pgdir pp va perm m = do
  (found, walked) ← pgdir_walk pgdir va true m
  elim found [
    | none ↦ ok (err e_no_mem, walked)
    | some pte ↦ do
      room ← displace cur pgdir pp va pte walked
      ok (
        ret 0,
        store pte (bit_or (bit_or (page2pa pp) perm) pte_p)
            (set_ref pp (((room.pages pp).pp_ref + 1) % 65536) room),
      )
  ]

-- `~0` is `none`.
unfoldable pub check_va2pa : ℕ → ℕ → Mem → Run (Option ℕ)
unfolding kaddr
check_va2pa pgdir va m = if not (is_present (m.word pgdir (pdx va))) then ok none else do
  p ← kaddr m (pte_addr (m.word pgdir (pdx va)))
  ok (if not (is_present (m.word p (ptx va))) then none else some (pte_addr (m.word p (ptx va))))
