-- ===== src/Pmap/Init/Check.antt =====
-- `check_kern_pgdir` of kern/pmap.c: the kernel's own test of its page directory passes on the
-- layout that `mem_init` makes.
use jos_lab.Base.{
  ℕ, zero, suc, ◌+◌, ◌-◌, ◌*◌, ◌/◌, ◌%◌, ◌^◌, ◌≤◌, ◌<◌, ◌≡◌, refl, ◌∙◌, ap, some, List, ok, arith,
}
use jos_lab.Mmu.{kernbase, kstacktop, kstksize, kstkgap, pte_w, pte_u, pgsize, roundup}
use jos_lab.Pmap.{Mem}
use jos_lab.Pmap.Space.{translate, pte_fields}
use jos_lab.Pmap.Overlay.Place.{region_entry}
use jos_lab.Pmap.Init.Stacks.{stack_page, stack_entry}
use jos_lab.Pmap.Init.{
  sizeof_page_info, check_range, check_gap, check_stacks, check_kern_pgdir, mem_init_map,
}
use jos_lab.Pmap.Init.Layout.{Cleared, IsBlock, pages_of, KernelMap, paddr-ok}
use jos_lab.Pmap.Init.Lay.{mem_init_map-KernelMap}
use jos_lab.Pmap.Init.Loops.{
  check_range-passes, check_gap-passes, check_pdes-passes, region_entry_at, pages_rounds,
}

module _ (d n pages envs stacks : ℕ) (m : Mem) (ps : List ℕ)
    (k : KernelMap d n pages envs stacks m ps) (few : n ≤ 65536) where
  check_pages-passes :
      pages % 4096 ≡ 0
      → pages + pages_of n * 4096 ≤ 2 ^ 32
      → check_range (pages_of n) d (978944 * 4096) pages m ≡ ok tt
  check_pages-passes aligned room =
      check_range-passes d m ps k.space (pages_of n) 978944 pages (omega (arith, few))
        (λ p lo hi. omega (arith, lo, hi, few))
        (λ p lo hi. (
          region_entry 978944 pages pte_u p,
          k.pages_at p lo hi,
          region_entry_at 978944 pages pte_u p (omega (arith, room, lo, hi)) (omega arith) aligned,
        ))

  check_envs-passes :
      envs % 4096 ≡ 0 → envs + 31 * 4096 ≤ 2 ^ 32 → check_range 31 d (977920 * 4096) envs m ≡ ok tt
  check_envs-passes aligned room =
      check_range-passes d m ps k.space 31 977920 envs (omega arith)
        (λ p lo hi. omega (arith, lo, hi))
        (λ p lo hi. (
          region_entry 977920 envs pte_u p,
          k.envs_at p lo (omega (arith, hi)),
          region_entry_at 977920 envs pte_u p (omega (arith, room, lo, hi)) (omega arith) aligned,
        ))

  check_memory-passes : check_range n d (983040 * 4096) 0 m ≡ ok tt
  check_memory-passes =
      check_range-passes d m ps k.space n 983040 0 (omega (arith, few))
        (λ p lo hi. omega (arith, lo, hi))
        (λ p lo hi. (
          region_entry 983040 0 pte_w p,
          k.memory_at p lo (omega (arith, hi, few)),
          region_entry_at 983040 0 pte_w p (omega (arith, lo, hi, few)) (omega arith) refl,
        ))

  check_stack-passes :
      (j : ℕ)
      → j < 8
      → stacks % 4096 ≡ 0
      → stacks + 8 * kstksize ≤ 2 ^ 32
      → check_range 8 d (stack_page j * 4096) (stacks + j * kstksize) m ≡ ok tt
  check_stack-passes j lt aligned room =
      check_range-passes d m ps k.space 8 (stack_page j) (stacks + j * kstksize) (omega (arith, lt))
        (λ p lo hi. omega (arith, lo, hi, lt))
        (λ p lo hi.
          let at : stack_page j + (p - stack_page j) ≡ p = omega (arith, lo) in
          (
            stack_entry stacks j p,
            rw at at (k.stacks_at j (p - stack_page j) lt (omega (arith, hi, lo))),
            region_entry_at (stack_page j) (stacks + j * kstksize) pte_w p
                (omega (arith, room, lo, hi, lt)) (omega arith) (omega (arith, aligned)),
          ))

  check_stack_gap-passes : (j : ℕ) → j < 8 → check_gap 8 d ((stack_page j - 8) * 4096) m ≡ ok tt
  check_stack_gap-passes j lt =
      check_gap-passes d m ps k.space 8 (stack_page j - 8) (omega (arith, lt))
        (λ p lo hi. omega (arith, lo, hi, lt))
        (λ p lo hi.
          let at : stack_page j - 8 + (p - (stack_page j - 8)) ≡ p = omega (arith, lo) in
          rw at at (k.gaps j (p - (stack_page j - 8)) lt (omega (arith, lo, hi))))

  check_stacks-passes :
      (r j : ℕ)
      → j + r ≤ 8
      → stacks % 4096 ≡ 0
      → stacks + 8 * kstksize ≤ 2 ^ 32
      → check_stacks r j d stacks m ≡ ok tt
  unfolding check_stacks
  check_stacks-passes zero j left aligned room = refl
  check_stacks-passes (suc r) j left aligned room =
      let lt : j < 8 = omega (arith, left) in
      let base : kstacktop - (kstksize + kstkgap) * (j + 1) ≡ (stack_page j - 8) * 4096 =
        omega (arith, lt) in
      let top : (stack_page j - 8) * 4096 + kstkgap ≡ stack_page j * 4096 = omega (arith, lt) in
      rw (base, top, check_stack-passes j lt aligned room, check_stack_gap-passes j lt)
        (check_stacks-passes r (j + 1) (omega (arith, left)) aligned room)

KernelMap-check_kern_pgdir :
    (d n pages envs stacks : ℕ) (m : Mem) (ps : List ℕ)
    → n ≤ 65536
    → IsBlock pages (pages_of n * 4096)
    → IsBlock envs (31 * 4096)
    → IsBlock stacks (8 * kstksize)
    → KernelMap d n (pages - kernbase) (envs - kernbase) (stacks - kernbase) m ps
    → check_kern_pgdir d pages envs stacks m ≡ ok tt
unfolding check_kern_pgdir
KernelMap-check_kern_pgdir d n pages envs stacks m ps few b1 b2 b4 k =
    let p1 : ℕ = pages - kernbase in
    let p2 : ℕ = envs - kernbase in
    let p4 : ℕ = stacks - kernbase in
    let rounds : roundup (m.npages * sizeof_page_info) pgsize / pgsize ≡ pages_of n =
      ap (λ (r : ℕ). roundup (r * sizeof_page_info) pgsize / pgsize) k.size ∙ pages_rounds n few in
    let on_pages =
      check_pages-passes d n p1 p2 p4 m ps k few (omega (arith, b1)) (omega (arith, b1)) in
    let on_envs =
      check_envs-passes d n p1 p2 p4 m ps k few (omega (arith, b2)) (omega (arith, b2)) in
    let on_memory : check_range m.npages d kernbase 0 m ≡ ok tt =
      ap (λ (r : ℕ). check_range r d kernbase 0 m) k.size
      ∙ check_memory-passes d n p1 p2 p4 m ps k few in
    let on_stacks =
      check_stacks-passes d n p1 p2 p4 m ps k few 8 0 (omega arith) (omega (arith, b4))
        (omega (arith, b4)) in
    let on_pdes = check_pdes-passes 1024 0 d m (λ j hi. k.pdes j (omega (arith, hi))) in
    rw (paddr-ok pages b1.0, rounds, on_pages, paddr-ok envs b2.0, on_envs)
      (rw (on_memory, paddr-ok stacks b4.0, on_stacks) on_pdes)

-- On a machine of at most 65536 pages, with the tables of the kernel page-aligned and in its half
-- of the address space, and from a directory that is clear but for its own entry at UVPT and a
-- page table at MMIOBASE, beside 67 free pages: the mapping of the kernel's memory by `mem_init`
-- returns, and `check_kern_pgdir` then passes. Each page of the last 256 MB of the address space
-- maps to the physical page at its distance from KERNBASE, also beyond the memory that is there.
pub mem_init_map-check_kern_pgdir :
    (d pages envs bootstack stacks : ℕ) (m : Mem) (ps : List ℕ)
    → Cleared m d ps
    → IsBlock pages (pages_of m.npages * 4096)
    → IsBlock envs (31 * 4096)
    → IsBlock bootstack kstksize
    → IsBlock stacks (8 * kstksize)
    → (m' : Mem) × (mem_init_map d pages envs bootstack stacks m ≡ ok m')
      × (check_kern_pgdir d pages envs stacks m' ≡ ok tt)
      × ((p : ℕ)
          → 983040 ≤ p
          → p < 1048576
          → (e : ℕ) × (translate m' d (p * 4096) ≡ some e) × (e / 4096 ≡ p - 983040))
mem_init_map-check_kern_pgdir d pages envs bootstack stacks m ps c b1 b2 b3 b4 =
    let (m', ps', runs, k) =
      mem_init_map-KernelMap d pages envs bootstack stacks m ps c b1 b2 b3 b4 in
    (
      m',
      runs,
      KernelMap-check_kern_pgdir d m.npages pages envs stacks m' ps' c.few_pages b1 b2 b4 k,
      λ p lo hi.
          let fits : 0 + (p - 983040) * 4096 < 2 ^ 32 = omega (arith, lo, hi) in
          (
            region_entry 983040 0 pte_w p,
            k.memory_at p lo hi,
            omega (arith, (pte_fields (0 + (p - 983040) * 4096) pte_w fits (omega arith)).1),
          ),
    )
