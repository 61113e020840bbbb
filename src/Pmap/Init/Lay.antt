-- ===== src/Pmap/Init/Lay.antt =====
-- `mem_init` of kern/pmap.c: the mappings of the kernel's memory return.
use jos_lab.Base.{ℕ, ◌+◌, ◌-◌, ◌*◌, ◌/◌, ◌≤◌, ◌≡◌, inl, inr, refl, List, length, ok, arith}
use jos_lab.Mmu.{kernbase, kstksize, kstacktop, upages, uenvs, pte_w, pte_u}
use jos_lab.Pmap.{Mem}
use jos_lab.Pmap.Region.{boot_map_region, mem_init_mp}
use jos_lab.Pmap.Overlay.Place.{RowKept-present}
use jos_lab.Pmap.Overlay.{Overlaid, boot_map_region-Overlaid}
use jos_lab.Pmap.Init.Stacks.{IsKernel, mem_init_mp-Stacked}
use jos_lab.Pmap.Init.{sizeof_page_info, mem_init_map}
use jos_lab.Pmap.Init.Layout.{Cleared, IsBlock, pages_of, KernelMap, paddr-ok}
use jos_lab.Pmap.Init.Laid.{Laid, Laid-KernelMap}

-- A region of whole page tables, or of one, takes at most so many free pages.
spare_le :
    {d q n pa perm : ℕ} {m m' : Mem} {ps ps' : List ℕ} (k : ℕ)
    → Overlaid IsKernel d q n pa perm m ps m' ps'
    → (q + n + 1023) / 1024 ≤ q / 1024 + k
    → length ps ≤ length ps' + k
spare_le k o room = elim (o.spare) [
  | inl (none_left, same) ↦ omega (arith, same)
  | inr taken ↦ omega (arith, taken, room)
]

mem_init_map-runs :
    (d pages envs bootstack stacks : ℕ) (m m1 m2 m3 m4 m' : Mem)
    → kernbase ≤ pages
    → kernbase ≤ envs
    → kernbase ≤ bootstack
    → kernbase ≤ stacks
    → boot_map_region d upages (m.npages * sizeof_page_info) (pages - kernbase) pte_u m ≡ ok m1
    → boot_map_region d uenvs 126976 (envs - kernbase) pte_u m1 ≡ ok m2
    → boot_map_region d (kstacktop - kstksize) kstksize (bootstack - kernbase) pte_w m2 ≡ ok m3
    → boot_map_region d kernbase 0xfffffff 0 pte_w m3 ≡ ok m4
    → mem_init_mp d (stacks - kernbase) m4 ≡ ok m'
    → mem_init_map d pages envs bootstack stacks m ≡ ok m'
unfolding mem_init_map
mem_init_map-runs d pages envs bootstack stacks m m1 m2 m3 m4 m' a1 a2 a3 a4 r1 r2 r3 r4 r5 =
    rw (paddr-ok pages a1, r1, paddr-ok envs a2, r2, paddr-ok bootstack a3, r3, r4)
      (rw (paddr-ok stacks a4) r5)

module _ (d pages envs bootstack stacks : ℕ) (m : Mem) (ps : List ℕ) (c : Cleared m d ps)
    (b1 : IsBlock pages (pages_of m.npages * 4096)) (b2 : IsBlock envs (31 * 4096))
    (b3 : IsBlock bootstack kstksize) (b4 : IsBlock stacks (8 * kstksize)) where
  abbrev Outcome : Type 0
  Outcome =
      (m' : Mem) × (ps' : List ℕ) × (mem_init_map d pages envs bootstack stacks m ≡ ok m')
      × Laid d m.npages (pages - kernbase) (envs - kernbase) (bootstack - kernbase)
          (stacks - kernbase) m ps m' ps'

  abbrev PagesLaid : Mem → List ℕ → Type 0
  PagesLaid m1 ps1 =
      (boot_map_region d upages (m.npages * sizeof_page_info) (pages - kernbase) pte_u m ≡ ok m1)
      × Overlaid IsKernel d 978944 (pages_of m.npages) (pages - kernbase) pte_u m ps m1 ps1

  abbrev EnvsLaid : Mem → List ℕ → Mem → List ℕ → Type 0
  EnvsLaid m1 ps1 m2 ps2 =
      (boot_map_region d uenvs 126976 (envs - kernbase) pte_u m1 ≡ ok m2)
      × Overlaid IsKernel d 977920 31 (envs - kernbase) pte_u m1 ps1 m2 ps2

  abbrev BootLaid : Mem → List ℕ → Mem → List ℕ → Type 0
  BootLaid m2 ps2 m3 ps3 =
      (boot_map_region d (kstacktop - kstksize) kstksize (bootstack - kernbase) pte_w m2 ≡ ok m3)
      × Overlaid IsKernel d 983032 8 (bootstack - kernbase) pte_w m2 ps2 m3 ps3

  abbrev MemoryLaid : Mem → List ℕ → Mem → List ℕ → Type 0
  MemoryLaid m3 ps3 m4 ps4 =
      (boot_map_region d kernbase 0xfffffff 0 pte_w m3 ≡ ok m4)
      × Overlaid IsKernel d 983040 65536 0 pte_w m3 ps3 m4 ps4

  lay_stacks :
      (m1 m2 m3 m4 : Mem) (ps1 ps2 ps3 ps4 : List ℕ)
      → PagesLaid m1 ps1
      → EnvsLaid m1 ps1 m2 ps2
      → BootLaid m2 ps2 m3 ps3
      → MemoryLaid m3 ps3 m4 ps4
      → Outcome
  lay_stacks m1 m2 m3 m4 ps1 ps2 ps3 ps4 (r1, o1) (r2, o2) (r3, o3) (r4, o4) =
      let here = RowKept-present (o4.kept 959) (o3.here 983032 (omega arith) (omega arith)) in
      let (m', ps', r5, k) =
        mem_init_mp-Stacked d (stacks - kernbase) m4 ps4 o4.space here (omega (arith, b4.1)) in
      (
        m',
        ps',
        mem_init_map-runs d pages envs bootstack stacks m m1 m2 m3 m4 m' b1.0 b2.0 b3.0 b4.0 r1 r2
            r3 r4 r5,
        record {
          m1 = m1;
          m2 = m2;
          m3 = m3;
          m4 = m4;
          ps1 = ps1;
          ps2 = ps2;
          ps3 = ps3;
          ps4 = ps4;
          pages_laid = o1;
          envs_laid = o2;
          boot_laid = o3;
          memory_laid = o4;
          stacks_laid = k;
        },
      )

  lay_memory :
      (m1 m2 m3 : Mem) (ps1 ps2 ps3 : List ℕ)
      → 64 ≤ length ps3
      → PagesLaid m1 ps1
      → EnvsLaid m1 ps1 m2 ps2
      → BootLaid m2 ps2 m3 ps3
      → Outcome
  lay_memory m1 m2 m3 ps1 ps2 ps3 left l1 l2 l3 =
      let (m4, ps4, run, over) =
        boot_map_region-Overlaid {In = IsKernel} d pte_w 983040 0xfffffff 0 m3 ps3 (l3.1).space
          (λ p lo hi. (omega (arith, hi), omega (arith, lo, hi))) (omega arith) (omega arith)
          (omega arith) (omega (arith, left)) in
      lay_stacks m1 m2 m3 m4 ps1 ps2 ps3 ps4 l1 l2 l3 (run, over)

  lay_boot :
      (m1 m2 : Mem) (ps1 ps2 : List ℕ)
      → 65 ≤ length ps2
      → PagesLaid m1 ps1
      → EnvsLaid m1 ps1 m2 ps2
      → Outcome
  lay_boot m1 m2 ps1 ps2 left l1 l2 =
      let (m3, ps3, run, over) =
        boot_map_region-Overlaid {In = IsKernel} d pte_w 983032 kstksize (bootstack - kernbase) m2
          ps2 (l2.1).space (λ p lo hi. (omega (arith, hi), omega (arith, lo, hi))) (omega arith)
          (omega (arith, b3.1)) (omega arith) (omega (arith, left)) in
      lay_memory m1 m2 m3 ps1 ps2 ps3 (omega (arith, left, spare_le 1 over (omega arith))) l1 l2
        (run, over)

  lay_envs : (m1 : Mem) (ps1 : List ℕ) → 66 ≤ length ps1 → PagesLaid m1 ps1 → Outcome
  lay_envs m1 ps1 left l1 =
      let (m2, ps2, run, over) =
        boot_map_region-Overlaid {In = IsKernel} d pte_u 977920 126976 (envs - kernbase) m1 ps1
          (l1.1).space (λ p lo hi. (omega (arith, hi), omega (arith, lo, hi))) (omega arith)
          (omega (arith, b2.1)) (omega arith) (omega (arith, left)) in
      lay_boot m1 m2 ps1 ps2 (omega (arith, left, spare_le 1 over (omega arith))) l1 (run, over)

  lay : Outcome
  lay =
      let few = c.few_pages in
      let (m1, ps1, run, over) =
        boot_map_region-Overlaid {In = IsKernel} d pte_u 978944 (m.npages * sizeof_page_info)
          (pages - kernbase) m ps c.space
          (λ p lo hi. (omega (arith, hi, few), omega (arith, lo, hi, few))) (omega (arith, few))
          (omega (arith, b1.1)) (omega arith) (omega (arith, few, c.enough)) in
      lay_envs m1 ps1 (omega (arith, c.enough, spare_le 1 over (omega (arith, few)))) (run, over)

  -- On a machine of at most 65536 pages, with the tables of the kernel page-aligned and in its half of
  -- the address space, and from a directory that is clear but for UVPT and MMIOBASE, with 67 free
  -- pages: `mem_init` maps its memory and returns, and the directory then has the layout.
  pub mem_init_map-KernelMap :
      (m' : Mem) × (ps' : List ℕ) × (mem_init_map d pages envs bootstack stacks m ≡ ok m')
      × KernelMap d m.npages (pages - kernbase) (envs - kernbase) (stacks - kernbase) m' ps'
  mem_init_map-KernelMap =
      let (m', ps', runs, l) = lay in
      (
        m',
        ps',
        runs,
        Laid-KernelMap d m.npages (pages - kernbase) (envs - kernbase) (bootstack - kernbase)
            (stacks - kernbase) m ps m' ps' l c.few_pages c refl,
      )
