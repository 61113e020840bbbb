-- ===== src/Pmap/Init/Laid.antt =====
-- `mem_init` of kern/pmap.c: the mappings of the kernel's memory, one after the other, make its
-- layout.
use jos_lab.Base.{
  ℕ, ◌+◌, ◌-◌, ◌*◌, ◌/◌, ◌^◌, ◌≤◌, ◌<◌, ◌≡◌, ◌≢◌, ◌⊎◌, inl, inr, refl, ◌∙◌, ap, sym, true, ◌==◌,
  ltb, none, some, List, Bool-cases, arith,
}
use jos_lab.Mmu.{pdx, pte_w, pte_u, is_present}
use jos_lab.Pmap.{Mem}
use jos_lab.Pmap.Space.{translate, translate_no_table}
use jos_lab.Pmap.Overlay.Place.{RowKept, RowKept-trans, RowKept-present, region_entry}
use jos_lab.Pmap.Overlay.{Overlaid}
use jos_lab.Pmap.Init.Stacks.{IsKernel, stack_page, Stacked}
use jos_lab.Pmap.Init.Layout.{
  Cleared, pages_of, KernelMap, Overlaid-page, Stacked-page, pde_right, RowKept-writeable,
}

-- The five mappings of `mem_init`, one after the other.
pub record Laid (d n pages envs bootstack stacks : ℕ) (m : Mem) (ps : List ℕ) (m' : Mem)
    (ps' : List ℕ) : Type 0 where
  pub m1 : Mem
  pub m2 : Mem
  pub m3 : Mem
  pub m4 : Mem
  pub ps1 : List ℕ
  pub ps2 : List ℕ
  pub ps3 : List ℕ
  pub ps4 : List ℕ
  pub pages_laid : Overlaid IsKernel d 978944 (pages_of n) pages pte_u m ps m1 ps1
  pub envs_laid : Overlaid IsKernel d 977920 31 envs pte_u m1 ps1 m2 ps2
  pub boot_laid : Overlaid IsKernel d 983032 8 bootstack pte_w m2 ps2 m3 ps3
  pub memory_laid : Overlaid IsKernel d 983040 65536 0 pte_w m3 ps3 m4 ps4
  pub stacks_laid : Stacked d stacks 0 8 m4 m' ps'

module _ (d n pages envs bootstack stacks : ℕ) (m : Mem) (ps : List ℕ) (m' : Mem) (ps' : List ℕ)
    (l : Laid d n pages envs bootstack stacks m ps m' ps') (few : n ≤ 65536) where
  -- A page that the later mappings do not touch.
  after_stacks :
      (p : ℕ)
      → p < 2 ^ 20
      → p / 1024 ≢ 957
      → ((j : ℕ) → j < 8 → (p < stack_page j) ⊎ (stack_page j + 8 ≤ p))
      → translate m' d (p * 4096) ≡ translate l.m4 d (p * 4096)
  after_stacks p lt ne out = Stacked-page d stacks l.m4 m' ps' p l.stacks_laid lt ne out

  after_boot :
      (p : ℕ)
      → p < 982912
      → p / 1024 ≢ 957
      → translate m' d (p * 4096) ≡ translate l.m2 d (p * 4096)
  after_boot p lt ne =
      after_stacks p (omega (arith, lt)) ne (λ j hi. inl (omega (arith, lt, hi)))
      ∙ Overlaid-page d 983040 65536 0 pte_w l.m3 l.ps3 l.m4 l.ps4 p l.memory_laid
          (omega (arith, lt)) ne (inl (omega (arith, lt)))
      ∙ Overlaid-page d 983032 8 bootstack pte_w l.m2 l.ps2 l.m3 l.ps3 p l.boot_laid
          (omega (arith, lt)) ne (inl (omega (arith, lt)))

  laid_pages :
      (p : ℕ)
      → 978944 ≤ p
      → p < 978944 + pages_of n
      → translate m' d (p * 4096) ≡ some (region_entry 978944 pages pte_u p)
  laid_pages p lo hi =
      after_boot p (omega (arith, hi, few)) (omega (arith, lo, hi, few))
      ∙ Overlaid-page d 977920 31 envs pte_u l.m1 l.ps1 l.m2 l.ps2 p l.envs_laid
          (omega (arith, hi, few)) (omega (arith, lo, hi, few)) (inr (omega (arith, lo)))
      ∙ l.pages_laid.new p lo hi

  laid_envs :
      (p : ℕ)
      → 977920 ≤ p
      → p < 977951
      → translate m' d (p * 4096) ≡ some (region_entry 977920 envs pte_u p)
  laid_envs p lo hi =
      after_boot p (omega (arith, hi)) (omega (arith, lo, hi)) ∙ l.envs_laid.new p lo hi

  laid_memory :
      (p : ℕ)
      → 983040 ≤ p
      → p < 1048576
      → translate m' d (p * 4096) ≡ some (region_entry 983040 0 pte_w p)
  laid_memory p lo hi =
      after_stacks p (omega (arith, hi)) (omega (arith, lo, hi)) (λ j _. inr (omega (arith, lo)))
      ∙ l.memory_laid.new p lo hi

  laid_row : (i : ℕ) → i < 955 → m'.word d i ≡ m.word d i
  laid_row i lt =
      l.stacks_laid.rows i (omega (arith, lt))
      ∙ l.memory_laid.rows i (inl (omega (arith, lt)))
      ∙ l.boot_laid.rows i (inl (omega (arith, lt)))
      ∙ l.envs_laid.rows i (inl (omega (arith, lt)))
      ∙ l.pages_laid.rows i (inl (omega (arith, lt)))

  laid_gap :
      (j x : ℕ)
      → j < 8
      → x < 8
      → m.word d 959 ≡ 0
      → translate m' d ((stack_page j - 8 + x) * 4096) ≡ none
  laid_gap j x lt small clear =
      let p : ℕ = stack_page j - 8 + x in
      let fits : p < 2 ^ 20 = omega (arith, lt, small) in
      let row : p / 1024 ≡ 959 = omega (arith, lt, small) in
      let ne : p / 1024 ≢ 957 = omega (arith, row) in
      let index : pdx (p * 4096) ≡ 959 = omega (arith, lt, small) in
      after_stacks p fits ne (λ j' hi. gap_off j x j' lt small hi)
      ∙ Overlaid-page d 983040 65536 0 pte_w l.m3 l.ps3 l.m4 l.ps4 p l.memory_laid fits ne
          (inl (omega (arith, lt, small)))
      ∙ Overlaid-page d 983032 8 bootstack pte_w l.m2 l.ps2 l.m3 l.ps3 p l.boot_laid fits ne
          (inl (omega (arith, lt, small)))
      ∙ Overlaid-page d 977920 31 envs pte_u l.m1 l.ps1 l.m2 l.ps2 p l.envs_laid fits ne
          (inr (omega (arith, lt, small)))
      ∙ Overlaid-page d 978944 (pages_of n) pages pte_u m ps l.m1 l.ps1 p l.pages_laid fits ne
          (inr (omega (arith, lt, small, few)))
      ∙ translate_no_table m d (p * 4096) (rw (index, clear) refl)
    where
      gap_off :
          (j x j' : ℕ)
          → j < 8
          → x < 8
          → j' < 8
          → (stack_page j - 8 + x < stack_page j') ⊎ (stack_page j' + 8 ≤ stack_page j - 8 + x)
      gap_off j x j' lt small hi = elim (Bool-cases (ltb j j')) [
        | inl under ↦ let h : j < j' = ground arith in inr (omega (arith, h, hi, lt))
        | inr over ↦ let h : j' ≤ j = ground arith in inl (omega (arith, h, hi, lt, small))
      ]

  since_memory : (i : ℕ) → RowKept (l.m4.word d i) (m'.word d i)
  since_memory i = l.stacks_laid.kept i

  since_boot : (i : ℕ) → RowKept (l.m3.word d i) (m'.word d i)
  since_boot i = RowKept-trans (l.memory_laid.kept i) (since_memory i)

  since_envs : (i : ℕ) → RowKept (l.m2.word d i) (m'.word d i)
  since_envs i = RowKept-trans (l.boot_laid.kept i) (since_boot i)

  since_pages : (i : ℕ) → RowKept (l.m1.word d i) (m'.word d i)
  since_pages i = RowKept-trans (l.envs_laid.kept i) (since_envs i)

  since_start : (i : ℕ) → RowKept (m.word d i) (m'.word d i)
  since_start i = RowKept-trans (l.pages_laid.kept i) (since_pages i)

  laid_high : (i : ℕ) → 960 ≤ i → i < 1024 → is_present (m'.word d i) ≡ true
  laid_high i lo hi =
      let row : i * 1024 / 1024 ≡ i = omega arith in
      RowKept-present (since_memory i) (
        ap (λ (r : ℕ). is_present (l.m4.word d r)) (sym row)
        ∙ l.memory_laid.here (i * 1024) (omega (arith, lo)) (omega (arith, hi)))

  laid_present :
      (i : ℕ)
      → 0 < n
      → is_present (m.word d 957) ≡ true
      → is_present (m.word d 958) ≡ true
      → 955 ≤ i
      → i < 1024
      → is_present (m'.word d i) ≡ true
  laid_present i some_pages vpt mmio lo hi = elim (Bool-cases (ltb i 960)) [
    | inr high ↦ laid_high i (ground arith) hi
    | inl low ↦ elim (Bool-cases (i == 955)) [
      | inl e ↦
          at i 955 (ground arith)
            (RowKept-present (since_envs 955) (l.envs_laid.here 977920 (omega arith) (omega arith)))
      | inr e1 ↦ elim (Bool-cases (i == 956)) [
        | inl e ↦ at i 956 (ground arith) (
            RowKept-present (since_pages 956)
              (l.pages_laid.here 978944 (omega arith) (omega (arith, some_pages))))
        | inr e2 ↦ elim (Bool-cases (i == 957)) [
          | inl e ↦ at i 957 (ground arith) (RowKept-present (since_start 957) vpt)
          | inr e3 ↦ elim (Bool-cases (i == 958)) [
            | inl e ↦ at i 958 (ground arith) (RowKept-present (since_start 958) mmio)
            | inr e4 ↦ at i 959 (ground arith) (
                RowKept-present (since_boot 959)
                  (l.boot_laid.here 983032 (omega arith) (omega arith)))
          ]
        ]
      ]
    ]
  ]
    where
      at : (i k : ℕ) → i ≡ k → is_present (m'.word d k) ≡ true → is_present (m'.word d i) ≡ true
      at i k e here = rw e here

  pub Laid-KernelMap : Cleared m d ps → m.npages ≡ n → KernelMap d n pages envs stacks m' ps'
  Laid-KernelMap c all = record {
    space = l.stacks_laid.space;
    size =
        l.stacks_laid.size ∙ l.memory_laid.size ∙ l.boot_laid.size ∙ l.envs_laid.size
        ∙ l.pages_laid.size ∙ all;
    pages_at = laid_pages;
    envs_at = laid_envs;
    memory_at = laid_memory;
    stacks_at = λ j x lt small. l.stacks_laid.new j x (omega arith) lt small;
    gaps = λ j x lt small.
        laid_gap j x lt small (c.clear 959 (omega arith) (omega arith) (omega arith));
    pdes = λ i hi.
        pde_right i (m'.word d i)
          (λ lo. laid_present i (omega (arith, c.some_pages, all)) c.vpt c.mmio lo hi)
          (λ lo.
            RowKept-writeable (since_start i) (c.clear i hi (omega (arith, lo)) (omega (arith, lo)))
              (laid_high i lo hi))
          (λ lo. laid_row i lo ∙ c.clear i hi (omega (arith, lo)) (omega (arith, lo)));
  }
