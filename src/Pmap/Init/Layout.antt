-- ===== src/Pmap/Init/Layout.antt =====
-- `mem_init` of kern/pmap.c: what the kernel's page directory maps when its memory is laid out.
use jos_lab.Base.{
  ℕ, ◌+◌, ◌-◌, ◌*◌, ◌/◌, ◌%◌, ◌^◌, ◌≤◌, ◌<◌, ◌≡◌, ◌≢◌, ◌⊎◌, inl, inr, true, ltb, none, some, List,
  length, Bool-cases, ok, arith,
}
use jos_lab.Mmu.{kernbase, pte_w, pte_u, is_present, is_writeable}
use jos_lab.Pmap.{Mem}
use jos_lab.Pmap.Space.{translate, DirSpace}
use jos_lab.Pmap.Boot.{paddr}
use jos_lab.Pmap.Overlay.Place.{RowKept, region_entry}
use jos_lab.Pmap.Overlay.{Overlaid}
use jos_lab.Pmap.Init.Stacks.{IsKernel, stack_page, stack_entry, Stacked}
use jos_lab.Pmap.Init.{sizeof_page_info, pde_is_right}

-- The kernel's directory before its memory is laid out: it names itself at UVPT and a table at
-- MMIOBASE, and is clear but for these. A page is free for each page table to come.
pub record Cleared (m : Mem) (d : ℕ) (ps : List ℕ) : Type 0 where
  pub space : DirSpace IsKernel m d ps
  pub vpt : is_present (m.word d 957) ≡ true
  pub mmio : is_present (m.word d 958) ≡ true
  pub clear : (i : ℕ) → i < 1024 → i ≢ 957 → i ≢ 958 → m.word d i ≡ 0
  pub enough : 67 ≤ length ps
  pub some_pages : 0 < m.npages
  pub few_pages : m.npages ≤ 65536

-- A page-aligned block of `n` bytes at a kernel address.
abbrev pub IsBlock : ℕ → ℕ → Type 0
IsBlock kva n = (kernbase ≤ kva) × (kva + n ≤ 2 ^ 32) × (kva % 4096 ≡ 0)

abbrev pub pages_of : ℕ → ℕ
pages_of npages = (npages * sizeof_page_info + 4095) / 4096

-- The layout of the kernel's memory, with `n` physical pages.
pub record KernelMap (d n pages envs stacks : ℕ) (m' : Mem) (ps' : List ℕ) : Type 0 where
  pub space : DirSpace IsKernel m' d ps'
  pub size : m'.npages ≡ n
  pub pages_at :
      (p : ℕ)
      → 978944 ≤ p
      → p < 978944 + pages_of n
      → translate m' d (p * 4096) ≡ some (region_entry 978944 pages pte_u p)
  pub envs_at :
      (p : ℕ)
      → 977920 ≤ p
      → p < 977951
      → translate m' d (p * 4096) ≡ some (region_entry 977920 envs pte_u p)
  pub memory_at :
      (p : ℕ)
      → 983040 ≤ p
      → p < 1048576
      → translate m' d (p * 4096) ≡ some (region_entry 983040 0 pte_w p)
  pub stacks_at :
      (j x : ℕ)
      → j < 8
      → x < 8
      → translate m' d ((stack_page j + x) * 4096) ≡ some (stack_entry stacks j (stack_page j + x))
  pub gaps : (j x : ℕ) → j < 8 → x < 8 → translate m' d ((stack_page j - 8 + x) * 4096) ≡ none
  pub pdes : (i : ℕ) → i < 1024 → pde_is_right i (m'.word d i) ≡ true

pub Overlaid-page :
    (d q n pa perm : ℕ) (m : Mem) (ps : List ℕ) (m' : Mem) (ps' : List ℕ) (p : ℕ)
    → Overlaid IsKernel d q n pa perm m ps m' ps'
    → p < 2 ^ 20
    → p / 1024 ≢ 957
    → (p < q) ⊎ (q + n ≤ p)
    → translate m' d (p * 4096) ≡ translate m d (p * 4096)
Overlaid-page d q n pa perm m ps m' ps' p o lt ne out =
    let page : p * 4096 / 4096 ≡ p = omega arith in
    o.old (p * 4096) (omega (arith, lt), omega (arith, lt, ne)) (omega (arith, lt)) (rw page out)

pub Stacked-page :
    (d stacks : ℕ) (m m' : Mem) (ps' : List ℕ) (p : ℕ)
    → Stacked d stacks 0 8 m m' ps'
    → p < 2 ^ 20
    → p / 1024 ≢ 957
    → ((j : ℕ) → j < 8 → (p < stack_page j) ⊎ (stack_page j + 8 ≤ p))
    → translate m' d (p * 4096) ≡ translate m d (p * 4096)
Stacked-page d stacks m m' ps' p k lt ne out =
    let page : p * 4096 / 4096 ≡ p = omega arith in
    k.old (p * 4096) (omega (arith, lt), omega (arith, lt, ne)) (omega (arith, lt))
      (λ j lo hi. rw page (out j (omega (arith, hi))))

pub pde_right :
    (i w : ℕ)
    → (955 ≤ i → is_present w ≡ true)
    → (960 ≤ i → is_writeable w ≡ true)
    → (i < 955 → w ≡ 0)
    → pde_is_right i w ≡ true
pde_right i w here writeable clear = elim (Bool-cases (ltb i 955)) [
  | inl low ↦ let h : i < 955 = ground arith in ground (arith, clear h, h)
  | inr high ↦
      let h : 955 ≤ i = ground arith in
      elim (Bool-cases (ltb i 960)) [
        | inl low' ↦ ground (arith, here h)
        | inr high' ↦ let h' : 960 ≤ i = ground arith in ground (arith, here h, writeable h')
      ]
]

pub RowKept-writeable :
    {w w' : ℕ} → RowKept w w' → w ≡ 0 → is_present w' ≡ true → is_writeable w' ≡ true
RowKept-writeable (inl same) z here = ground arith
RowKept-writeable (inr (gone, there, writeable)) z here = writeable

pub paddr-ok : (kva : ℕ) → kernbase ≤ kva → paddr kva ≡ ok (kva - kernbase)
unfolding paddr
paddr-ok kva above = ground arith
