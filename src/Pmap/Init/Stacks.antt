-- ===== src/Pmap/Init/Stacks.antt =====
-- `mem_init_mp` of kern/pmap.c: the stacks of the CPUs in the kernel's page directory.
use jos_lab.Base.{
  ℕ, zero, suc, ◌+◌, ◌-◌, ◌*◌, ◌/◌, ◌%◌, ◌^◌, ◌≤◌, ◌<◌, ◌≡◌, ◌≢◌, ◌⊎◌, inl, inr, refl, ◌∙◌, ap,
  true, ◌==◌, some, List, Bool-cases, ltb, ok, arith,
}
use jos_lab.Mmu.{word_mod, pdx, kstacktop, kstksize, kstkgap, uvpt, pte_w, is_present}
use jos_lab.Pmap.{Mem}
use jos_lab.Pmap.Space.{translate, DirSpace}
use jos_lab.Pmap.Region.{boot_map_region, map_stacks, mem_init_mp}
use jos_lab.Pmap.Overlay.Place.{bit, RowKept, RowKept-trans, RowKept-present, region_entry}
use jos_lab.Pmap.Overlay.{Overlaid, boot_map_region-Overlaid}

-- The entries of the kernel's directory but for the one at UVPT, which names the directory.
abbrev pub IsKernel : ℕ → Type 0
IsKernel i = (i < 1024) × (i ≢ pdx uvpt)

-- The lowest page of the stack of CPU `j`.
abbrev pub stack_page : ℕ → ℕ
stack_page j = 983032 - 16 * j

-- Page `p` is not in the stack of CPU `j`.
abbrev pub OffStack : ℕ → ℕ → Type 0
OffStack p j = (p < stack_page j) ⊎ (stack_page j + 8 ≤ p)

abbrev pub stack_entry : ℕ → ℕ → ℕ → ℕ
stack_entry stacks j p = region_entry (stack_page j) (stacks + j * kstksize) pte_w p

-- What mapping the stacks from `i` up to `i + n` leaves.
pub record Stacked (d stacks i n : ℕ) (m : Mem) (m' : Mem) (ps' : List ℕ) : Type 0 where
  pub space : DirSpace IsKernel m' d ps'
  pub new :
      (j x : ℕ)
      → i ≤ j
      → j < i + n
      → x < 8
      → translate m' d ((stack_page j + x) * 4096) ≡ some (stack_entry stacks j (stack_page j + x))
  pub old :
      (va : ℕ)
      → IsKernel (pdx va)
      → va < 2 ^ 32
      → ((j : ℕ) → i ≤ j → j < i + n → OffStack (va / 4096) j)
      → translate m' d va ≡ translate m d va
  pub size : m'.npages ≡ m.npages
  pub kept : (k : ℕ) → RowKept (m.word d k) (m'.word d k)
  pub rows : (k : ℕ) → k ≢ 959 → m'.word d k ≡ m.word d k

one_stack :
    (d stacks i : ℕ) (m : Mem) (ps : List ℕ)
    → DirSpace IsKernel m d ps
    → is_present (m.word d 959) ≡ true
    → i < 8
    → stacks + 8 * kstksize ≤ 2 ^ 32
    → (m1 : Mem) × (ps1 : List ℕ) × (boot_map_region d
          (kstacktop - i * (kstksize + kstkgap) - kstksize)
          kstksize
          (stacks + i * kstksize)
          pte_w
          m
        ≡ ok m1)
      × Overlaid IsKernel d (stack_page i) 8 (stacks + i * kstksize) pte_w m ps m1 ps1
one_stack d stacks i m ps s here lt room =
    let row : stack_page i / 1024 ≡ 959 = omega (arith, lt) in
    let there : bit (is_present (m.word d (stack_page i / 1024))) ≡ 1 = rw row (ap bit here) in
    let va : kstacktop - i * (kstksize + kstkgap) - kstksize ≡ stack_page i * 4096 % word_mod =
      omega (arith, lt) in
    rw va (
      boot_map_region-Overlaid {In = IsKernel} d pte_w (stack_page i) kstksize
        (stacks + i * kstksize) m ps s
        (λ p lo hi. (omega (arith, lt, lo, hi), omega (arith, lt, lo, hi))) (omega (arith, lt))
        (omega (arith, room, lt)) (omega arith) (omega (arith, there, row, lt)))

off_row : (i r : ℕ) → i < 8 → r ≢ 959 → (r < stack_page i / 1024) ⊎ (stack_page i + 8 ≤ r * 1024)
off_row i r lt ne = elim (Bool-cases (ltb r 959)) [
  | inl low ↦ let h : r < 959 = ground arith in inl (omega (arith, h, lt))
  | inr high ↦ let h : 960 ≤ r = ground (arith, ne) in inr (omega (arith, h, lt))
]

Overlaid-Stacked :
    (d stacks i n : ℕ) (m : Mem) (ps : List ℕ) (m1 : Mem) (ps1 : List ℕ) (m' : Mem) (ps' : List ℕ)
    → i + suc n ≤ 8
    → Overlaid IsKernel d (stack_page i) 8 (stacks + i * kstksize) pte_w m ps m1 ps1
    → Stacked d stacks (suc i) n m1 m' ps'
    → Stacked d stacks i (suc n) m m' ps'
Overlaid-Stacked d stacks i n m ps m1 ps1 m' ps' few o k = record {
  space = k.space;
  new = λ j x lo hi small. elim (Bool-cases (j == i)) [
    | inl first ↦
        let e : j ≡ i = ground arith in
        let page : (stack_page i + x) * 4096 / 4096 ≡ stack_page i + x = omega arith in
        rw e (
          k.old ((stack_page i + x) * 4096) (omega (arith, small, few), omega (arith, small, few))
            (omega (arith, small, few)) (λ j' lo' hi'. rw page (inr (omega (arith, lo', hi', few))))
          ∙ o.new (stack_page i + x) (omega arith) (omega (arith, small)))
    | inr later ↦ k.new j x (ground (arith, lo)) (omega (arith, hi)) small
  ];
  old = λ va in_va fits out.
      k.old va in_va fits (λ j lo hi. out j (omega (arith, lo)) (omega (arith, hi)))
      ∙ o.old va in_va fits (out i (omega arith) (omega arith));
  size = k.size ∙ o.size;
  kept = λ r. RowKept-trans (o.kept r) (k.kept r);
  rows = λ r ne. k.rows r ne ∙ o.rows r (off_row i r (omega (arith, few)) ne);
}

map_stacks-Stacked :
    (n i d stacks : ℕ) (m : Mem) (ps : List ℕ)
    → DirSpace IsKernel m d ps
    → is_present (m.word d 959) ≡ true
    → i + n ≤ 8
    → stacks + 8 * kstksize ≤ 2 ^ 32
    → (m' : Mem) × (ps' : List ℕ) × (map_stacks n i d stacks m ≡ ok m')
      × Stacked d stacks i n m m' ps'
unfolding map_stacks
map_stacks-Stacked zero i d stacks m ps s here few room = (
  m,
  ps,
  refl,
  record {
    space = s;
    new = λ j x lo hi small. absurd (omega (arith, lo, hi));
    old = λ va in_va fits out. refl;
    size = refl;
    kept = λ k. inl refl;
    rows = λ k ne. refl;
  },
)
map_stacks-Stacked (suc n) i d stacks m ps s here few room =
    let (m1, ps1, one, o) = one_stack d stacks i m ps s here (omega (arith, few)) room in
    let (m', ps', runs, k) =
      map_stacks-Stacked n (suc i) d stacks m1 ps1 o.space (RowKept-present (o.kept 959) here)
        (omega (arith, few)) room in
    (m', ps', rw (one, runs) refl, Overlaid-Stacked d stacks i n m ps m1 ps1 m' ps' few o k)

-- With a page table at the top of the kernel's stacks, `mem_init_mp` returns, maps the stack of each
-- of the 8 CPUs and changes no other translation, so the gaps below the stacks stay as they were.
pub mem_init_mp-Stacked :
    (d stacks : ℕ) (m : Mem) (ps : List ℕ)
    → DirSpace IsKernel m d ps
    → is_present (m.word d 959) ≡ true
    → stacks + 8 * kstksize ≤ 2 ^ 32
    → (m' : Mem) × (ps' : List ℕ) × (mem_init_mp d stacks m ≡ ok m') × Stacked d stacks 0 8 m m' ps'
unfolding mem_init_mp
mem_init_mp-Stacked d stacks m ps s here room =
    map_stacks-Stacked 8 0 d stacks m ps s here (omega arith) room
