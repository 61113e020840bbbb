-- ===== src/Examples/Memory.antt =====
-- The mapping of the kernel's memory on a machine of 300 pages, of which 200 to 266 are free. The
-- directory is page 0 and the table for MMIOBASE page 1.
use jos_lab.Base.{
  sym, ◌∙◌, ℕ, zero, suc, ◌+◌, ◌*◌, ◌/◌, ◌-◌, ◌≤◌, ◌<◌, ◌≡◌, refl, inl, inr, true, false,
  Bool-cases, ◌==◌, if◌then◌else◌, none, some, List, [], ◌∷◌, All, Distinct, has, length, ok, arith,
  ◌&&◌,
}
use jos_lab.Mmu.{is_present}
use jos_lab.Pmap.{Mem, PageInfo}
use jos_lab.Pmap.Free.{Chain}
use jos_lab.Pmap.Space.{translate}
use jos_lab.Pmap.Init.Stacks.{IsKernel}
use jos_lab.Pmap.Init.{mem_init_alloc, mem_init_map, check_kern_pgdir}
use jos_lab.Pmap.Init.Layout.{Cleared}
use jos_lab.Pmap.Boot.{i386_detect_memory}
use jos_lab.Pmap.Init.Alloc.{Started, mem_init_alloc_lem}
use jos_lab.Pmap.Init.Check.{mem_init_map-check_kern_pgdir}

-- The pages from `i` on, `n` of them.
run_of : ℕ → ℕ → List ℕ
run_of zero i = []
run_of (suc n) i = i ∷ run_of n (i + 1)

has-run_of : (n i a : ℕ) → a < i → has a (run_of n i) ≡ false
unfolding run_of
has-run_of zero i a lt = refl
has-run_of (suc n) i a lt = ground (arith, has-run_of n (i + 1) a (omega (arith, lt)))

Distinct-run_of : (n i : ℕ) → Distinct (run_of n i)
unfolding run_of
Distinct-run_of zero i = tt
Distinct-run_of (suc n) i = (has-run_of n (i + 1) i (omega arith), Distinct-run_of n (i + 1))

in_range-run_of : (n i b : ℕ) → i + n ≤ b → All (λ p. p < b) (run_of n i)
unfolding run_of
in_range-run_of zero i b le = tt
in_range-run_of (suc n) i b le =
    (omega (arith, le), in_range-run_of n (i + 1) b (omega (arith, le)))

length-run_of : (n i : ℕ) → length (run_of n i) ≡ n
unfolding run_of
length-run_of zero i = refl
length-run_of (suc n) i = omega (arith, length-run_of n (i + 1))

abbrev linked : ℕ → PageInfo
linked p = record { pp_link = if p == 266 then none else some (p + 1); pp_ref = 0 }

unreferenced-run_of : (n i : ℕ) → All (λ p. (linked p).pp_ref ≡ 0) (run_of n i)
unfolding run_of
unreferenced-run_of zero i = tt
unreferenced-run_of (suc n) i = (refl, unreferenced-run_of n (i + 1))

-- The last page of the run is 266.
Chain-run_of : (n i : ℕ) → i + n ≡ 266 → Chain linked (some i) (run_of (suc n) i)
unfolding run_of
Chain-run_of zero i e = let last : (i == 266) ≡ true = ground arith in (refl, rw last refl)
Chain-run_of (suc n) i e =
    let inner : (i == 266) ≡ false = ground arith in
    (refl, rw inner (Chain-run_of n (i + 1) (omega (arith, e))))

abbrev start_mem : Mem
start_mem = record {
  npages = 300;
  pages = linked;
  page_free_list = some 200;
  word = λ f i. if (f == 0) && (i == 957) then 5 else if (f == 0) && (i == 958) then 4103 else 0;
  invlpg = [];
  nextfree = 0;
  mmio_base = 0;
  user_mem_check_addr = 0;
}

only_mmio :
    (i : ℕ)
    → IsKernel i
    → is_present (start_mem.word 0 i) ≡ true
    → (i ≡ 958) × (start_mem.word 0 i / 4096 ≡ 1)
only_mmio i (lt, ne) here = elim (Bool-cases (i == 957)) [
  | inl own ↦ absurd (ground (arith, ne))
  | inr other ↦ elim (Bool-cases (i == 958)) [
    | inl mmio ↦ (ground arith, rw (other, mmio) refl)
    | inr none_there ↦
        let bare : is_present (start_mem.word 0 i) ≡ false = rw (other, none_there) refl in
        absurd (ground arith)
  ]
]

start_mem-Cleared : Cleared start_mem 0 (run_of 67 200)
start_mem-Cleared = record {
  space = record {
    small = omega arith;
    free = record {
      chain = Chain-run_of 66 200 refl;
      in_range = in_range-run_of 67 200 300 (omega arith);
      unreferenced = unreferenced-run_of 67 200;
      distinct = Distinct-run_of 67 200;
    };
    root = has-run_of 67 200 0 (omega arith);
    exists = λ i in_i here. omega (arith, (only_mmio i in_i here).1);
    off_root = λ i in_i here. λ z. omega (arith, (only_mmio i in_i here).1, z);
    in_use = λ i in_i here. rw ((only_mmio i in_i here).1) (has-run_of 67 200 1 (omega arith));
    separate = λ i j in_i in_j hi hj e. (only_mmio i in_i hi).0 ∙ sym (only_mmio j in_j hj).0;
  };
  vpt = refl;
  mmio = refl;
  clear = λ i lt n1 n2. ground arith;
  enough = omega (arith, length-run_of 67 200);
  some_pages = omega arith;
  few_pages = omega arith;
}

-- `pages` at page 100 of physical memory, `envs` at 110, and the stacks at 50 and 60.
mem_init_map-check_kern_pgdir_example :
    (m' : Mem) × (mem_init_map 0 0xF0064000 0xF006E000 0xF0032000 0xF003C000 start_mem ≡ ok m')
    × (check_kern_pgdir 0 0xF0064000 0xF006E000 0xF003C000 m' ≡ ok tt)
    × ((p : ℕ)
        → 983040 ≤ p
        → p < 1048576
        → (e : ℕ) × (translate m' 0 (p * 4096) ≡ some e) × (e / 4096 ≡ p - 983040))
mem_init_map-check_kern_pgdir_example =
    mem_init_map-check_kern_pgdir 0 0xF0064000 0xF006E000 0xF0032000 0xF003C000 start_mem
      (run_of 67 200) start_mem-Cleared (omega arith, omega arith, refl)
      (omega arith, omega arith, refl) (omega arith, omega arith, refl)
      (omega arith, omega arith, refl)

-- The CMOS of a machine with 640 KB of base memory and 31 MB of extended memory.
abbrev cmos : ℕ → ℕ
cmos r = if r == 0x15 then 128 else if r == 0x16 then 2 else if r == 0x18 then 124 else 0

abbrev boot_mem : Mem
boot_mem = record start_mem { npages = 0; page_free_list = none; word = λ f i. 165 }

mem_init_alloc_lem_example :
    (a : ℕ) × (b : ℕ) × (c : ℕ) × (m' : Mem) × (ps : List ℕ) × (mem_init_alloc cmos 0xF0119000
        boot_mem
      ≡ ok ((a, b, c), m'))
    × Started 8192 a b c m' ps
unfolding i386_detect_memory
mem_init_alloc_lem_example =
    mem_init_alloc_lem cmos 0xF0119000 boot_mem refl refl (omega arith) (omega arith) (omega arith)
      (omega arith)
