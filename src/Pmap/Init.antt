-- ===== src/Pmap/Init.antt =====
-- `mem_init` of kern/pmap.c, in two halves: up to `page_init`, and the mapping of the kernel's
-- memory. Between them the source runs its checks, of which `check_page` leaves a page table for
-- MMIOBASE. `pages`, `envs`, `bootstack` and `percpu_kstacks` are kernel addresses.
pub mod Stacks
pub mod Alloc
pub mod Layout
pub mod Laid
pub mod Lay
pub mod Loops
pub mod Check
use jos_lab.Base.{
  ℕ, zero, suc, ◌+◌, ◌-◌, ◌*◌, ◌/◌, ◌≡◌, Bool, true, false, not, ◌&&◌, ◌||◌, ◌==◌, leb, Option,
  none, some, bit_or, if◌then◌else◌, Run, ok, stop, panic, ◌>>=◌, ◌>>◌,
}
use jos_lab.Mmu.{
  word_mod, pdx, pgsize, kernbase, kstacktop, kstksize, kstkgap, mmiobase, uvpt, upages, uenvs,
  pte_p, pte_w, pte_u, is_present, is_writeable, roundup,
}
use jos_lab.Env.{nenv}
use jos_lab.Pmap.{Mem, store, clear_page, check_va2pa}
use jos_lab.Pmap.Boot.{boot_alloc, paddr, page_init, i386_detect_memory}
use jos_lab.Pmap.Region.{ncpu_max, boot_map_region, mem_init_mp}

abbrev pub sizeof_page_info : ℕ
sizeof_page_info = 8

abbrev pub sizeof_env : ℕ
sizeof_env = 124

-- The addresses of the directory, `pages` and `envs`, and the memory with its free list.
unfoldable pub mem_init_alloc : (ℕ → ℕ) → ℕ → Mem → Run ((ℕ × ℕ × ℕ) × Mem)
mem_init_alloc rtc end m = do
  let detected = record m { npages = (i386_detect_memory rtc).0 }
  let (kern_pgdir, m1) = boot_alloc end pgsize detected
  d ← paddr kern_pgdir
  let cleared = clear_page (d / pgsize) m1
  let own = store (d / pgsize, pdx uvpt) (bit_or (bit_or d pte_u) pte_p) cleared
  let (pages, m2) = boot_alloc end (own.npages * sizeof_page_info) own
  let (envs, m3) = boot_alloc end (nenv * sizeof_env) m2
  m4 ← page_init end m3
  ok ((kern_pgdir, pages, envs), m4)

-- From the mapping of `pages` to `mem_init_mp`. A `pde_t *` is the frame of the directory.
unfoldable pub mem_init_map : ℕ → ℕ → ℕ → ℕ → ℕ → Mem → Run Mem
mem_init_map kern_pgdir pages envs bootstack percpu_kstacks m = do
  pages_pa ← paddr pages
  m1 ← boot_map_region kern_pgdir upages (m.npages * sizeof_page_info) pages_pa pte_u m
  envs_pa ← paddr envs
  m2 ← boot_map_region kern_pgdir uenvs (roundup (nenv * sizeof_env) pgsize) envs_pa pte_u m1
  bootstack_pa ← paddr bootstack
  m3 ← boot_map_region kern_pgdir (kstacktop - kstksize) kstksize bootstack_pa pte_w m2
  m4 ← boot_map_region kern_pgdir kernbase 0xfffffff 0 pte_w m3
  stacks_pa ← paddr percpu_kstacks
  mem_init_mp kern_pgdir stacks_pa m4

-- `assert`
abbrev pub assert : Bool → Run (Unit {0})
assert true = ok tt
assert false = stop panic

abbrev pub is_at : ℕ → Option ℕ → Bool
is_at pa none = false
is_at pa (some found) = found == pa

abbrev pub is_nowhere : Option ℕ → Bool
is_nowhere none = true
is_nowhere (some found) = false

-- `assert(check_va2pa(pgdir, va + i) == pa + i)`, with the rounds that are left.
unfoldable pub check_range : ℕ → ℕ → ℕ → ℕ → Mem → Run (Unit {0})
unfolding check_va2pa
check_range zero pgdir va pa m = ok tt
check_range (suc n) pgdir va pa m = do
  found ← check_va2pa pgdir va m
  assert (is_at pa found)
  check_range n pgdir (va + pgsize) (pa + pgsize) m

-- `assert(check_va2pa(pgdir, base + i) == ~0)`
unfoldable pub check_gap : ℕ → ℕ → ℕ → Mem → Run (Unit {0})
unfolding check_va2pa
check_gap zero pgdir va m = ok tt
check_gap (suc n) pgdir va m = do
  found ← check_va2pa pgdir va m
  assert (is_nowhere found)
  check_gap n pgdir (va + pgsize) m

-- The kernel stacks, from the stack `cpu` on.
unfoldable pub check_stacks : ℕ → ℕ → ℕ → ℕ → Mem → Run (Unit {0})
unfolding check_range check_gap
check_stacks zero cpu pgdir stacks m = ok tt
check_stacks (suc n) cpu pgdir stacks m = do
  let base = kstacktop - (kstksize + kstkgap) * (cpu + 1)
  check_range (kstksize / pgsize) pgdir (base + kstkgap) (stacks + cpu * kstksize) m
  check_gap (kstkgap / pgsize) pgdir base m
  check_stacks n (cpu + 1) pgdir stacks m

-- The test of the directory entry `pde` at index `i`.
abbrev pub pde_is_right : ℕ → ℕ → Bool
pde_is_right i pde =
    if (i == pdx uvpt)
      || (i == pdx (kstacktop - 1))
      || (i == pdx upages)
      || (i == pdx uenvs)
      || (i == pdx mmiobase)
    then is_present pde
    else if leb (pdx kernbase) i
    then is_present pde && is_writeable pde
    else pde == 0

unfoldable pub check_pdes : ℕ → ℕ → ℕ → Mem → Run (Unit {0})
check_pdes zero i pgdir m = ok tt
check_pdes (suc n) i pgdir m = do
  assert (pde_is_right i (m.word pgdir i))
  check_pdes n (i + 1) pgdir m

unfoldable pub check_kern_pgdir : ℕ → ℕ → ℕ → ℕ → Mem → Run (Unit {0})
check_kern_pgdir pgdir pages envs percpu_kstacks m = do
  pages_pa ← paddr pages
  check_range (roundup (m.npages * sizeof_page_info) pgsize / pgsize) pgdir upages pages_pa m
  envs_pa ← paddr envs
  check_range (roundup (nenv * sizeof_env) pgsize / pgsize) pgdir uenvs envs_pa m
  check_range m.npages pgdir kernbase 0 m
  stacks_pa ← paddr percpu_kstacks
  check_stacks ncpu_max 0 pgdir stacks_pa m
  check_pdes 1024 0 pgdir m
