-- ===== src/Pmap/Init/Alloc.antt =====
-- `mem_init` of kern/pmap.c up to `page_init`: where the kernel's tables stand, and which pages are
-- free beside them.
use jos_lab.Base.{
  ℕ, ◌+◌, ◌-◌, ◌*◌, ◌/◌, ◌%◌, ◌^◌, ◌≤◌, ◌<◌, ◌≡◌, ◌≢◌, inl, inr, refl, ◌∙◌, ap, true, false,
  Bool-cases, ◌==◌, eq_self, ne→eqb, none, List, has, bit_or, if◌then◌else◌, ok, arith,
}
use jos_lab.Mmu.{word_mod, pdx, pgsize, kernbase, uvpt, pte_p, pte_u, is_present, roundup}
use jos_lab.Mmu.Address.{round_bounds}
use jos_lab.Env.{nenv}
use jos_lab.Pmap.{Mem, store, clear_page}
use jos_lab.Pmap.Space.{DirSpace, pte_fields}
use jos_lab.Pmap.Boot.{
  boot_alloc, ready, page_init, i386_detect_memory, is_freed, Freed, page_init-Freed,
}
use jos_lab.Pmap.Init.{sizeof_page_info, sizeof_env, mem_init_alloc}
use jos_lab.Pmap.Init.Stacks.{IsKernel}
use jos_lab.Pmap.Init.Layout.{paddr-ok}

-- The memory before `page_init`, with the directory at `a` and the next free address `next`.
abbrev with_pgdir : ℕ → ℕ → ℕ → Mem → Mem
with_pgdir n a next m =
    let detected = record m { npages = n } in
    record (store ((a - kernbase) / pgsize, pdx uvpt) (bit_or (bit_or (a - kernbase) pte_u) pte_p)
      (clear_page ((a - kernbase) / pgsize) detected)) { nextfree = next }

-- A call of `boot_alloc` with the address and the next one worked out.
boot_alloc-at :
    (end k a next : ℕ) (m : Mem)
    → k ≢ 0
    → (ready end m).nextfree ≡ a
    → roundup ((a + k) % word_mod) pgsize ≡ next
    → boot_alloc end k m ≡ (a, record m { nextfree = next })
unfolding boot_alloc
boot_alloc-at end k a next m more here there =
    let f : (k == 0) ≡ false = ground arith in
    elim (Bool-cases (m.nextfree == 0)) [
      | inl fresh ↦
          let first : roundup end pgsize ≡ a = rw fresh at here in
          rw (f, fresh)
            (ap (λ (x : ℕ). (x, record m { nextfree = roundup ((x + k) % word_mod) pgsize })) first
              ∙ ap (λ (y : ℕ). (a, record m { nextfree = y })) there)
      | inr known ↦
          let first : m.nextfree ≡ a = rw known at here in
          rw (f, known)
            (ap (λ (x : ℕ). (x, record m { nextfree = roundup ((x + k) % word_mod) pgsize })) first
              ∙ ap (λ (y : ℕ). (a, record m { nextfree = y })) there)
    ]

mem_init_alloc-runs :
    (rtc : ℕ → ℕ) (end n a b : ℕ) (m m' : Mem)
    → (i386_detect_memory rtc).0 ≡ n
    → m.nextfree ≡ 0
    → n ≢ 0
    → kernbase ≤ a
    → a + 4096 ≤ b
    → b + 126976 < 2 ^ 32
    → a % 4096 ≡ 0
    → b % 4096 ≡ 0
    → roundup end pgsize ≡ a
    → roundup (a + 4096 + n * sizeof_page_info) pgsize ≡ b
    → a + 4096 + n * sizeof_page_info ≤ b
    → page_init end (with_pgdir n a (b + 126976) m) ≡ ok m'
    → mem_init_alloc rtc end m ≡ ok ((a, a + 4096, b), m')
unfolding mem_init_alloc
mem_init_alloc-runs rtc end n a b m m' size fresh some above tail fits aligned whole first second
      room init =
    let detected : Mem = record m { npages = n } in
    let m1 : Mem = record detected { nextfree = a + 4096 } in
    let own : Mem = with_pgdir n a (a + 4096) m in
    let m2 : Mem = with_pgdir n a b m in
    let is_fresh : (m.nextfree == 0) ≡ true = ground arith in
    let known1 : (a + 4096 == 0) ≡ false = ground arith in
    let known2 : (b == 0) ≡ false = ground arith in
    let r1 : boot_alloc end pgsize detected ≡ (a, m1) =
      boot_alloc-at end pgsize a (a + 4096) detected (omega arith) (rw is_fresh first)
        (omega (arith, aligned, tail, fits)) in
    let wrap : (a + 4096 + n * sizeof_page_info) % word_mod ≡ a + 4096 + n * sizeof_page_info =
      omega (arith, room, fits) in
    let r2 : boot_alloc end (n * sizeof_page_info) own ≡ (a + 4096, m2) =
      boot_alloc-at end (n * sizeof_page_info) (a + 4096) b own (omega (arith, some))
        (rw known1 refl) (ap (λ (x : ℕ). roundup x pgsize) wrap ∙ second) in
    let r3 : boot_alloc end (nenv * sizeof_env) m2 ≡ (b, with_pgdir n a (b + 126976) m) =
      boot_alloc-at end (nenv * sizeof_env) b (b + 126976) m2 (omega arith) (rw known2 refl)
        (omega (arith, fits, whole)) in
    rw (size, r1, paddr-ok a above, r2, r3, init) refl

-- What the first half of `mem_init` leaves on a machine of `n` pages: the directory at `a`, `pages`
-- at `b` and `envs` at `c`, page by page and one behind the other, and the pages `ps` free.
pub record Started (n a b c : ℕ) (m' : Mem) (ps : List ℕ) : Type 0 where
  pub directory : (kernbase ≤ a) × (a % 4096 ≡ 0)
  pub pages_at : (a + 4096 ≤ b) × (b % 4096 ≡ 0)
  pub envs_at : (b + n * sizeof_page_info ≤ c) × (c % 4096 ≡ 0)
  pub space : DirSpace IsKernel m' ((a - kernbase) / 4096) ps
  pub vpt :
      (is_present (m'.word ((a - kernbase) / 4096) 957) ≡ true)
      × (m'.word ((a - kernbase) / 4096) 957 / 4096 ≡ (a - kernbase) / 4096)
  pub clear : (i : ℕ) → i ≢ 957 → m'.word ((a - kernbase) / 4096) i ≡ 0
  pub members : (p : ℕ) → has p ps ≡ is_freed n p
  pub apart :
      (p : ℕ) → a ≤ kernbase + p * 4096 → kernbase + p * 4096 < c + 126976 → has p ps ≡ false
  pub size : m'.npages ≡ n

not_freed : (n p : ℕ) → 160 ≤ p → p < 700 → is_freed n p ≡ false
not_freed n p lo hi = ground arith

module _ (n a b c : ℕ) (m m' : Mem) (ps : List ℕ) (f : Freed (with_pgdir n a (c + 126976) m) m' ps)
    (few : n ≤ 65536) (low : kernbase + 0xA0000 ≤ a) (first : a + 4096 ≤ b)
    (second : b + n * sizeof_page_info ≤ c) (high : c + 126976 ≤ kernbase + 700 * 4096) where
  d : ℕ
  d = (a - kernbase) / 4096

  own_entry : ℕ
  own_entry = bit_or (bit_or (a - kernbase) pte_u) pte_p

  own_row : (i : ℕ) → m'.word d i ≡ (if i == 957 then own_entry else 0)
  unfolding d own_entry
  own_row i =
      let same : ((a - kernbase) / 4096 == (a - kernbase) / 4096) ≡ true =
        eq_self ((a - kernbase) / 4096) in
      f.words d i ∙ elim (Bool-cases (i == 957)) [
        | inl hit ↦ rw (same, hit) refl
        | inr miss ↦ rw (same, miss) refl
      ]

  own_fields : (is_present own_entry ≡ true) × (own_entry / 4096 ≡ d)
  unfolding d own_entry
  own_fields =
      let (bit, frame) =
        pte_fields (a - kernbase) pte_u (omega (arith, high, first, second)) (omega arith) in
      (ap (λ (x : ℕ). x == 1) bit, frame)

  off_freed : (p : ℕ) → 160 ≤ p → p < 700 → has p ps ≡ false
  off_freed p lo hi = f.members p ∙ not_freed n p lo hi

  other_row : (i : ℕ) → i ≢ 957 → m'.word d i ≡ 0
  other_row i ne = let miss : (i == 957) ≡ false = ne→eqb i 957 ne in own_row i ∙ rw miss refl

  not_present : (i : ℕ) → IsKernel i → is_present (m'.word d i) ≡ true → ⊥
  not_present i (lt, ne) here =
      let bare : is_present (m'.word d i) ≡ false = rw (other_row i ne) refl in ground arith

  Freed-DirSpace : DirSpace IsKernel m' d ps
  unfolding d
  Freed-DirSpace = record {
    small = omega (arith, f.size, few);
    free = f.free;
    root = off_freed d (omega (arith, low)) (omega (arith, low, first, second, high));
    exists = λ i in_i here. absurd (not_present i in_i here);
    off_root = λ i in_i here. absurd (not_present i in_i here);
    in_use = λ i in_i here. absurd (not_present i in_i here);
    separate = λ i j in_i in_j hi hj e. absurd (not_present i in_i hi);
  }

  Freed-Started : a % 4096 ≡ 0 → b % 4096 ≡ 0 → c % 4096 ≡ 0 → Started n a b c m' ps
  unfolding d
  Freed-Started a0 b0 c0 = record {
    directory = (omega (arith, low), a0);
    pages_at = (first, b0);
    envs_at = (second, c0);
    space = Freed-DirSpace;
    vpt = (
      ap is_present (own_row 957) ∙ own_fields.0,
      ap (λ (x : ℕ). x / 4096) (own_row 957) ∙ own_fields.1,
    );
    clear = other_row;
    members = f.members;
    apart = λ p lo hi. off_freed p (omega (arith, lo, low)) (omega (arith, hi, high));
    size = f.size;
  }

start_at :
    (rtc : ℕ → ℕ) (end n a c : ℕ) (m : Mem)
    → (i386_detect_memory rtc).0 ≡ n
    → m.page_free_list ≡ none
    → m.nextfree ≡ 0
    → 700 ≤ n
    → n ≤ 65536
    → kernbase + 0xA0000 ≤ a
    → a % 4096 ≡ 0
    → c % 4096 ≡ 0
    → roundup end pgsize ≡ a
    → roundup (a + 4096 + n * sizeof_page_info) pgsize ≡ c
    → a + 4096 + n * sizeof_page_info ≤ c
    → c + 126976 ≤ kernbase + 700 * 4096
    → (m' : Mem) × (ps : List ℕ) × (mem_init_alloc rtc end m ≡ ok ((a, a + 4096, c), m'))
      × Started n a (a + 4096) c m' ps
start_at rtc end n a c m size empty fresh enough few low a0 c0 first second room high =
    let known : (c + 126976 == 0) ≡ false = ground arith in
    let (m', ps, init, f) =
      page_init-Freed end (with_pgdir n a (c + 126976) m) empty enough
        (rw known (omega (arith, low, room))) in
    (
      m',
      ps,
      mem_init_alloc-runs rtc end n a c m m' size fresh (omega (arith, enough)) (omega (arith, low))
          (omega (arith, room)) (omega (arith, high)) a0 c0 first second room init,
      Freed-Started n a (a + 4096) c m m' ps f few low (omega arith) (omega (arith, room)) high a0
          (omega (arith, a0)) c0,
    )

-- On a machine of 700 to 65536 pages, where the image of the kernel ends above the first megabyte
-- and early enough that the directory, `pages` and `envs` end below page 700: the first half of
-- `mem_init` returns. The three stand page-aligned one behind the other, the directory names
-- itself at UVPT and is clear elsewhere, the free list is well formed and holds exactly the pages
-- 1 to 159 without 7 and those from 700 on, and no page that the three occupy is free.
pub mem_init_alloc_lem :
    (rtc : ℕ → ℕ) (end : ℕ) (m : Mem)
    → m.page_free_list ≡ none
    → m.nextfree ≡ 0
    → 700 ≤ (i386_detect_memory rtc).0
    → (i386_detect_memory rtc).0 ≤ 65536
    → kernbase + 0x100000 ≤ end
    → end + (i386_detect_memory rtc).0 * sizeof_page_info + 140000 ≤ kernbase + 700 * 4096
    → (a : ℕ) × (b : ℕ) × (c : ℕ) × (m' : Mem) × (ps : List ℕ) × (mem_init_alloc rtc end m
        ≡ ok ((a, b, c), m'))
      × Started (i386_detect_memory rtc).0 a b c m' ps
mem_init_alloc_lem rtc end m empty fresh enough few low high =
    let n : ℕ = (i386_detect_memory rtc).0 in
    let a : ℕ = roundup end pgsize in
    let ra = round_bounds end (omega (arith, high)) in
    let rc = round_bounds (a + 4096 + n * sizeof_page_info) (omega (arith, high, ra.4)) in
    let (m', ps, runs, started) =
      start_at rtc end n a (roundup (a + 4096 + n * sizeof_page_info) pgsize) m refl empty fresh
        enough few (omega (arith, low, ra.3)) ra.5 rc.5 refl refl rc.3
        (omega (arith, rc.4, ra.4, high)) in
    (a, a + 4096, roundup (a + 4096 + n * sizeof_page_info) pgsize, m', ps, runs, started)
