-- ===== src/Pmap/Boot.antt =====
-- Start-up of the page allocator: `nvram_read`, `i386_detect_memory`, `boot_alloc` and `page_init`
-- of kern/pmap.c. The CMOS registers are read through `rtc`, and `end` is the linker's symbol.
use jos_lab.Base.{
  ◌∙◌, ℕ, zero, suc, ◌+◌, ◌-◌, ◌*◌, ◌/◌, ◌%◌, ◌^◌, ◌≤◌, ◌<◌, ◌≡◌, refl, Bool, true, false, not,
  ◌&&◌, ◌||◌, none, some, List, [], ◌∷◌, arith, ◌==◌, ltb, leb, eq_self, if◌then◌else◌, Bool-cases,
  update, has, bit_or, Run, ok, stop, panic, ◌>>=◌, inl, inr,
}
use jos_lab.Mmu.{word_mod, pgnum, pgsize, kernbase, iophysmem, extphysmem, mpentry_paddr, roundup}
use jos_lab.Pmap.{Mem}
use jos_lab.Pmap.Free.{FreeList, Chain-update, refs-update}

-- kern/kclock.h
abbrev pub nvram_baselo : ℕ
nvram_baselo = 0x15

abbrev pub nvram_extlo : ℕ
nvram_extlo = 0x17

unfoldable pub nvram_read : (ℕ → ℕ) → ℕ → ℕ
nvram_read rtc r = bit_or (rtc r) (rtc (r + 1) * 2 ^ 8)

-- The new `npages` and `npages_basemem`.
unfoldable pub i386_detect_memory : (ℕ → ℕ) → ℕ × ℕ
unfolding nvram_read
i386_detect_memory rtc =
    let npages_basemem = nvram_read rtc nvram_baselo * 1024 / pgsize in
    let npages_extmem = nvram_read rtc nvram_extlo * 1024 / pgsize in
    (
      if npages_extmem == 0 then npages_basemem else extphysmem / pgsize + npages_extmem,
      npages_basemem,
    )

-- The first call sets `nextfree`.
abbrev pub ready : ℕ → Mem → Mem
ready end m = if m.nextfree == 0 then record m { nextfree = roundup end pgsize } else m

unfoldable pub boot_alloc : ℕ → ℕ → Mem → ℕ × Mem
boot_alloc end n m =
    let k = ready end m in
    if n == 0
    then (k.nextfree, k)
    else (k.nextfree, record k { nextfree = roundup ((k.nextfree + n) % word_mod) pgsize })

unfoldable pub paddr : ℕ → Run ℕ
paddr kva = if ltb kva kernbase then stop panic else ok (kva - kernbase)

-- One round of either loop of `page_init`.
push_page : ℕ → Mem → Mem
push_page i m = record m {
  pages = update m.pages i (record { pp_link = m.page_free_list; pp_ref = 0 });
  page_free_list = some i;
}

-- `for (i = 1; i < low; i++)`, with the rounds that are left.
low_pages : ℕ → ℕ → Mem → Mem
unfolding push_page
low_pages zero i m = m
low_pages (suc n) i m = low_pages n (i + 1) (if i == pgnum mpentry_paddr then m else push_page i m)

-- `for (i = 700; i < npages; i++)`
high_pages : ℕ → ℕ → Mem → Mem
unfolding push_page
high_pages zero i m = m
high_pages (suc n) i m = high_pages n (i + 1) (push_page i m)

pub page_init : ℕ → Mem → Run Mem
unfolding boot_alloc paddr
page_init end m = do
  let (kva, booted) = boot_alloc end 0 m
  up ← paddr kva
  ok (high_pages (m.npages - 700) 700 (low_pages (pgnum iophysmem - 1) 1 booted))

-- Pushing a page that is not in the list yet.
push_page-FreeList :
    (i : ℕ) (m : Mem) (ps : List ℕ)
    → i < m.npages
    → has i ps ≡ false
    → FreeList m ps
    → FreeList (push_page i m) (i ∷ ps)
unfolding push_page
push_page-FreeList i m ps lt out v = record {
  chain = (refl, rw (eq_self i) (Chain-update m.pages m.page_free_list ps i _ out v.chain));
  in_range = (lt, v.in_range);
  unreferenced = (rw (eq_self i) refl, refs-update m.pages ps i _ out v.unreferenced);
  distinct = (out, v.distinct);
}

-- The pages of a list are the old ones and those that a loop went over.
abbrev Grew : (ℕ → Bool) → Mem → List ℕ → Mem → Type 0
Grew new m ps m' =
    (ps' : List ℕ) × FreeList m' ps'
    × (m'.npages ≡ m.npages)
    × ((p : ℕ) → has p ps' ≡ (has p ps || new p))

low_pages_lem :
    (n i : ℕ) (m : Mem) (ps : List ℕ)
    → FreeList m ps
    → i + n ≤ m.npages
    → ((p : ℕ) → i ≤ p → has p ps ≡ false)
    → Grew (λ p. leb i p && (ltb p (i + n) && not (p == 7))) m ps (low_pages n i m)
unfolding low_pages
low_pages_lem zero i m ps v room above = (ps, v, refl, λ p. ground arith)
low_pages_lem (suc n) i m ps v room above = elim (Bool-cases (i == 7)) [
  | inl skip ↦
      let (ps', w, size, members) =
        low_pages_lem n (i + 1) m ps v (omega arith) (λ p h. above p (omega arith)) in
      (ps', rw (skip, low_pages) w, rw (skip, low_pages) size, λ p. members p ∙ ground arith)
  | inr use_it ↦
      let (ps', w, size, members) =
        low_pages_lem n (i + 1) (push_page i m) (i ∷ ps)
          (push_page-FreeList i m ps (omega arith) (above i (omega arith)) v) (omega arith)
          (λ p h. ground (arith, above p)) in
      (ps', rw (use_it, low_pages) w, rw (use_it, low_pages) size, λ p. members p ∙ ground arith)
]

high_pages_lem :
    (n i : ℕ) (m : Mem) (ps : List ℕ)
    → FreeList m ps
    → i + n ≤ m.npages
    → ((p : ℕ) → i ≤ p → has p ps ≡ false)
    → Grew (λ p. leb i p && ltb p (i + n)) m ps (high_pages n i m)
unfolding high_pages
high_pages_lem zero i m ps v room above = (ps, v, refl, λ p. ground arith)
high_pages_lem (suc n) i m ps v room above =
    let (ps', w, size, members) =
      high_pages_lem n (i + 1) (push_page i m) (i ∷ ps)
        (push_page-FreeList i m ps (omega arith) (above i (omega arith)) v) (omega arith)
        (λ p h. ground (arith, above p)) in
    (ps', w, size, λ p. members p ∙ ground arith)

page_init_runs :
    (end : ℕ) (m : Mem)
    → m.nextfree ≡ 0
    → kernbase ≤ end
    → end + pgsize ≤ word_mod
    → page_init end m
      ≡ ok (
          high_pages
            (m.npages - 700)
            700
            (low_pages 159 1 (record m { nextfree = roundup end pgsize })))
unfolding page_init
page_init_runs end m fresh above below =
    let first : (m.nextfree == 0) ≡ true = ground arith in
    let mapped : ltb (roundup end pgsize) kernbase ≡ false = ground arith in rw (first, mapped) refl

low_pages-word : (n i : ℕ) (m : Mem) (f j : ℕ) → (low_pages n i m).word f j ≡ m.word f j
unfolding low_pages
low_pages-word zero i m f j = refl
low_pages-word (suc n) i m f j = elim (Bool-cases (i == 7)) [
  | inl skip ↦ rw (skip, low_pages) (low_pages-word n (i + 1) m f j)
  | inr use_it ↦ rw (use_it, low_pages) (low_pages-word n (i + 1) (push_page i m) f j)
]

high_pages-word : (n i : ℕ) (m : Mem) (f j : ℕ) → (high_pages n i m).word f j ≡ m.word f j
unfolding high_pages
high_pages-word zero i m f j = refl
high_pages-word (suc n) i m f j = high_pages-word n (i + 1) (push_page i m) f j

-- The pages that `page_init` frees.
abbrev pub is_freed : ℕ → ℕ → Bool
is_freed npages p = (leb 1 p && (ltb p 160 && not (p == 7))) || (leb 700 p && ltb p npages)

-- What `page_init` leaves: exactly those pages are free, and no word of memory has changed.
pub record Freed (m m' : Mem) (ps : List ℕ) : Type 0 where
  pub free : FreeList m' ps
  pub members : (p : ℕ) → has p ps ≡ is_freed m.npages p
  pub words : (f j : ℕ) → m'.word f j ≡ m.word f j
  pub size : m'.npages ≡ m.npages

both_loops-Freed :
    (m : Mem)
    → m.page_free_list ≡ none
    → 700 ≤ m.npages
    → (ps : List ℕ) × Freed m (high_pages (m.npages - 700) 700 (low_pages 159 1 m)) ps
both_loops-Freed m empty enough =
    let start : FreeList m [] = record {
      chain = empty;
      in_range = tt;
      unreferenced = tt;
      distinct = tt;
    } in
    let (ps, w, size, members) = low_pages_lem 159 1 m [] start (omega arith) (λ p h. refl) in
    let (ps', w', size', members') =
      high_pages_lem (m.npages - 700) 700 (low_pages 159 1 m) ps w (omega (arith, size))
        (λ p h. members p ∙ ground arith) in
    (
      ps',
      record {
        free = w';
        members = λ p. members' p ∙ ground (arith, members p);
        words = λ f j.
            high_pages-word (m.npages - 700) 700 (low_pages 159 1 m) f j
            ∙ low_pages-word 159 1 m f j;
        size = size' ∙ size;
      },
    )

pub page_init-Freed :
    (end : ℕ) (m : Mem)
    → m.page_free_list ≡ none
    → 700 ≤ m.npages
    → kernbase ≤ (ready end m).nextfree
    → (m' : Mem) × (ps : List ℕ) × (page_init end m ≡ ok m') × Freed m m' ps
unfolding page_init
page_init-Freed end m empty enough above = elim (Bool-cases (m.nextfree == 0)) [
  | inl fresh ↦
      let booted = record m { nextfree = roundup end pgsize } in
      let mapped : ltb (roundup end pgsize) kernbase ≡ false = ground (arith, rw fresh at above) in
      let (ps, f) = both_loops-Freed booted empty enough in
      (
        high_pages (m.npages - 700) 700 (low_pages 159 1 booted),
        ps,
        rw (fresh, mapped) refl,
        record { free = f.free; members = f.members; words = f.words; size = f.size },
      )
  | inr known ↦
      let mapped : ltb m.nextfree kernbase ≡ false = ground (arith, rw known at above) in
      let (ps, f) = both_loops-Freed m empty enough in
      (high_pages (m.npages - 700) 700 (low_pages 159 1 m), ps, rw (known, mapped) refl, f)
]

-- On a kernel of at least 700 pages whose image ends in the kernel's half of the address space,
-- `page_init` returns with a well-formed free list that holds exactly the pages 1 to 159 without
-- page 7, where the start-up code of the other CPUs lies, and the pages from 700 on.
pub page_init_lem :
    (end : ℕ) (m : Mem)
    → m.page_free_list ≡ none
    → m.nextfree ≡ 0
    → 700 ≤ m.npages
    → kernbase ≤ end
    → end + pgsize ≤ word_mod
    → (m' : Mem) × (page_init end m ≡ ok m')
      × (ps : List ℕ) × FreeList m' ps
      × ((p : ℕ)
          → has p ps ≡ ((leb 1 p && (ltb p 160 && not (p == 7))) || (leb 700 p && ltb p m.npages)))
page_init_lem end m empty fresh enough above below =
    let first : (m.nextfree == 0) ≡ true = ground arith in
    let (m', ps, runs, f) =
      page_init-Freed end m empty enough (rw first (omega (arith, above, below))) in
    (m', runs, ps, f.free, f.members)
