-- ===== src/Pmap/Region.antt =====
-- `boot_map_region`, `mmio_map_region` and `mem_init_mp` of kern/pmap.c, and what a mapped region
-- translates to. Sizes are below 2 ^ 31, so the `int` counter of the loop does not overflow.
use jos_lab.Base.{
  ℕ, zero, suc, ◌+◌, ◌-◌, ◌*◌, ◌/◌, ◌%◌, ◌^◌, ◌≤◌, ◌<◌, ◌≡◌, ◌≢◌, inl, inr, refl, ◌∙◌, ap, sym,
  true, false, ◌==◌, ◌&&◌, bit_or, Option, none, some, Bool-cases, ne→eqb, eq_self, Run, ok, stop,
  fault, ◌>>=◌, arith,
}
use jos_lab.Mmu.{
  word_mod, pdx, ptx, pgsize, kstacktop, kstksize, kstkgap, pte_p, pte_w, pte_pwt, pte_pcd,
  pte_addr, is_present, roundup,
}
use jos_lab.Pmap.{Mem, PtePtr, store, pgdir_walk}
use jos_lab.Pmap.Space.{translate, translate_page, pte_fields}
use jos_lab.Pmap.Walk.{kaddr-ok}

-- The store through what `pgdir_walk` returned.
abbrev pub store_at : ℕ → Option PtePtr × Mem → Run Mem
store_at entry (none, m) = stop fault
store_at entry (some pte, m) = ok (store pte entry m)

-- The loop of `boot_map_region`, with the rounds that are left.
unfoldable pub map_pages : ℕ → ℕ → ℕ → ℕ → ℕ → Mem → Run Mem
unfolding pgdir_walk
map_pages zero pgdir va pa perm m = ok m
map_pages (suc n) pgdir va pa perm m = do
  walked ← pgdir_walk pgdir va true m
  mapped ← store_at (bit_or (bit_or pa perm) pte_p) walked
  map_pages n pgdir ((va + pgsize) % word_mod) ((pa + pgsize) % word_mod) perm mapped

unfoldable pub boot_map_region : ℕ → ℕ → ℕ → ℕ → ℕ → Mem → Run Mem
unfolding map_pages
boot_map_region pgdir va size pa perm m =
    map_pages ((size + (pgsize - 1)) / pgsize) pgdir va pa perm m

-- The static `base` is `mmio_base`; the result is `base` as the function leaves it.
unfoldable pub mmio_map_region : ℕ → ℕ → ℕ → Mem → Run (ℕ × Mem)
unfolding boot_map_region
mmio_map_region kern_pgdir pa size m = do
  mapped ←
      boot_map_region kern_pgdir m.mmio_base size pa
        (bit_or (bit_or (bit_or pte_pcd pte_pwt) pte_w) pte_p) m
  let base = roundup ((m.mmio_base + size) % word_mod) pgsize
  ok (base, record mapped { mmio_base = base })

-- `percpu_kstacks[i]` stands at physical address `stacks + i * KSTKSIZE`.
unfoldable pub map_stacks : ℕ → ℕ → ℕ → ℕ → Mem → Run Mem
unfolding boot_map_region
map_stacks zero i kern_pgdir stacks m = ok m
map_stacks (suc n) i kern_pgdir stacks m = do
  mapped ←
      boot_map_region kern_pgdir (kstacktop - i * (kstksize + kstkgap) - kstksize) kstksize
        (stacks + i * kstksize) pte_w m
  map_stacks n (suc i) kern_pgdir stacks mapped

abbrev pub ncpu_max : ℕ
ncpu_max = 8

unfoldable pub mem_init_mp : ℕ → ℕ → Mem → Run Mem
unfolding map_stacks
mem_init_mp kern_pgdir stacks m = map_stacks ncpu_max 0 kern_pgdir stacks m

-- The directory `d` has a page table of its own for each page of the `n` from page `q` on.
pub record HasTables (m : Mem) (d q n : ℕ) : Type 0 where
  pub present : (p : ℕ) → q ≤ p → p < q + n → is_present (m.word d (p / 1024)) ≡ true
  pub exists : (p : ℕ) → q ≤ p → p < q + n → m.word d (p / 1024) / 4096 < m.npages
  pub off_root : (p : ℕ) → q ≤ p → p < q + n → m.word d (p / 1024) / 4096 ≢ d
  pub separate :
      (p p' : ℕ)
      → q ≤ p
      → p < q + n
      → q ≤ p'
      → p' < q + n
      → m.word d (p / 1024) / 4096 ≡ m.word d (p' / 1024) / 4096
      → p / 1024 ≡ p' / 1024

module _ (d perm : ℕ) where
  -- The entry that page `p`, at `pa` from page `q` on, is given.
  abbrev entry : ℕ → ℕ → ℕ → ℕ
  entry q pa p = bit_or (bit_or (pa + (p - q) * 4096) perm) pte_p

  walk_at :
      (q : ℕ) (m : Mem)
      → q < 2 ^ 20
      → is_present (m.word d (q / 1024)) ≡ true
      → m.word d (q / 1024) / 4096 < m.npages
      → pgdir_walk d (q * 4096) true m ≡ ok (some (m.word d (q / 1024) / 4096, q % 1024), m)
  unfolding pgdir_walk
  walk_at q m lt here inside =
      let i : pdx (q * 4096) ≡ q / 1024 = omega (arith, lt) in
      let j : ptx (q * 4096) ≡ q % 1024 = omega arith in
      let frame : pte_addr (m.word d (q / 1024)) / 4096 ≡ m.word d (q / 1024) / 4096 =
        omega arith in
      rw (i, j, here, kaddr-ok m (pte_addr (m.word d (q / 1024))) (rw frame inside)) (rw frame refl)

  -- What `n` rounds from page `q` on leave: each page's entry, and all other words as they were.
  record Mapped (q n pa : ℕ) (m m' : Mem) : Type 0 where
    entries :
        (p : ℕ) → q ≤ p → p < q + n → m'.word (m.word d (p / 1024) / 4096) (p % 1024) ≡ entry q pa p
    others :
        (g i : ℕ)
        → ((p : ℕ) → q ≤ p → p < q + n → g ≡ m.word d (p / 1024) / 4096 → i ≡ p % 1024 → ⊥)
        → m'.word g i ≡ m.word g i

  -- The entries of two pages stand in different words.
  slots_apart :
      (q n p p' : ℕ) (m : Mem)
      → HasTables m d q n
      → q ≤ p
      → p < p'
      → p' < q + n
      → m.word d (p / 1024) / 4096 ≡ m.word d (p' / 1024) / 4096
      → p % 1024 ≡ p' % 1024
      → ⊥
  slots_apart q n p p' m h lo lt hi e f =
      let same = h.separate p p' lo (omega (arith, lt, hi)) (omega (arith, lo, lt)) hi e in
      omega (arith, same, f, lt)

  -- The tables stay, after a change that leaves the directory alone.
  rest-HasTables :
      (q n : ℕ) (m m1 : Mem)
      → ((i : ℕ) → m1.word d i ≡ m.word d i)
      → m1.npages ≡ m.npages
      → HasTables m d q (suc n)
      → HasTables m1 d (q + 1) n
  rest-HasTables q n m m1 root size h = record {
    present = λ p lo hi. rw (root (p / 1024)) (h.present p (omega arith) (omega arith));
    exists = λ p lo hi. rw (root (p / 1024), size) (h.exists p (omega arith) (omega arith));
    off_root = λ p lo hi. rw (root (p / 1024)) (h.off_root p (omega arith) (omega arith));
    separate = λ p p' lo hi lo' hi' e.
        h.separate p p' (omega (arith, lo)) (omega (arith, hi)) (omega (arith, lo'))
          (omega (arith, hi'))
          (ap (λ w. w / 4096) (sym (root (p / 1024))) ∙ e ∙ ap (λ w. w / 4096) (root (p' / 1024)));
  }

  map_pages-step :
      (n q pa : ℕ) (m : Mem)
      → q < 2 ^ 20
      → is_present (m.word d (q / 1024)) ≡ true
      → m.word d (q / 1024) / 4096 < m.npages
      → map_pages (suc n) d (q * 4096 % word_mod) pa perm m
        ≡ map_pages n d
            ((q + 1) * 4096 % word_mod)
            ((pa + 4096) % word_mod)
            perm
            (store (m.word d (q / 1024) / 4096, q % 1024) (bit_or (bit_or pa perm) pte_p) m)
  unfolding map_pages
  map_pages-step n q pa m lt here inside =
      let va : q * 4096 % word_mod ≡ q * 4096 = omega (arith, lt) in
      let next : (q * 4096 + 4096) % word_mod ≡ (q + 1) * 4096 % word_mod = omega arith in
      rw (va, walk_at q m lt here inside) (rw next refl)

  map_pages-Mapped :
      (n q pa : ℕ) (m : Mem)
      → q + n ≤ 2 ^ 20
      → pa + n * 4096 ≤ 2 ^ 32
      → HasTables m d q n
      → (m' : Mem) × (map_pages n d (q * 4096 % word_mod) pa perm m ≡ ok m') × Mapped q n pa m m'
  unfolding map_pages
  map_pages-Mapped zero q pa m fits room h =
      (m, refl, record { entries = λ p lo hi. ground arith; others = λ g i free. refl })
  map_pages-Mapped (suc n) q pa m fits room h =
      let t : ℕ = m.word d (q / 1024) / 4096 in
      let off : (d == t) ≡ false =
        ne→eqb d t (λ e. h.off_root q (omega arith) (omega arith) (sym e)) in
      let m1 : Mem = store (t, q % 1024) (bit_or (bit_or pa perm) pte_p) m in
      let root : (i : ℕ) → m1.word d i ≡ m.word d i = λ i. rw off refl in
      let rest : HasTables m1 d (q + 1) n = rest-HasTables q n m m1 root refl h in
      let (m', runs, mapped) =
        map_pages-Mapped n (q + 1) ((pa + 4096) % word_mod) m1 (omega (arith, fits))
          (omega (arith, room)) rest in
      (
        m',
        map_pages-step n q pa m (omega (arith, fits)) (h.present q (omega arith) (omega arith))
              (h.exists q (omega arith) (omega arith))
            ∙ runs,
        record {
          entries = λ p lo hi. elim (Bool-cases (p == q)) [
            | inl same ↦
                let e : p ≡ q = ground arith in
                let zero_off : pa + (q - q) * 4096 ≡ pa = omega arith in
                let free = mapped.others t (q % 1024) λ p' a b e' f.
                  slots_apart q (suc n) q p' m h (omega arith) (omega (arith, a)) (omega (arith, b))
                    (e' ∙ ap (λ w. w / 4096) (root (p' / 1024))) f in
                rw (e, zero_off) (free ∙ rw (eq_self t, eq_self (q % 1024)) refl)
            | inr away ↦
                let later : q + 1 ≤ p = ground arith in
                let at : (pa + 4096) % word_mod + (p - (q + 1)) * 4096 ≡ pa + (p - q) * 4096 =
                  omega (arith, room, hi, later) in
                let got = mapped.entries p later (omega (arith, hi)) in
                ap (λ w. m'.word (w / 4096) (p % 1024)) (sym (root (p / 1024)))
                ∙ got
                ∙ ap (λ a. bit_or (bit_or a perm) pte_p) at
          ];
          others = λ g i free.
              mapped.others g i (λ p lo hi e f.
                free p (omega (arith, lo)) (omega (arith, hi))
                  (e ∙ ap (λ w. w / 4096) (root (p / 1024))) f)
              ∙ elim (Bool-cases ((g == t) && (i == q % 1024))) [
                | inl hit ↦
                    absurd (free q (omega arith) (omega arith) (ground arith) (ground arith))
                | inr miss ↦ rw miss refl
              ];
        },
      )

-- A region of pages, at page `q` and on, whose page tables exist, are not the directory and are
-- not shared between different directory entries, with its physical pages below 4 GB: for a size
-- below 2 ^ 31 and a page-aligned physical address, `boot_map_region` maps each of its pages to
-- the physical page at the same distance, with `perm`, and changes no other entry.
pub boot_map_region_lem :
    (d q size pa perm : ℕ) (m : Mem)
    → size < 2 ^ 31
    → pa % 4096 ≡ 0
    → perm < 4096
    → q + (size + 4095) / 4096 ≤ 2 ^ 20
    → pa + (size + 4095) / 4096 * 4096 ≤ 2 ^ 32
    → HasTables m d q ((size + 4095) / 4096)
    → (m' : Mem) × (boot_map_region d (q * 4096 % word_mod) size pa perm m ≡ ok m')
      × ((p : ℕ)
          → q ≤ p
          → p < q + (size + 4095) / 4096
          → (pte : ℕ) × (translate m' d (p * 4096) ≡ some pte)
            × (pte / 4096 ≡ pa / 4096 + (p - q))
            × (pte ≡ bit_or (bit_or (pa + (p - q) * 4096) perm) pte_p))
      × ((g i : ℕ)
          → ((p : ℕ)
              → q ≤ p
              → p < q + (size + 4095) / 4096
              → g ≡ m.word d (p / 1024) / 4096
              → i ≡ p % 1024
              → ⊥)
          → m'.word g i ≡ m.word g i)
unfolding boot_map_region
boot_map_region_lem d q size pa perm m small aligned flags fits room h =
    let n : ℕ = (size + 4095) / 4096 in
    let (m', runs, mapped) = map_pages-Mapped d perm n q pa m fits room h in
    (
      m',
      runs,
      λ p lo hi.
          let e : ℕ = bit_or (bit_or (pa + (p - q) * 4096) perm) pte_p in
          let (bit, frame) =
            pte_fields (pa + (p - q) * 4096) perm (omega (arith, room, hi, lo)) flags in
          let i : pdx (p * 4096) ≡ p / 1024 = omega (arith, fits, hi) in
          let j : ptx (p * 4096) ≡ p % 1024 = omega arith in
          let root : m'.word d (p / 1024) ≡ m.word d (p / 1024) =
            mapped.others d (p / 1024) λ p' a b same _. h.off_root p' a b (sym same) in
          let at = mapped.entries p lo hi in
          (
            e,
            translate_page m' d (p * 4096) (m.word d (p / 1024) / 4096)
                  (rw (i, root) (h.present p lo hi)) (rw (i, root) refl)
                  (rw (j, at) (ground (arith, bit)))
                ∙ rw (j, at) refl,
            omega (arith, frame, aligned),
            refl,
          ),
      mapped.others,
    )
