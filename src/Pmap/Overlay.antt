-- ===== src/Pmap/Overlay.antt =====
-- `boot_map_region` of kern/pmap.c where page tables are missing: it takes them from the free
-- list, and lays the region over what the directory mapped before.
pub mod Place
use jos_lab.Base.{
  ℕ, zero, suc, ◌+◌, ◌*◌, ◌-◌, ◌/◌, ◌%◌, ◌^◌, ◌≤◌, ◌<◌, ◌≡◌, ◌≢◌, ◌⊎◌, inl, inr, refl, ◌∙◌, ap, sym,
  Bool, true, false, ◌==◌, bit_or, bit_or_bit, none, some, List, [], ◌∷◌, length, Bool-cases,
  ne→eqb, eq_self, if◌then◌else◌, ok, ◌>>=◌, arith,
}
use jos_lab.Mmu.{word_mod, pdx, ptx, pgsize, pte_p, pte_w, pte_u, is_present, is_writeable}
use jos_lab.Pmap.{Mem, store, page2pa, pgdir_walk}
use jos_lab.Pmap.Space.{translate, DirSpace, new_pde_fields, pte_fields}
use jos_lab.Pmap.Grown.{grown, grown_root, grown-translate, grown-IsSpace}
use jos_lab.Pmap.Walk.{pgdir_walk_found, pgdir_walk-grown}
use jos_lab.Pmap.Entry.{store_root_row, store-IsSpace, store-translate_self, store-translate_other}
use jos_lab.Pmap.Region.{store_at, map_pages, boot_map_region}
use jos_lab.Pmap.Overlay.Place.{
  bit, RowKept, RowKept-same, RowKept-present, RowKept-trans, region_entry, pdx_of, Placed,
  place_page,
}

-- What the `n` rounds of a region from page `q` on leave.
pub record Overlaid (In : ℕ → Type 0) (d q n pa perm : ℕ) (m : Mem) (ps : List ℕ) (m' : Mem)
    (ps' : List ℕ) : Type 0 where
  pub space : DirSpace In m' d ps'
  pub new :
      (p : ℕ) → q ≤ p → p < q + n → translate m' d (p * 4096) ≡ some (region_entry q pa perm p)
  pub old :
      (va : ℕ)
      → In (pdx va)
      → va < 2 ^ 32
      → (va / 4096 < q) ⊎ (q + n ≤ va / 4096)
      → translate m' d va ≡ translate m d va
  pub size : m'.npages ≡ m.npages
  pub here : (p : ℕ) → q ≤ p → p < q + n → is_present (m'.word d (p / 1024)) ≡ true
  pub kept : (i : ℕ) → RowKept (m.word d i) (m'.word d i)
  pub rows : (i : ℕ) → (i < q / 1024) ⊎ (q + n ≤ i * 1024) → m'.word d i ≡ m.word d i
  pub spare :
      ((n ≡ 0) × (length ps' ≡ length ps))
      ⊎ (length ps + q / 1024 + bit (is_present (m.word d (q / 1024)))
          ≤ length ps' + (q + n + 1023) / 1024)

-- Enough free pages for the region are enough for its rest.
enough_next :
    (q n l l1 b b1 : ℕ)
    → b ≤ 1
    → (q + suc n + 1023) / 1024 ≤ q / 1024 + l + b
    → l ≡ l1 + (1 - b)
    → ((q + 1) / 1024 ≡ q / 1024 → b1 ≡ 1)
    → (q + 1 + n + 1023) / 1024 ≤ (q + 1) / 1024 + l1 + b1
enough_next q n l l1 b b1 one enough spare again = elim (Bool-cases ((q + 1) / 1024 == q / 1024)) [
  | inl same ↦ let e : (q + 1) / 1024 ≡ q / 1024 = ground arith in omega (arith, again e, e)
  | inr other ↦ let e : (q + 1) / 1024 ≡ q / 1024 + 1 = ground arith in omega (arith, e)
]

spare_next :
    (q n l l1 l2 b b1 : ℕ)
    → b ≤ 1
    → l ≡ l1 + (1 - b)
    → ((q + 1) / 1024 ≡ q / 1024 → b1 ≡ 1)
    → ((n ≡ 0) × (l2 ≡ l1)) ⊎ (l1 + (q + 1) / 1024 + b1 ≤ l2 + (q + 1 + n + 1023) / 1024)
    → l + q / 1024 + b ≤ l2 + (q + suc n + 1023) / 1024
spare_next q n l l1 l2 b b1 one spare again (inl (none_left, same)) = omega arith
spare_next q n l l1 l2 b b1 one spare again (inr rest) =
    elim (Bool-cases ((q + 1) / 1024 == q / 1024)) [
      | inl same ↦ let e : (q + 1) / 1024 ≡ q / 1024 = ground arith in omega (arith, again e, e)
      | inr other ↦ let e : (q + 1) / 1024 ≡ q / 1024 + 1 = ground arith in omega (arith, e)
    ]

region_entry_first : (q pa perm : ℕ) → bit_or (bit_or pa perm) pte_p ≡ region_entry q pa perm q
region_entry_first q pa perm =
    let e : pa ≡ pa + (q - q) * 4096 = omega arith in ap (λ a. bit_or (bit_or a perm) pte_p) e

region_entry_next :
    (q n pa perm p : ℕ)
    → q + 1 ≤ p
    → p < q + suc n
    → pa + suc n * 4096 ≤ 2 ^ 32
    → region_entry (q + 1) ((pa + 4096) % word_mod) perm p ≡ region_entry q pa perm p
region_entry_next q n pa perm p past hi room =
    let e : (pa + 4096) % word_mod + (p - (q + 1)) * 4096 ≡ pa + (p - q) * 4096 = omega arith in
    ap (λ a. bit_or (bit_or a perm) pte_p) e

bit-le : (b : Bool) → bit b ≤ 1
bit-le true = omega arith
bit-le false = omega arith

Placed-again :
    {In : ℕ → Type 0} {e : ℕ} (d q : ℕ) (m : Mem) (ps : List ℕ) (m1 : Mem) (ps1 : List ℕ)
    → Placed In d q e m ps m1 ps1
    → (q + 1) / 1024 ≡ q / 1024
    → bit (is_present (m1.word d ((q + 1) / 1024))) ≡ 1
Placed-again d q m ps m1 ps1 k e = ap (λ (j : ℕ). bit (is_present (m1.word d j))) e ∙ ap bit k.here

Placed-Overlaid :
    {In : ℕ → Type 0} (d perm n q pa : ℕ) (m : Mem) (ps : List ℕ) (m1 : Mem) (ps1 : List ℕ)
    (m' : Mem) (ps' : List ℕ)
    → q + suc n ≤ 2 ^ 20
    → pa + suc n * 4096 ≤ 2 ^ 32
    → In (q / 1024)
    → Placed In d q (bit_or (bit_or pa perm) pte_p) m ps m1 ps1
    → Overlaid In d (q + 1) n ((pa + 4096) % word_mod) perm m1 ps1 m' ps'
    → Overlaid In d q (suc n) pa perm m ps m' ps'
Placed-Overlaid d perm n q pa m ps m1 ps1 m' ps' fits room first_in k o =
    let lt : q < 2 ^ 20 = omega (arith, fits) in
    record {
      space = o.space;
      new = λ p lo hi. elim (Bool-cases (p == q)) [
        | inl first ↦
            let e : p ≡ q = ground arith in
            rw e (
              o.old (q * 4096) (rw (pdx_of q lt) first_in) (omega (arith, lt)) (inl (omega arith))
              ∙ k.self
              ∙ ap some (region_entry_first q pa perm))
        | inr later ↦
            let past : q + 1 ≤ p = ground (arith, lo) in
            o.new p past (omega (arith, hi))
            ∙ ap some (region_entry_next q n pa perm p past hi room)
      ];
      old = λ va in_va fits' out. elim out [
        | inl under ↦
            o.old va in_va fits' (inl (omega (arith, under)))
            ∙ k.other va in_va fits' (λ e. omega (arith, e, under))
        | inr over ↦
            o.old va in_va fits' (inr (omega (arith, over)))
            ∙ k.other va in_va fits' (λ e. omega (arith, e, over))
      ];
      size = o.size ∙ k.size;
      here = λ p lo hi. elim (Bool-cases (p == q)) [
        | inl first ↦
            let e : p ≡ q = ground arith in rw e (RowKept-present (o.kept (q / 1024)) k.here)
        | inr later ↦ o.here p (ground (arith, lo)) (omega (arith, hi))
      ];
      kept = λ i. RowKept-trans (k.kept i) (o.kept i);
      rows = λ i out. elim out [
        | inl under ↦
            o.rows i (inl (omega (arith, under))) ∙ k.rows i (λ e. omega (arith, e, under))
        | inr over ↦ o.rows i (inr (omega (arith, over))) ∙ k.rows i (λ e. omega (arith, e, over))
      ];
      spare = inr (
          spare_next q n (length ps) (length ps1) (length ps')
            (bit (is_present (m.word d (q / 1024)))) (bit (is_present (m1.word d ((q + 1) / 1024))))
            (bit-le (is_present (m.word d (q / 1024)))) k.spare (Placed-again d q m ps m1 ps1 k)
            o.spare);
    }

map_pages-Overlaid :
    {In : ℕ → Type 0} (d perm n q pa : ℕ) (m : Mem) (ps : List ℕ)
    → DirSpace In m d ps
    → ((p : ℕ) → q ≤ p → p < q + n → In (p / 1024))
    → q + n ≤ 2 ^ 20
    → pa + n * 4096 ≤ 2 ^ 32
    → perm < 4096
    → (q + n + 1023) / 1024 ≤ q / 1024 + length ps + bit (is_present (m.word d (q / 1024)))
    → (m' : Mem) × (ps' : List ℕ) × (map_pages n d (q * 4096 % word_mod) pa perm m ≡ ok m')
      × Overlaid In d q n pa perm m ps m' ps'
unfolding map_pages
map_pages-Overlaid d perm zero q pa m ps s low fits room small enough = (
  m,
  ps,
  refl,
  record {
    space = s;
    new = λ p lo hi. absurd (omega (arith, lo, hi));
    old = λ va in_va fits' out. refl;
    size = refl;
    here = λ p lo hi. absurd (omega (arith, lo, hi));
    kept = λ i. inl refl;
    rows = λ i out. refl;
    spare = inl (refl, refl);
  },
)
map_pages-Overlaid {In = In} d perm (suc n) q pa m ps s low fits room small enough =
    let first_in = low q (omega arith) (omega arith) in
    let (m1, ps1, step, k) =
      place_page d q pa perm n m ps s first_in (omega (arith, fits)) (omega (arith, room)) small
        (omega (arith, enough)) in
    let left =
      enough_next q n (length ps) (length ps1) (bit (is_present (m.word d (q / 1024))))
        (bit (is_present (m1.word d ((q + 1) / 1024)))) (bit-le (is_present (m.word d (q / 1024))))
        enough k.spare (Placed-again d q m ps m1 ps1 k) in
    let (m', ps', runs, o) =
      map_pages-Overlaid {In = In} d perm n (q + 1) ((pa + 4096) % word_mod) m1 ps1 k.space
        (λ p lo hi. low p (omega (arith, lo)) (omega (arith, hi))) (omega (arith, fits))
        (omega (arith, room)) small left in
    (m', ps', step ∙ runs, Placed-Overlaid d perm n q pa m ps m1 ps1 m' ps' fits room first_in k o)

-- A region whose directory entries are all in the part `In`, with its physical pages below 4 GB and
-- a free page for each page table that is missing: `boot_map_region` returns, maps each of its
-- pages to the physical page at the same distance, and changes no other translation in the part.
pub boot_map_region-Overlaid :
    {In : ℕ → Type 0} (d perm q size pa : ℕ) (m : Mem) (ps : List ℕ)
    → DirSpace In m d ps
    → ((p : ℕ) → q ≤ p → p < q + (size + 4095) / 4096 → In (p / 1024))
    → q + (size + 4095) / 4096 ≤ 2 ^ 20
    → pa + (size + 4095) / 4096 * 4096 ≤ 2 ^ 32
    → perm < 4096
    → (q + (size + 4095) / 4096 + 1023) / 1024
      ≤ q / 1024 + length ps + bit (is_present (m.word d (q / 1024)))
    → (m' : Mem) × (ps' : List ℕ) × (boot_map_region d (q * 4096 % word_mod) size pa perm m ≡ ok m')
      × Overlaid In d q ((size + 4095) / 4096) pa perm m ps m' ps'
unfolding boot_map_region
boot_map_region-Overlaid d perm q size pa m ps s low fits room small enough =
    map_pages-Overlaid d perm ((size + 4095) / 4096) q pa m ps s low fits room small enough
