-- ===== src/Pmap/Init/Loops.antt =====
-- The loops of `check_kern_pgdir` of kern/pmap.c: they pass on a directory that maps what they
-- look for.
use jos_lab.Base.{
  ℕ, zero, suc, ◌+◌, ◌-◌, ◌*◌, ◌/◌, ◌%◌, ◌^◌, ◌≤◌, ◌<◌, ◌≡◌, ◌≢◌, inl, inr, refl, ◌∙◌, ap, true,
  Bool-cases, none, some, List, ok, arith,
}
use jos_lab.Mmu.{pdx, ptx, pte_addr, is_present, pgsize, roundup}
use jos_lab.Pmap.{Mem, kaddr, check_va2pa}
use jos_lab.Pmap.Space.{translate, translate-cases, translate_page, DirSpace, pte_fields}
use jos_lab.Pmap.Walk.{kaddr-ok}
use jos_lab.Pmap.Overlay.Place.{region_entry}
use jos_lab.Pmap.Init.Stacks.{IsKernel}
use jos_lab.Pmap.Init.{sizeof_page_info, is_at, check_range, check_gap, check_pdes, pde_is_right}
use jos_lab.Pmap.Init.Layout.{pages_of}

module _ (d : ℕ) (m : Mem) (ps : List ℕ) (s : DirSpace IsKernel m d ps) where
  va2pa-table :
      (va : ℕ)
      → IsKernel (pdx va)
      → is_present (m.word d (pdx va)) ≡ true
      → kaddr m (pte_addr (m.word d (pdx va))) ≡ ok (m.word d (pdx va) / 4096)
  va2pa-table va in_va here =
      let frame : pte_addr (m.word d (pdx va)) / 4096 ≡ m.word d (pdx va) / 4096 = omega arith in
      kaddr-ok m (pte_addr (m.word d (pdx va))) (rw frame (s.exists (pdx va) in_va here))
      ∙ ap ok frame

  va2pa-some :
      (va e : ℕ)
      → IsKernel (pdx va)
      → translate m d va ≡ some e
      → check_va2pa d va m ≡ ok (some (pte_addr e))
  unfolding check_va2pa
  va2pa-some va e in_va maps = elim (translate-cases m d va) [
    | inl gone ↦ absurd (ground (arith, gone, maps))
    | inr (here, there, found) ↦
        let same : m.word (m.word d (pdx va) / 4096) (ptx va) ≡ e = cc in
        rw (here, va2pa-table va in_va here, there) (rw same refl)
  ]

  va2pa-none : (va : ℕ) → IsKernel (pdx va) → translate m d va ≡ none → check_va2pa d va m ≡ ok none
  unfolding check_va2pa
  va2pa-none va in_va gone = elim (Bool-cases (is_present (m.word d (pdx va)))) [
    | inr bare ↦ rw bare refl
    | inl here ↦ elim (Bool-cases (is_present (m.word (m.word d (pdx va) / 4096) (ptx va)))) [
      | inl there ↦
          let found = translate_page m d va (m.word d (pdx va) / 4096) here refl there in
          absurd (ground (arith, found, gone))
      | inr blank ↦ rw (here, va2pa-table va in_va here, blank) refl
    ]
  ]

  pub check_range-passes :
      (n q pa : ℕ)
      → q + n ≤ 2 ^ 20
      → ((p : ℕ) → q ≤ p → p < q + n → p / 1024 ≢ 957)
      → ((p : ℕ)
          → q ≤ p
          → p < q + n
          → (e : ℕ) × (translate m d (p * 4096) ≡ some e) × (pte_addr e ≡ pa + (p - q) * 4096))
      → check_range n d (q * 4096) pa m ≡ ok tt
  unfolding check_range
  check_range-passes zero q pa fits off maps = refl
  check_range-passes (suc n) q pa fits off maps =
      let (e, here, at) = maps q (omega arith) (omega arith) in
      let ne = off q (omega arith) (omega arith) in
      let in_q : IsKernel (pdx (q * 4096)) = (omega (arith, fits), omega (arith, fits, ne)) in
      let hit : is_at pa (some (pte_addr e)) ≡ true = ground (arith, at) in
      let next : q * 4096 + pgsize ≡ (q + 1) * 4096 = omega arith in
      rw (va2pa-some (q * 4096) e in_q here, hit, next)
        (check_range-passes n (q + 1) (pa + pgsize) (omega (arith, fits))
          (λ p lo hi. off p (omega (arith, lo)) (omega (arith, hi)))
          (λ p lo hi.
            let (e', here', at') = maps p (omega (arith, lo)) (omega (arith, hi)) in
            (e', here', omega (arith, at', lo))))

  pub check_gap-passes :
      (n q : ℕ)
      → q + n ≤ 2 ^ 20
      → ((p : ℕ) → q ≤ p → p < q + n → p / 1024 ≢ 957)
      → ((p : ℕ) → q ≤ p → p < q + n → translate m d (p * 4096) ≡ none)
      → check_gap n d (q * 4096) m ≡ ok tt
  unfolding check_gap
  check_gap-passes zero q fits off gone = refl
  check_gap-passes (suc n) q fits off gone =
      let ne = off q (omega arith) (omega arith) in
      let in_q : IsKernel (pdx (q * 4096)) = (omega (arith, fits), omega (arith, fits, ne)) in
      let next : q * 4096 + pgsize ≡ (q + 1) * 4096 = omega arith in
      rw (va2pa-none (q * 4096) in_q (gone q (omega arith) (omega arith)), next)
        (check_gap-passes n (q + 1) (omega (arith, fits))
          (λ p lo hi. off p (omega (arith, lo)) (omega (arith, hi)))
          (λ p lo hi. gone p (omega (arith, lo)) (omega (arith, hi))))

pub check_pdes-passes :
    (n i d : ℕ) (m : Mem)
    → ((j : ℕ) → j < i + n → pde_is_right j (m.word d j) ≡ true)
    → check_pdes n i d m ≡ ok tt
unfolding check_pdes
check_pdes-passes zero i d m right = refl
check_pdes-passes (suc n) i d m right =
    rw (right i (omega arith))
      (check_pdes-passes n (i + 1) d m (λ j hi. right j (omega (arith, hi))))

-- What an aligned region's entry names.
pub region_entry_at :
    (q pa perm p : ℕ)
    → pa + (p - q) * 4096 < 2 ^ 32
    → perm < 4096
    → pa % 4096 ≡ 0
    → pte_addr (region_entry q pa perm p) ≡ pa + (p - q) * 4096
region_entry_at q pa perm p fits small aligned =
    omega (arith, (pte_fields (pa + (p - q) * 4096) perm fits small).1, aligned)

pub pages_rounds : (n : ℕ) → n ≤ 65536 → roundup (n * sizeof_page_info) pgsize / pgsize ≡ pages_of n
pages_rounds n few = omega (arith, few)
