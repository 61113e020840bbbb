-- ===== src/Pmap/Grown.antt =====
-- A directory that has just got a new page table: what the memory holds, that the space stays well
-- formed, and that no address translates to anything else.
use jos_lab.Base.{
  Bool-cases, inl, inr, ◌≡◌, eq_of_eqb, sym, ◌∙◌, ◌≢◌, ◌==◌, if◌then◌else◌, has, ℕ, ◌/◌, ◌<◌, refl,
  true, false, List, ◌∷◌, arith, bit_or,
}
use jos_lab.Mmu.{pdx, ptx, is_present, pte_p, pte_u, pte_w}
use jos_lab.Pmap.{Mem, store, set_ref, page2pa}
use jos_lab.Pmap.Free.{words-FreeList, set_ref-FreeList, taken-FreeList, taken}
use jos_lab.Pmap.Space.{
  translate_no_table, translate_no_page, translate-eq, translate, new_pde_fields, DirSpace,
}

-- The memory once page `p`, the first free one, is the table for `va`.
abbrev pub grown : ℕ → ℕ → ℕ → Mem → Mem
grown d va p m =
    store (d, pdx va) (bit_or (bit_or (bit_or (page2pa p) pte_p) pte_u) pte_w)
      (set_ref p 1 (taken 1 p m))

-- An entry `v` at index `i` of a directory that was `w` before its entry `k` came to refer to
-- table `p`.
data Entry (w : ℕ → ℕ) (k p i v : ℕ) : Type 0 where
  fresh : i ≡ k → v / 4096 ≡ p → Entry w k p i v
  kept : i ≢ k → v ≡ w i → Entry w k p i v

Entry-exists :
    {w : ℕ → ℕ} {k p i v : ℕ} (n : ℕ)
    → Entry w k p i v
    → p < n
    → (is_present (w i) ≡ true → w i / 4096 < n)
    → is_present v ≡ true
    → v / 4096 < n
Entry-exists n (fresh e new) lt old here = ground arith
Entry-exists n (kept ne same) lt old here = ground arith

Entry-off_root :
    {w : ℕ → ℕ} {k p i v : ℕ} (d : ℕ)
    → Entry w k p i v
    → p ≢ d
    → (is_present (w i) ≡ true → w i / 4096 ≢ d)
    → is_present v ≡ true
    → v / 4096 ≢ d
Entry-off_root d (fresh e new) ne old here = ground arith
Entry-off_root d (kept other same) ne old here = ground arith

Entry-in_use :
    {w : ℕ → ℕ} {k p i v : ℕ} (ps : List ℕ)
    → Entry w k p i v
    → has p ps ≡ false
    → (is_present (w i) ≡ true → has (w i / 4096) ps ≡ false)
    → is_present v ≡ true
    → has (v / 4096) ps ≡ false
Entry-in_use ps (fresh e new) out old here = rw new out
Entry-in_use ps (kept ne same) out old here = rw same (old (rw same at here))

Entry-separate :
    {w : ℕ → ℕ} {k p i j v u : ℕ}
    → Entry w k p i v
    → Entry w k p j u
    → (is_present (w i) ≡ true → w i / 4096 ≢ p)
    → (is_present (w j) ≡ true → w j / 4096 ≢ p)
    → (is_present (w i) ≡ true → is_present (w j) ≡ true → w i / 4096 ≡ w j / 4096 → i ≡ j)
    → is_present v ≡ true
    → is_present u ≡ true
    → v / 4096 ≡ u / 4096
    → i ≡ j
Entry-separate (fresh e new) (fresh e' new') np nq old hv hu same = ground arith
Entry-separate (fresh e new) (kept ne keep) np nq old hv hu same = ground arith
Entry-separate (kept ne keep) (fresh e new) np nq old hv hu same = ground arith
Entry-separate (kept ne keep) (kept ne' keep') np nq old hv hu same = ground arith

-- Reading the grown memory.
module _ {In : ℕ → Type 0} (d va : ℕ) (m : Mem) (p : ℕ) (ps : List ℕ)
    (s : DirSpace In m d (p ∷ ps)) where
  new_ne_root : (d == p) ≡ false
  new_ne_root = ground (arith, s.root)

  pub grown_new : (j : ℕ) → (grown d va p m).word p j ≡ 0
  grown_new j = ground (arith, new_ne_root)

  pub grown_root :
      (i : ℕ)
      → (grown d va p m).word d i ≡ (
          if i == pdx va
          then bit_or (bit_or (bit_or (page2pa p) pte_p) pte_u) pte_w
          else m.word d i)
  grown_root i = ground (arith, new_ne_root)

  pub grown_other : (f j : ℕ) → f ≢ p → f ≢ d → (grown d va p m).word f j ≡ m.word f j
  grown_other f j np nd = ground arith

  module _ (low : In (pdx va)) (gone : is_present (m.word d (pdx va)) ≡ false) where
    pub grown-translate :
        (va' : ℕ) → In (pdx va') → translate (grown d va p m) d va' ≡ translate m d va'
    grown-translate va' low' = elim (Bool-cases (pdx va' == pdx va)) [
      | inl same ↦
          let e : pdx va' ≡ pdx va = eq_of_eqb _ _ same in
          let fields = new_pde_fields p (omega (arith, s.small, s.free.in_range.0)) in
          let root : (grown d va p m).word d (pdx va')
              ≡ bit_or (bit_or (bit_or (page2pa p) pte_p) pte_u) pte_w =
            rw (grown_root (pdx va'), same) in
          translate_no_page (grown d va p m) d va' p (rw root fields.1)
            (rw (grown_new (ptx va')) refl)
          ∙ sym (translate_no_table m d va' (rw e gone))
      | inr other ↦
          let root : (grown d va p m).word d (pdx va') ≡ m.word d (pdx va') =
            rw (grown_root (pdx va'), other) in
          translate-eq m d va' (grown d va p m) root λ here.
            grown_other (m.word d (pdx va') / 4096) (ptx va')
              (ground (arith, s.in_use (pdx va') low' here)) (s.off_root (pdx va') low' here)
    ]

    grown_entries : (i : ℕ) → Entry (m.word d) (pdx va) p i ((grown d va p m).word d i)
    grown_entries i = elim (Bool-cases (i == pdx va)) [
      | inl same ↦ fresh (eq_of_eqb _ _ same) (
          rw (grown_root i, same)
            ((new_pde_fields p (omega (arith, s.small, s.free.in_range.0))).1))
      | inr other ↦ kept (ground arith) (rw (grown_root i, other))
    ]

    pub grown-IsSpace : DirSpace In (grown d va p m) d ps
    grown-IsSpace = record {
      small = s.small;
      free = words-FreeList _ (set_ref p 1 (taken 1 p m)) ps (
          set_ref-FreeList p 1 (taken 1 p m) ps s.free.distinct.0 (taken-FreeList 1 m p ps s.free));
      root = ground (arith, s.root);
      exists = λ i lt here.
          Entry-exists m.npages (grown_entries i) s.free.in_range.0 (s.exists i lt) here;
      off_root = λ i lt here.
          Entry-off_root d (grown_entries i) (ground (arith, s.root)) (s.off_root i lt) here;
      in_use = λ i lt here.
          Entry-in_use ps (grown_entries i) s.free.distinct.0 (λ h. ground (arith, s.in_use i lt h))
            here;
      separate = λ i j li lj hi hj.
          Entry-separate (grown_entries i) (grown_entries j) (λ h. ground (arith, s.in_use i li h))
            (λ h. ground (arith, s.in_use j lj h)) (s.separate i j li lj) hi hj;
    }
