-- ===== src/Pmap/Entry.antt =====
-- Writing one entry of a page table: the space stays well formed, the address gets the new entry,
-- and every other page below UTOP keeps its translation.
use jos_lab.Base.{
  ℕ, ◌/◌, ◌<◌, ◌^◌, ◌≡◌, ◌≢◌, refl, ap, sym, ◌∙◌, inl, inr, true, false, some, none, List, arith,
  ◌==◌, eq_self, eq_of_eqb, ne→eqb, if◌then◌else◌, has, Bool-cases,
}
use jos_lab.Mmu.{pdx, ptx, is_present}
use jos_lab.Pmap.{Mem, store}
use jos_lab.Pmap.Free.{FreeList, words-FreeList}
use jos_lab.Pmap.Space.{translate, DirSpace, translate_no_page, translate_page, translate-eq}

-- A space whose directory row is the same, beside another list of free pages.
pub IsSpace-move :
    {In : ℕ → Type 0} {m : Mem} {d : ℕ} {ps : List ℕ}
    → DirSpace In m d ps
    → (m' : Mem) (ps' : List ℕ) → m'.npages ≡ m.npages
    → ((i : ℕ) → m'.word d i ≡ m.word d i)
    → FreeList m' ps'
    → has d ps' ≡ false
    → ((i : ℕ) → In i → is_present (m.word d i) ≡ true → has (m.word d i / 4096) ps' ≡ false)
    → DirSpace In m' d ps'
IsSpace-move s m' ps' size row v root used = record {
  small = rw size s.small;
  free = v;
  root = root;
  exists = λ i lt here. rw (row i, size) (s.exists i lt (rw (row i) at here));
  off_root = λ i lt here. rw (row i) (s.off_root i lt (rw (row i) at here));
  in_use = λ i lt here. rw (row i) (used i lt (rw (row i) at here));
  separate = λ i j li lj hi hj e.
      s.separate i j li lj (rw (row i) at hi) (rw (row j) at hj)
        (ap (λ (w : ℕ). w / 4096) (sym (row i)) ∙ e ∙ ap (λ (w : ℕ). w / 4096) (row j));
}

module _ {In : ℕ → Type 0} (m : Mem) (d va : ℕ) (ps : List ℕ) (s : DirSpace In m d ps)
    (low : In (pdx va)) (here : is_present (m.word d (pdx va)) ≡ true) (t : ℕ)
    (e : m.word d (pdx va) / 4096 ≡ t) (v : ℕ) where
  t_ne_root : t ≢ d
  t_ne_root = rw (← e) (s.off_root (pdx va) low here)

  pub store_root_row : (i : ℕ) → (store (t, ptx va) v m).word d i ≡ m.word d i
  store_root_row i = rw (ne→eqb d t (λ h. t_ne_root (sym h)))

  pub store-IsSpace : DirSpace In (store (t, ptx va) v m) d ps
  store-IsSpace =
      IsSpace-move s (store (t, ptx va) v m) ps refl store_root_row (words-FreeList _ m ps s.free)
        s.root s.in_use

  entry : (store (t, ptx va) v m).word t (ptx va) ≡ v
  entry = rw (eq_self t, eq_self (ptx va))

  pub store-translate_self :
      translate (store (t, ptx va) v m) d va ≡ (if is_present v then some v else none)
  store-translate_self = elim (Bool-cases (is_present v)) [
    | inl p ↦ rw p (
        translate_page (store (t, ptx va) v m) d va t (rw (store_root_row (pdx va)) here)
          (rw (store_root_row (pdx va)) e) (rw entry p)
        ∙ ap some entry)
    | inr p ↦ rw p (
        translate_no_page (store (t, ptx va) v m) d va t (rw (store_root_row (pdx va)) e)
          (rw entry p))
  ]

  pub store-translate_other :
      (va' : ℕ)
      → In (pdx va')
      → va < 2 ^ 32
      → va' < 2 ^ 32
      → va' / 4096 ≢ va / 4096
      → translate (store (t, ptx va) v m) d va' ≡ translate m d va'
  store-translate_other va' low' fits fits' ne =
      translate-eq m d va' (store (t, ptx va) v m) (store_root_row (pdx va')) λ here'.
        elim (Bool-cases (m.word d (pdx va') / 4096 == t)) [
          | inl same ↦
              let e' : m.word d (pdx va') / 4096 ≡ t = eq_of_eqb _ _ same in
              let i = s.separate (pdx va') (pdx va) low' low here' here (e' ∙ sym e) in
              let j : ptx va' ≢ ptx va = omega (arith, fits, fits', ne, i) in
              rw (e', eq_self t, ne→eqb (ptx va') (ptx va) j)
          | inr other ↦ rw other
        ]
