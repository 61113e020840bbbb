-- ===== src/Pmap/Lookup.antt =====
-- `page_lookup`, and what dropping a reference to a data page does to a space.
use jos_lab.Base.{
  ℕ, ◌+◌, ◌-◌, ◌/◌, ◌%◌, ◌<◌, ◌≡◌, ◌≢◌, refl, ap, sym, ◌∙◌, inl, inr, true, false, Option, some,
  none, List, ◌∷◌, arith, ◌==◌, ne→eqb, if◌then◌else◌, has, Bool-cases, ok,
}
use jos_lab.Mmu.{pdx, ptx, utop, is_present, pte_addr}
use jos_lab.Pmap.{
  Mem, PtePtr, set_ref, pa2page, page_lookup, page_decref, page_free, tlb_invalidate,
}
use jos_lab.Pmap.Free.{FreeList, page_decref-FreeList}
use jos_lab.Pmap.Space.{translate, IsSpace, pdx-lt}
use jos_lab.Pmap.Walk.{pgdir_walk_found, pgdir_walk_lookup}
use jos_lab.Pmap.Entry.{IsSpace-move}

-- A page that serves as data: it exists, somebody refers to it, and it is neither the directory
-- nor one of its tables.
pub record IsData (m : Mem) (d q : ℕ) : Type 0 where
  pub exists : q < m.npages
  pub counted : 0 < (m.pages q).pp_ref
  pub small : (m.pages q).pp_ref < 65536
  pub off_root : q ≢ d
  pub off_tables : (i : ℕ) → i < pdx utop → is_present (m.word d i) ≡ true → m.word d i / 4096 ≢ q

pub pa2page-ok : (m : Mem) (w : ℕ) → w / 4096 < m.npages → pa2page m (pte_addr w) ≡ ok (w / 4096)
unfolding pa2page
pa2page-ok m w h = ground arith

words-page_free :
    (q : ℕ) (m : Mem) → ((page_free q m).word ≡ m.word) × ((page_free q m).npages ≡ m.npages)
unfolding page_free
words-page_free q m = ground arith

pub words-page_decref :
    (q : ℕ) (m : Mem) → ((page_decref q m).word ≡ m.word) × ((page_decref q m).npages ≡ m.npages)
unfolding page_decref
words-page_decref q m = elim (Bool-cases (((m.pages q).pp_ref + 65535) % 65536 == 0)) [
  | inl last ↦ rw last (words-page_free q (set_ref q (((m.pages q).pp_ref + 65535) % 65536) m))
  | inr more ↦ rw more (refl, refl)
]

refs-page_free : (q r : ℕ) (m : Mem) → ((page_free q m).pages r).pp_ref ≡ (m.pages r).pp_ref
unfolding page_free
refs-page_free q r m = ground arith

pub refs-page_decref :
    (q r : ℕ) (m : Mem) → r ≢ q → ((page_decref q m).pages r).pp_ref ≡ (m.pages r).pp_ref
unfolding page_decref
refs-page_decref q r m ne = elim (Bool-cases (((m.pages q).pp_ref + 65535) % 65536 == 0)) [
  | inl last ↦ rw last (
      refs-page_free q r (set_ref q (((m.pages q).pp_ref + 65535) % 65536) m)
      ∙ rw (ne→eqb r q ne) refl)
  | inr more ↦ rw (more, ne→eqb r q ne) refl
]

pub tlb_invalidate-log :
    (cur : Option ℕ) (d va : ℕ) (m : Mem)
    → (l : List ℕ) × (tlb_invalidate cur d va m ≡ record m { invlpg = l })
unfolding tlb_invalidate
tlb_invalidate-log none d va m = (va ∷ m.invlpg, refl)
tlb_invalidate-log (some c) d va m = elim (Bool-cases (c == d)) [
  | inl h ↦ (va ∷ m.invlpg, rw h)
  | inr h ↦ (m.invlpg, rw h)
]

pub some-inj : (x y : ℕ) → ◌≡◌ {A = Option ℕ} (some x) (some y) → x ≡ y
some-inj x y e = cc

pub some-ne-none : (x : ℕ) → ◌≡◌ {A = Option ℕ} (some x) none → ⊥
some-ne-none x e = cc

module _ (d va : ℕ) (m : Mem) (ps : List ℕ) (s : IsSpace m d ps) (low : va < utop) where
  pub page_lookup_mapped :
      is_present (m.word d (pdx va)) ≡ true
      → (t : ℕ) → m.word d (pdx va) / 4096 ≡ t
      → is_present (m.word t (ptx va)) ≡ true
      → m.word t (ptx va) / 4096 < m.npages
      → page_lookup d va m ≡ ok (some (m.word t (ptx va) / 4096), some (t, ptx va))
  unfolding page_lookup
  page_lookup_mapped here t e there inside =
      rw
        (
          pgdir_walk_found d va false m ps s (pdx-lt va low) here,
          e,
          there,
          pa2page-ok m (m.word t (ptx va)) inside,
        )
        refl

  pub page_lookup_unmapped :
      translate m d va ≡ none → (o : Option PtePtr) × (page_lookup d va m ≡ ok (none, o))
  unfolding page_lookup translate
  page_lookup_unmapped gone = elim (Bool-cases (is_present (m.word d (pdx va)))) [
    | inl here ↦ (
      some (m.word d (pdx va) / 4096, ptx va),
      rw (pgdir_walk_found d va false m ps s (pdx-lt va low) here)
          (elim (Bool-cases (is_present (m.word (m.word d (pdx va) / 4096) (ptx va)))) [
            | inl there ↦ absurd (some-ne-none _ (rw (here, there) at gone))
            | inr absent ↦ rw absent refl
          ]),
    )
    | inr no_table ↦ (none, rw (pgdir_walk_lookup d va m no_table) refl)
  ]

-- The free pages once a reference to `q` is dropped.
abbrev pub dropped : ℕ → Mem → List ℕ → List ℕ
dropped q m ps = if (m.pages q).pp_ref - 1 == 0 then q ∷ ps else ps

module _ (d q : ℕ) (m : Mem) (ps : List ℕ) (s : IsSpace m d ps) (v : IsData m d q) where
  pub has-dropped : (r : ℕ) → r ≢ q → has r ps ≡ false → has r (dropped q m ps) ≡ false
  has-dropped r ne out = elim (Bool-cases ((m.pages q).pp_ref - 1 == 0)) [
    | inl last ↦ rw (last, ne→eqb r q ne) out
    | inr more ↦ rw more out
  ]

  pub page_decref-lem :
      (((page_decref q m).pages q).pp_ref ≡ (m.pages q).pp_ref - 1)
      × FreeList (page_decref q m) (dropped q m ps)
  page_decref-lem =
      page_decref-FreeList q ((m.pages q).pp_ref - 1) m ps v.exists
        (omega (arith, v.counted, v.small)) (omega (arith, v.counted)) s.free

  pub page_decref-IsSpace : IsSpace (page_decref q m) d (dropped q m ps)
  page_decref-IsSpace =
      IsSpace-move s (page_decref q m) (dropped q m ps) ((words-page_decref q m).1)
        (λ i. ap (λ (w : ℕ → ℕ → ℕ). w d i) ((words-page_decref q m).0)) (page_decref-lem.1)
        (has-dropped d (λ h. v.off_root (sym h)) s.root)
        λ i lt here. has-dropped (m.word d i / 4096) (v.off_tables i lt here) (s.in_use i lt here)
