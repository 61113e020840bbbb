-- ===== src/Pmap/Remove.antt =====
-- `page_remove`: the address is unmapped, the page loses one reference and is freed with the last
-- one, and nothing else changes.
use jos_lab.Base.{
  arith, inl, inr, ℕ, ◌-◌, ◌/◌, ◌<◌, ◌≡◌, ◌≢◌, ◌⊎◌, refl, ap, ◌∙◌, true, Option, some, none, List,
  ok,
}
use jos_lab.Mmu.{pdx, ptx, utop, is_present}
use jos_lab.Pmap.{Mem, store, page_decref, tlb_invalidate, page_remove}
use jos_lab.Pmap.Free.{invlpg-FreeList}
use jos_lab.Pmap.Space.{translate-cases, translate, IsSpace, pdx-lt, translate-eq}
use jos_lab.Pmap.Lookup.{
  IsData, words-page_decref, refs-page_decref, tlb_invalidate-log, page_lookup_mapped,
  page_lookup_unmapped, dropped, page_decref-lem, page_decref-IsSpace,
}
use jos_lab.Pmap.Entry.{
  store_root_row, IsSpace-move, store-IsSpace, store-translate_self, store-translate_other,
}

pub translate-words :
    (m m' : Mem) (d va : ℕ) → m'.word ≡ m.word → translate m' d va ≡ translate m d va
translate-words m m' d va e =
    translate-eq m d va m' (ap (λ (w : ℕ → ℕ → ℕ). w d (pdx va)) e)
      λ _. ap (λ (w : ℕ → ℕ → ℕ). w (m.word d (pdx va) / 4096) (ptx va)) e

-- The memory once `va`, which page `q` was mapped at, is unmapped.
pub record Unmapped (d va q : ℕ) (m : Mem) (ps : List ℕ) (m' : Mem) : Type 0 where
  pub space : IsSpace m' d (dropped q m ps)
  pub size : m'.npages ≡ m.npages
  pub root_row : (i : ℕ) → m'.word d i ≡ m.word d i
  pub self : translate m' d va ≡ none
  pub other :
      (va' : ℕ) → va' < utop → va' / 4096 ≢ va / 4096 → translate m' d va' ≡ translate m d va'
  pub count : (m'.pages q).pp_ref ≡ (m.pages q).pp_ref - 1
  pub counts : (r : ℕ) → r ≢ q → (m'.pages r).pp_ref ≡ (m.pages r).pp_ref

pub page_remove-none :
    (cur : Option ℕ) (d va : ℕ) (m : Mem) (ps : List ℕ)
    → IsSpace m d ps
    → va < utop
    → translate m d va ≡ none
    → page_remove cur d va m ≡ ok m
unfolding page_remove
page_remove-none cur d va m ps s low gone = rw ((page_lookup_unmapped d va m ps s low gone).1) refl

module _ (cur : Option ℕ) (d va : ℕ) (m : Mem) (ps : List ℕ) (s : IsSpace m d ps) (low : va < utop)
    (here : is_present (m.word d (pdx va)) ≡ true) (t : ℕ) (e : m.word d (pdx va) / 4096 ≡ t)
    (there : is_present (m.word t (ptx va)) ≡ true) (q : ℕ) (f : m.word t (ptx va) / 4096 ≡ q)
    (v : IsData m d q) where
  flushed : Mem
  flushed = tlb_invalidate cur d va (page_decref q m)

  words_flushed : flushed.word ≡ m.word
  unfolding flushed
  words_flushed = rw ((tlb_invalidate-log cur d va (page_decref q m)).1) ((words-page_decref q m).0)

  size_flushed : flushed.npages ≡ m.npages
  unfolding flushed
  size_flushed = rw ((tlb_invalidate-log cur d va (page_decref q m)).1) ((words-page_decref q m).1)

  flushed-IsSpace : IsSpace flushed d (dropped q m ps)
  unfolding flushed
  flushed-IsSpace =
      let base = page_decref-IsSpace d q m ps s v in
      rw ((tlb_invalidate-log cur d va (page_decref q m)).1) (
        IsSpace-move base _ (dropped q m ps) refl (λ i. refl)
          (invlpg-FreeList _ (page_decref q m) (dropped q m ps) base.free) base.root base.in_use)

  page_remove_runs : page_remove cur d va m ≡ ok (store (t, ptx va) 0 flushed)
  unfolding page_remove flushed
  page_remove_runs = rw (page_lookup_mapped d va m ps s low here t e there (rw f v.exists), f) refl

  pages_flushed : flushed.pages ≡ (page_decref q m).pages
  unfolding flushed
  pages_flushed = rw ((tlb_invalidate-log cur d va (page_decref q m)).1) refl

  row : (i : ℕ) → flushed.word d i ≡ m.word d i
  row i = ap (λ (w : ℕ → ℕ → ℕ). w d i) words_flushed

  removed-Unmapped : Unmapped d va q m ps (store (t, ptx va) 0 flushed)
  removed-Unmapped = record {
    space =
        store-IsSpace flushed d va (dropped q m ps) flushed-IsSpace (pdx-lt va low) here' t e' 0;
    size = size_flushed;
    root_row = λ i.
        store_root_row flushed d va (dropped q m ps) flushed-IsSpace (pdx-lt va low) here' t e' 0 i
        ∙ row i;
    self =
        store-translate_self flushed d va (dropped q m ps) flushed-IsSpace (pdx-lt va low) here' t
          e' 0;
    other = λ va' low' ne.
        store-translate_other flushed d va (dropped q m ps) flushed-IsSpace (pdx-lt va low) here' t
          e' 0 va' (pdx-lt va' low') (omega (arith, low)) (omega (arith, low')) ne
        ∙ translate-words m flushed d va' words_flushed;
    count = rw pages_flushed ((page_decref-lem d q m ps s v).0);
    counts = λ r ne. rw pages_flushed (refs-page_decref q r m ne);
  }
    where
      here' : is_present (flushed.word d (pdx va)) ≡ true
      here' = rw (row (pdx va)) here

      e' : flushed.word d (pdx va) / 4096 ≡ t
      e' = rw (row (pdx va)) e

  pub removed : (m' : Mem) × (page_remove cur d va m ≡ ok m') × Unmapped d va q m ps m'
  removed = (store (t, ptx va) 0 flushed, page_remove_runs, removed-Unmapped)

-- In a well-formed space, with `va` below UTOP and any page mapped there a data page,
-- `page_remove` returns. If nothing is mapped at `va` it changes nothing. If a page is, `va`
-- translates to nothing afterwards, other pages keep their translation, the page loses one
-- reference and no other count changes, the space stays well formed, and with its last reference
-- gone the page is the first free one.
pub page_remove_lem :
    (cur : Option ℕ) (d va : ℕ) (m : Mem) (ps : List ℕ)
    → IsSpace m d ps
    → va < utop
    → ((w : ℕ) → translate m d va ≡ some w → IsData m d (w / 4096))
    → (m' : Mem) × (page_remove cur d va m ≡ ok m')
      × (((translate m d va ≡ none) × (m' ≡ m))
          ⊎ ((w : ℕ) × (translate m d va ≡ some w) × Unmapped d va (w / 4096) m ps m'))
page_remove_lem cur d va m ps s low occupant = elim (translate-cases m d va) [
  | inl gone ↦ (m, page_remove-none cur d va m ps s low gone, inl (gone, refl))
  | inr (here, there, e) ↦
      let w0 = m.word (m.word d (pdx va) / 4096) (ptx va) in
      let (m', runs, u) =
        removed cur d va m ps s low here (m.word d (pdx va) / 4096) refl there (w0 / 4096) refl
          (occupant w0 e) in
      (m', runs, inr (w0, e, u))
]
