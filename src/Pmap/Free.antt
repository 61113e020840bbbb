-- ===== src/Pmap/Free.antt =====
-- The list of free pages behind `page_alloc`, `page_free` and `page_decref`: from
-- `page_free_list` the `pp_link` pointers lead through the pages of an abstract stack.
use jos_lab.Base.{
  ℕ, ◌+◌, ◌%◌, ◌^◌, ◌≤◌, ◌<◌, ◌≡◌, ◌≢◌, refl, sym, ◌∙◌, true, false, ◌&&◌, Option, none, some, List,
  [], ◌∷◌, arith, ◌==◌, eq_self, eq_of_eqb, if◌then◌else◌, update, Bool-cases, inl, inr, All, has,
  Distinct, ok,
}
use jos_lab.Pmap.{PageInfo, Mem, set_ref, page_alloc, page_free, page_decref}

abbrev pub Chain : (ℕ → PageInfo) → Option ℕ → List ℕ → Type 0
Chain pages head [] = head ≡ none
Chain pages head (p ∷ ps) = (head ≡ some p) × Chain pages (pages p).pp_link ps

-- The free pages are those of `ps`, in order: they exist, nobody refers to them, and none stands
-- in the list twice.
pub record FreeList (m : Mem) (ps : List ℕ) : Type 0 where
  pub chain : Chain m.pages m.page_free_list ps
  pub in_range : All (λ p. p < m.npages) ps
  pub unreferenced : All (λ p. (m.pages p).pp_ref ≡ 0) ps
  pub distinct : Distinct ps

-- A change to a page off the list.
pub Chain-update :
    (pages : ℕ → PageInfo) (head : Option ℕ) (ps : List ℕ) (q : ℕ) (new : PageInfo)
    → has q ps ≡ false
    → Chain pages head ps
    → Chain (update pages q new) head ps
Chain-update pages head [] q new out c = c
Chain-update pages head (p ∷ ps) q new out (e, c) =
    (e, ground (arith, Chain-update pages (pages p).pp_link ps q new))

pub refs-update :
    (pages : ℕ → PageInfo) (ps : List ℕ) (q : ℕ) (new : PageInfo)
    → has q ps ≡ false
    → All (λ p. (pages p).pp_ref ≡ 0) ps
    → All (λ p. (update pages q new p).pp_ref ≡ 0) ps
refs-update pages [] q new out c = c
refs-update pages (p ∷ ps) q new out (e, c) =
    (ground arith, refs-update pages ps q new (ground arith) c)

-- A page that somebody refers to is not free.
pub not-free_of_ref :
    (pages : ℕ → PageInfo) (ps : List ℕ) (q : ℕ)
    → All (λ p. (pages p).pp_ref ≡ 0) ps
    → (pages q).pp_ref ≢ 0
    → has q ps ≡ false
not-free_of_ref pages [] q c ne = refl
not-free_of_ref pages (p ∷ ps) q (e, c) ne = ground (arith, not-free_of_ref pages ps q c ne)

pub set_ref-FreeList :
    (q n : ℕ) (m : Mem) (ps : List ℕ)
    → has q ps ≡ false
    → FreeList m ps
    → FreeList (set_ref q n m) ps
set_ref-FreeList q n m ps out v = record {
  chain = Chain-update m.pages m.page_free_list ps q _ out v.chain;
  in_range = v.in_range;
  unreferenced = refs-update m.pages ps q _ out v.unreferenced;
  distinct = v.distinct;
}

-- The words of memory do not matter, nor does the log of flushes.
pub words-FreeList :
    (w : ℕ → ℕ → ℕ) (m : Mem) (ps : List ℕ) → FreeList m ps → FreeList (record m { word = w }) ps
words-FreeList w m ps v = record {
  chain = v.chain;
  in_range = v.in_range;
  unreferenced = v.unreferenced;
  distinct = v.distinct;
}

pub invlpg-FreeList :
    (l : List ℕ) (m : Mem) (ps : List ℕ) → FreeList m ps → FreeList (record m { invlpg = l }) ps
invlpg-FreeList l m ps v = record {
  chain = v.chain;
  in_range = v.in_range;
  unreferenced = v.unreferenced;
  distinct = v.distinct;
}

-- The memory after `page_alloc` took page `p`.
abbrev pub taken : ℕ → ℕ → Mem → Mem
taken flags p m = record m {
  page_free_list = (m.pages p).pp_link;
  word = λ g j. if (flags % 2 == 1) && (g == p) then 0 else m.word g j;
}

pub page_alloc-cons :
    (flags : ℕ) (m : Mem) (p : ℕ) (ps : List ℕ)
    → m.npages ≤ 2 ^ 20
    → FreeList m (p ∷ ps)
    → page_alloc flags m ≡ ok (some p, taken flags p m)
unfolding page_alloc
page_alloc-cons flags m p ps small v = elim (Bool-cases (flags % 2 == 1)) [
  | inl zero_it ↦ rw zero_it (ground arith)
  | inr keep ↦ rw keep (ground arith)
]

pub taken-FreeList :
    (flags : ℕ) (m : Mem) (p : ℕ) (ps : List ℕ)
    → FreeList m (p ∷ ps)
    → FreeList (taken flags p m) ps
taken-FreeList flags m p ps v = record {
  chain = v.chain.1;
  in_range = v.in_range.1;
  unreferenced = v.unreferenced.1;
  distinct = v.distinct.1;
}

-- What `page_alloc` does at a stack of free pages.
abbrev pub Pops : ℕ → Mem → List ℕ → Type 0
Pops flags m [] = page_alloc flags m ≡ ok (none, m)
Pops flags m (p ∷ ps) =
    (m' : Mem) × (page_alloc flags m ≡ ok (some p, m'))
    × FreeList m' ps
    × (m'.pages ≡ m.pages)
    × ((f j : ℕ) → f ≢ p → m'.word f j ≡ m.word f j)
    × ((j : ℕ) → m'.word p j ≡ (if flags % 2 == 1 then 0 else m.word p j))

-- On a kernel with at most 2 ^ 20 pages and a well-formed free list, `page_alloc` returns the
-- first free page and leaves the others free, in order; it changes no page's record; with
-- `ALLOC_ZERO` it clears that page, without it that page keeps its words, and no word of another
-- page changes. With no free page it returns NULL and changes nothing.
pub page_alloc-pop :
    (flags : ℕ) (m : Mem) (ps : List ℕ) → m.npages ≤ 2 ^ 20 → FreeList m ps → Pops flags m ps
unfolding page_alloc
page_alloc-pop flags m [] small v = ground arith
page_alloc-pop flags m (p ∷ ps) small v = (
  taken flags p m,
  page_alloc-cons flags m p ps small v,
  taken-FreeList flags m p ps v,
  ground arith,
  λ f j ne. ground arith,
  λ j. ground arith,
)

-- Giving an existing page that nobody refers to and that is not free back, with a well-formed
-- free list, puts it on top of the free pages.
pub page_free-FreeList :
    (pp : ℕ) (m : Mem) (ps : List ℕ)
    → pp < m.npages
    → has pp ps ≡ false
    → (m.pages pp).pp_ref ≡ 0
    → FreeList m ps
    → FreeList (page_free pp m) (pp ∷ ps)
unfolding page_free
page_free-FreeList pp m ps lt out e v = rw (ground_zero e) (record {
  chain = (refl, rw (eq_self pp) (Chain-update m.pages m.page_free_list ps pp _ out v.chain));
  in_range = (lt, v.in_range);
  unreferenced = (rw (eq_self pp) e, refs-update m.pages ps pp _ out v.unreferenced);
  distinct = (out, v.distinct);
})
  where
    ground_zero : (m.pages pp).pp_ref ≡ 0 → ((m.pages pp).pp_ref == 0) ≡ true
    ground_zero h = ground arith

pub npages-page_free : (pp : ℕ) (m : Mem) → (page_free pp m).npages ≡ m.npages
unfolding page_free
npages-page_free pp m = ground arith

-- On a kernel with at most 2 ^ 20 pages and a well-formed free list, a page that nobody refers to
-- and that is not free, once given back, is the next one handed out, and then the free pages are
-- as before.
pub page_alloc-page_free :
    (pp : ℕ) (m : Mem) (ps : List ℕ)
    → m.npages ≤ 2 ^ 20
    → pp < m.npages
    → has pp ps ≡ false
    → (m.pages pp).pp_ref ≡ 0
    → FreeList m ps
    → (m' : Mem) × (page_alloc 0 (page_free pp m) ≡ ok (some pp, m')) × FreeList m' ps
page_alloc-page_free pp m ps small lt out e v =
    let w = page_free-FreeList pp m ps lt out e v in
    (
      taken 0 pp (page_free pp m),
      page_alloc-cons 0 (page_free pp m) pp ps (rw npages-page_free small) w,
      taken-FreeList 0 (page_free pp m) pp ps w,
    )

page_decref_last :
    (pp : ℕ) (m : Mem) → (m.pages pp).pp_ref ≡ 1 → page_decref pp m ≡ page_free pp (set_ref pp 0 m)
unfolding page_decref
page_decref_last pp m e = rw e refl

page_decref_more :
    (pp n : ℕ) (m : Mem)
    → n < 65535
    → (m.pages pp).pp_ref ≡ n + 1
    → (n == 0) ≡ false
    → page_decref pp m ≡ set_ref pp n m
unfolding page_decref
page_decref_more pp n m fits e more =
    let wrap : ((m.pages pp).pp_ref + 65535) % 65536 ≡ n = omega arith in rw (wrap, more) refl

ref-page_free : (pp q : ℕ) (m : Mem) → ((page_free pp m).pages q).pp_ref ≡ (m.pages q).pp_ref
unfolding page_free
ref-page_free pp q m = ground arith

-- With a well-formed free list, dropping a reference to an existing page that has `n + 1` of
-- them, at most 65535, leaves it `n`; the last one frees it. The other free pages stay as they
-- are.
pub page_decref-FreeList :
    (pp n : ℕ) (m : Mem) (ps : List ℕ)
    → pp < m.npages
    → n < 65535
    → (m.pages pp).pp_ref ≡ n + 1
    → FreeList m ps
    → ((page_decref pp m).pages pp).pp_ref ≡ n
      × FreeList (page_decref pp m) (if n == 0 then pp ∷ ps else ps)
page_decref-FreeList pp n m ps lt fits e v = elim (Bool-cases (n == 0)) [
  | inl last ↦
      let zero_ref : n ≡ 0 = eq_of_eqb n 0 last in
      let none_left : ((set_ref pp 0 m).pages pp).pp_ref ≡ 0 = rw (eq_self pp) refl in
      rw (page_decref_last pp m (omega arith), last)
        (
          ref-page_free pp pp (set_ref pp 0 m) ∙ none_left ∙ sym zero_ref,
          page_free-FreeList pp (set_ref pp 0 m) ps lt out none_left
              (set_ref-FreeList pp 0 m ps out v),
        )
  | inr more ↦
      rw (page_decref_more pp n m fits e more, more)
        (rw (eq_self pp) refl, set_ref-FreeList pp n m ps out v)
]
  where
    out : has pp ps ≡ false
    out = not-free_of_ref m.pages ps pp v.unreferenced (omega arith)
