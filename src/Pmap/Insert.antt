-- ===== src/Pmap/Insert.antt =====
-- `page_insert`: the address translates to the new entry, every other page keeps its translation,
-- and each reference count moves by what was mapped and unmapped.
use jos_lab.Base.{
  ℕ, ◌+◌, ◌/◌, ◌%◌, ◌^◌, ◌≤◌, ◌<◌, length, none, ◌≡◌, ◌≢◌, refl, ap, sym, ◌∙◌, inl, inr, true,
  false, Option, some, List, [], arith, ◌==◌, eq_of_eqb, if◌then◌else◌, has, Bool-cases, ne→eqb, ok,
  bit_or, ◌⊎◌,
}
use jos_lab.Mmu.{pdx, ptx, utop, is_present, pte_p}
use jos_lab.Kernel.{ret, err, e_no_mem}
use jos_lab.Pmap.{PageInfo, Mem, store, set_ref, page2pa, page_insert}
use jos_lab.Pmap.Free.{set_ref-FreeList}
use jos_lab.Pmap.Space.{translate, IsSpace, pdx-lt, pte_fields, translate_no_table}
use jos_lab.Pmap.Walk.{stay, Walked, TablesFrom, OffTables, TablesFrom-off, pgdir_walk_lem}
use jos_lab.Pmap.Entry.{
  IsSpace-move, store_root_row, store-IsSpace, store-translate_self, store-translate_other,
}
use jos_lab.Pmap.Lookup.{IsData, some-ne-none}
use jos_lab.Pmap.Remove.{translate-words}
use jos_lab.Pmap.Displace.{refs_at, displace_lem}

-- The entry that maps page `pp`.
abbrev pub pte_of : ℕ → ℕ → ℕ
pte_of pp perm = bit_or (bit_or (page2pa pp) perm) pte_p

-- The memory once `pp` is mapped at `va` with `perm`.
pub record Inserted (d pp va perm : ℕ) (m : Mem) (ps : List ℕ) (m' : Mem) : Type 0 where
  pub free_after : List ℕ
  pub space : IsSpace m' d free_after
  pub self : translate m' d va ≡ some (pte_of pp perm)
  pub other :
      (va' : ℕ) → va' < utop → va' / 4096 ≢ va / 4096 → translate m' d va' ≡ translate m d va'
  pub counts :
      (q : ℕ)
      → has q ps ≡ false
      → (m'.pages q).pp_ref + refs_at (translate m d va) q
        ≡ (m.pages q).pp_ref + (if q == pp then 1 else 0)
  pub spare : translate m d va ≡ none → length ps ≤ length free_after + 1
  pub shrinks : translate m d va ≡ none → (q : ℕ) → has q ps ≡ false → has q free_after ≡ false
  pub tables : TablesFrom d m ps m'
  pub words :
      translate m d va ≡ none
      → (g j : ℕ) → g ≢ d
      → has g ps ≡ false
      → OffTables d m g
      → m'.word g j ≡ m.word g j

-- The last two assignments of `page_insert`, from a memory in which the table is there.
module _ (d pp va perm : ℕ) (r : Mem) (rs : List ℕ) (s : IsSpace r d rs) (low : va < utop)
    (here : is_present (r.word d (pdx va)) ≡ true) (t : ℕ) (e : r.word d (pdx va) / 4096 ≡ t)
    (small : pp < 2 ^ 20) (flags : perm < 4096) (out : has pp rs ≡ false) where
  abbrev written : Mem
  written = store (t, ptx va) (pte_of pp perm) (set_ref pp (((r.pages pp).pp_ref + 1) % 65536) r)

  counted-IsSpace : IsSpace (set_ref pp (((r.pages pp).pp_ref + 1) % 65536) r) d rs
  counted-IsSpace =
      IsSpace-move s _ rs refl (λ i. refl) (set_ref-FreeList pp _ r rs out s.free) s.root s.in_use

  written-IsSpace : IsSpace written d rs
  written-IsSpace =
      store-IsSpace _ d va rs counted-IsSpace (pdx-lt va low) here t e (pte_of pp perm)

  written_row : (i : ℕ) → written.word d i ≡ r.word d i
  written_row i =
      store_root_row _ d va rs counted-IsSpace (pdx-lt va low) here t e (pte_of pp perm) i

  written_self : translate written d va ≡ some (pte_of pp perm)
  written_self =
      let p : is_present (pte_of pp perm) ≡ true =
        ap (λ (b : ℕ). b == 1) ((pte_fields (page2pa pp) perm (omega arith) flags).0) in
      store-translate_self _ d va rs counted-IsSpace (pdx-lt va low) here t e (pte_of pp perm)
      ∙ rw p refl

  written-other :
      (va' : ℕ) → va' < utop → va' / 4096 ≢ va / 4096 → translate written d va' ≡ translate r d va'
  written-other va' low' ne =
      store-translate_other _ d va rs counted-IsSpace (pdx-lt va low) here t e (pte_of pp perm) va'
        (pdx-lt va' low') (omega (arith, low)) (omega (arith, low')) ne
      ∙ translate-words r (set_ref pp _ r) d va' refl

  written-count :
      (q : ℕ)
      → (r.pages pp).pp_ref < 65535
      → (written.pages q).pp_ref ≡ (r.pages q).pp_ref + (if q == pp then 1 else 0)
  written-count q fits = elim (Bool-cases (q == pp)) [
    | inl same ↦ rw (same, eq_of_eqb q pp same) (omega arith)
    | inr other ↦ rw other (omega arith)
  ]

module _ (cur : Option ℕ) (d pp va perm : ℕ) (m : Mem) (ps : List ℕ) (s : IsSpace m d ps)
    (low : va < utop) (small : pp < 2 ^ 20) (flags : perm < 4096) (held : has pp ps ≡ false)
    (fits : (m.pages pp).pp_ref < 65535)
    (occupant : (w : ℕ) → translate m d va ≡ some w → IsData m d (w / 4096)) where
  insert_into :
      (t : ℕ) (w : Mem) (ws : List ℕ)
      → Walked d va m ps t w ws
      → ((x : ℕ) → translate w d va ≡ some x → IsData w d (x / 4096))
      → (m' : Mem) × (page_insert cur d pp va perm m ≡ ok (ret 0, m'))
        × Inserted d pp va perm m ps m'
  unfolding page_insert
  insert_into t w ws k occupied =
      let (r, runs, x) =
        displace_lem cur d pp va w ws k.space low k.here t k.table small (k.shrinks pp held)
          occupied in
      let here' : is_present (r.word d (pdx va)) ≡ true = rw (x.row (pdx va)) k.here in
      let table' : r.word d (pdx va) / 4096 ≡ t = rw (x.row (pdx va)) k.table in
      let room : (r.pages pp).pp_ref < 65535 =
        omega (arith, x.counts pp, ap (λ (i : PageInfo). i.pp_ref) (k.pages pp held)) in
      (
        written d pp va perm r x.left x.space low here' t table' small flags x.out,
        rw (k.runs, runs) refl,
        record {
          free_after = x.left;
          space =
              written-IsSpace d pp va perm r x.left x.space low here' t table' small flags x.out;
          self = written_self d pp va perm r x.left x.space low here' t table' small flags x.out;
          other = λ va' low' ne.
              written-other d pp va perm r x.left x.space low here' t table' small flags x.out va'
                low' ne
              ∙ x.other va' low' ne
              ∙ k.same va' low';
          counts = λ q out. omega (
            arith,
            written-count d pp va perm r x.left x.space low here' t table' small flags x.out q room,
            ap (λ (o : Option ℕ). refs_at o q) (k.same va low),
            x.counts q,
            ap (λ (i : PageInfo). i.pp_ref) (k.pages q out),
          );
          spare = λ gone. rw (x.kept (k.same va low ∙ gone)) k.spare;
          tables = λ i lt there.
              let row =
                written_row d pp va perm r x.left x.space low here' t table' small flags x.out i
                ∙ x.row i in
              rw row (k.tables i lt (rw row at there));
          words = λ gone g j ne out off.
              let apart : g ≢ t = λ e.
                TablesFrom-off d m ps w g k.tables out off (pdx va) (pdx-lt va low) k.here
                  (k.table ∙ sym e) in
              rw (ne→eqb g t apart) refl ∙ x.words (k.same va low ∙ gone) g j ∙ k.words g j ne out;
          shrinks = λ gone q out. rw (x.kept (k.same va low ∙ gone)) (k.shrinks q out);
        },
      )

  -- In a well-formed space, below UTOP, with a page that is not free and whose count has room, with
  -- 12-bit permissions, and with any page mapped at `va` a data page: `page_insert` either reports
  -- no memory and changes nothing, when there is no table for `va` and no free page, or returns 0
  -- with `va` translating to the entry for the page, every other page translating as before, and
  -- each page that was not free counting one more reference if it was mapped and one less if it
  -- was unmapped.
  pub page_insert_lem :
      (is_present (m.word d (pdx va)) ≡ false)
        × (ps ≡ [])
        × (page_insert cur d pp va perm m ≡ ok (err e_no_mem, m))
      ⊎ ((m' : Mem) × (page_insert cur d pp va perm m ≡ ok (ret 0, m'))
          × Inserted d pp va perm m ps m')
  unfolding page_insert
  page_insert_lem = elim (Bool-cases (is_present (m.word d (pdx va)))) [
    | inl here ↦
        inr (insert_into (m.word d (pdx va) / 4096) m ps (stay d va m ps s low here) occupant)
    | inr gone ↦ elim ((pgdir_walk_lem d va m ps s low).0) [
      | inl (no_table, full, runs) ↦ inl (no_table, full, rw runs refl)
      | inr (t, w, ws, k) ↦ inr (
          insert_into t w ws k
            λ x e. absurd (some-ne-none x (sym e ∙ k.same va low ∙ translate_no_table m d va gone)))
    ]
  ]
