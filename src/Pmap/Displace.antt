-- ===== src/Pmap/Displace.antt =====
-- What `page_insert` does about the page that is mapped at the address already: nothing, one
-- reference less to the same page, or `page_remove`.
use jos_lab.Base.{
  ℕ, ◌+◌, ◌/◌, ◌%◌, ◌^◌, ◌<◌, ◌≡◌, ◌≢◌, refl, sym, ◌∙◌, inl, inr, true, false, Option, some, none,
  List, arith, ◌==◌, eq_of_eqb, if◌then◌else◌, has, Bool-cases, ok,
}
use jos_lab.Mmu.{pdx, ptx, utop, is_present, pte_addr}
use jos_lab.Pmap.{Mem, set_ref, page2pa, displace}
use jos_lab.Pmap.Free.{invlpg-FreeList, set_ref-FreeList}
use jos_lab.Pmap.Space.{translate, IsSpace, translate_page, translate_no_page}
use jos_lab.Pmap.Entry.{IsSpace-move}
use jos_lab.Pmap.Lookup.{IsData, some-ne-none, dropped, has-dropped, tlb_invalidate-log}
use jos_lab.Pmap.Remove.{Unmapped, removed, translate-words}

-- The references to page `q` from what an address translates to.
abbrev pub refs_at : Option ℕ → ℕ → ℕ
refs_at none q = 0
refs_at (some w) q = if w / 4096 == q then 1 else 0

Unmapped-counts :
    {d va : ℕ} {m m' : Mem} {ps : List ℕ} (x : ℕ)
    → Unmapped d va (x / 4096) m ps m'
    → 0 < (m.pages (x / 4096)).pp_ref
    → (q : ℕ) → (m'.pages q).pp_ref + refs_at (some x) q ≡ (m.pages q).pp_ref
Unmapped-counts x u counted q = elim (Bool-cases (x / 4096 == q)) [
  | inl same ↦ rw (same, ← eq_of_eqb (x / 4096) q same, u.count) (omega arith)
  | inr other ↦ rw (other, u.counts q (λ h. ground arith)) (omega arith)
]

-- Room is made for page `pp` at `va`: whatever was mapped there has lost its reference.
pub record Displaced (d pp va : ℕ) (w : Mem) (ws : List ℕ) (r : Mem) : Type 0 where
  pub left : List ℕ
  pub space : IsSpace r d left
  pub out : has pp left ≡ false
  pub row : (i : ℕ) → r.word d i ≡ w.word d i
  pub other :
      (va' : ℕ) → va' < utop → va' / 4096 ≢ va / 4096 → translate r d va' ≡ translate w d va'
  pub counts : (q : ℕ) → (r.pages q).pp_ref + refs_at (translate w d va) q ≡ (w.pages q).pp_ref
  pub kept : translate w d va ≡ none → left ≡ ws
  pub words : translate w d va ≡ none → (g j : ℕ) → r.word g j ≡ w.word g j

module _ (cur : Option ℕ) (d pp va : ℕ) (w : Mem) (ws : List ℕ) (s : IsSpace w d ws)
    (low : va < utop) (here : is_present (w.word d (pdx va)) ≡ true) (t : ℕ)
    (e : w.word d (pdx va) / 4096 ≡ t) (small : pp < 2 ^ 20) (out : has pp ws ≡ false) where
  displace_nothing :
      is_present (w.word t (ptx va)) ≡ false
      → (displace cur d pp va (t, ptx va) w ≡ ok w) × Displaced d pp va w ws w
  unfolding displace
  displace_nothing gone = (
    rw gone refl,
    record {
      left = ws;
      space = s;
      out = out;
      row = λ i. refl;
      other = λ va' low' ne. refl;
      counts = λ q. rw (translate_no_page w d va t e gone) (omega arith);
      kept = λ h. refl;
      words = λ h g j. refl;
    },
  )

  module _ (there : is_present (w.word t (ptx va)) ≡ true) where
    mapped : translate w d va ≡ some (w.word t (ptx va))
    mapped = translate_page w d va t here e there

    module _ (v : IsData w d (w.word t (ptx va) / 4096)) where
      displace_same :
          w.word t (ptx va) / 4096 ≡ pp
          → (r : Mem) × (displace cur d pp va (t, ptx va) w ≡ ok r) × Displaced d pp va w ws r
      unfolding displace
      displace_same f =
          let same : (pte_addr (w.word t (ptx va)) == page2pa pp) ≡ true = ground arith in
          let fewer : Mem = set_ref pp (((w.pages pp).pp_ref + 65535) % 65536) w in
          let (l, log) = tlb_invalidate-log cur d va fewer in
          (
            record fewer { invlpg = l },
            rw (there, same, log) refl,
            record {
              left = ws;
              space =
                  IsSpace-move s _ ws refl (λ i. refl)
                    (invlpg-FreeList l fewer ws (set_ref-FreeList pp _ w ws out s.free)) s.root
                    s.in_use;
              out = out;
              row = λ i. refl;
              other = λ va' low' ne. translate-words w (record fewer { invlpg = l }) d va' refl;
              counts = λ q. rw mapped (fewer_counts f q);
              kept = λ h. refl;
              words = λ h g j. refl;
            },
          )
        where
          fewer_counts :
              w.word t (ptx va) / 4096 ≡ pp
              → (q : ℕ)
              → ((set_ref pp (((w.pages pp).pp_ref + 65535) % 65536) w).pages q).pp_ref
                  + refs_at (some (w.word t (ptx va))) q
                ≡ (w.pages q).pp_ref
          fewer_counts g q = ground (arith, v.counted, v.small)

      displace_remove :
          w.word t (ptx va) / 4096 ≢ pp
          → (r : Mem) × (displace cur d pp va (t, ptx va) w ≡ ok r) × Displaced d pp va w ws r
      unfolding displace
      displace_remove ne =
          let other : (pte_addr (w.word t (ptx va)) == page2pa pp) ≡ false = ground arith in
          let (r, runs, u) =
            removed cur d va w ws s low here t e there (w.word t (ptx va) / 4096) refl v in
          (
            r,
            rw (there, other) runs,
            record {
              left = dropped (w.word t (ptx va) / 4096) w ws;
              space = u.space;
              out = has-dropped d (w.word t (ptx va) / 4096) w ws s v pp (λ h. ne (sym h)) out;
              row = u.root_row;
              other = u.other;
              counts = λ q. rw mapped (Unmapped-counts _ u v.counted q);
              kept = λ h. absurd (some-ne-none _ (sym mapped ∙ h));
              words = λ h g j. absurd (some-ne-none _ (sym mapped ∙ h));
            },
          )

  -- Unless a page that is no data page is in the way, `displace` makes room.
  pub displace_lem :
      ((x : ℕ) → translate w d va ≡ some x → IsData w d (x / 4096))
      → (r : Mem) × (displace cur d pp va (t, ptx va) w ≡ ok r) × Displaced d pp va w ws r
  displace_lem occupant = elim (Bool-cases (is_present (w.word t (ptx va)))) [
    | inr gone ↦ (w, (displace_nothing gone).0, (displace_nothing gone).1)
    | inl there ↦ elim (Bool-cases (w.word t (ptx va) / 4096 == pp)) [
      | inl same ↦ displace_same there (occupant _ (mapped there)) (eq_of_eqb _ _ same)
      | inr other ↦ displace_remove there (occupant _ (mapped there)) (λ h. ground arith)
    ]
  ]
