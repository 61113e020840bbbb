-- ===== src/Pmap/Overlay/Place.antt =====
-- One round of `boot_map_region` of kern/pmap.c, which may take a page table from the free list.
use jos_lab.Base.{
  ℕ, suc, ◌+◌, ◌*◌, ◌-◌, ◌/◌, ◌%◌, ◌^◌, ◌≤◌, ◌<◌, ◌≡◌, ◌≢◌, ◌⊎◌, inl, inr, refl, ◌∙◌, ap, sym, Bool,
  true, false, ◌==◌, bit_or, bit_or_bit, some, List, [], ◌∷◌, length, Bool-cases, ne→eqb, eq_self,
  ok, arith,
}
use jos_lab.Mmu.{word_mod, pdx, ptx, pte_p, pte_w, pte_u, is_present, is_writeable}
use jos_lab.Pmap.{Mem, store, page2pa, pgdir_walk}
use jos_lab.Pmap.Space.{translate, DirSpace, new_pde_fields, pte_fields}
use jos_lab.Pmap.Grown.{grown, grown_root, grown-translate, grown-IsSpace}
use jos_lab.Pmap.Walk.{pgdir_walk_found, pgdir_walk-grown}
use jos_lab.Pmap.Entry.{store_root_row, store-IsSpace, store-translate_self, store-translate_other}
use jos_lab.Pmap.Region.{map_pages}

abbrev pub bit : Bool → ℕ
bit true = 1
bit false = 0

-- A directory entry as before, or one that was absent and now names a writeable table.
abbrev pub RowKept : ℕ → ℕ → Type 0
RowKept w w' =
    (w' ≡ w) ⊎ ((is_present w ≡ false) × (is_present w' ≡ true) × (is_writeable w' ≡ true))

new_pde_writeable :
    (p : ℕ) → is_writeable (bit_or (bit_or (bit_or (page2pa p) pte_p) pte_u) pte_w) ≡ true
new_pde_writeable p =
    let both = bit_or_bit 1 (bit_or (bit_or (page2pa p) pte_p) pte_u) pte_w in
    let x : ℕ = bit_or (bit_or (page2pa p) pte_p) pte_u / 2 % 2 in ground (arith, both)

-- What a creating walk leaves, in any part `In` of a directory.
record Reached (In : ℕ → Type 0) (d q : ℕ) (m : Mem) (ps : List ℕ) (t : ℕ) (m1 : Mem) (ps1 : List ℕ)
    : Type 0 where
  runs : pgdir_walk d (q * 4096) true m ≡ ok (some (t, ptx (q * 4096)), m1)
  space : DirSpace In m1 d ps1
  here : is_present (m1.word d (pdx (q * 4096))) ≡ true
  table : m1.word d (pdx (q * 4096)) / 4096 ≡ t
  same : (va : ℕ) → In (pdx va) → translate m1 d va ≡ translate m d va
  size : m1.npages ≡ m.npages
  spare : length ps ≡ length ps1 + (1 - bit (is_present (m.word d (pdx (q * 4096)))))
  kept : RowKept (m.word d (pdx (q * 4096))) (m1.word d (pdx (q * 4096)))
  rows : (i : ℕ) → i ≢ pdx (q * 4096) → m1.word d i ≡ m.word d i

reach :
    {In : ℕ → Type 0} (d q : ℕ) (m : Mem) (ps : List ℕ)
    → DirSpace In m d ps
    → In (pdx (q * 4096))
    → 1 ≤ length ps + bit (is_present (m.word d (pdx (q * 4096))))
    → (t : ℕ) × (m1 : Mem) × (ps1 : List ℕ) × Reached In d q m ps t m1 ps1
reach {In = In} d q m ps s low enough = elim (Bool-cases (is_present (m.word d (pdx (q * 4096))))) [
  | inl here ↦ (
    m.word d (pdx (q * 4096)) / 4096,
    m,
    ps,
    record {
      runs = pgdir_walk_found d (q * 4096) true m ps s low here;
      space = s;
      here = here;
      table = refl;
      same = λ va low'. refl;
      size = refl;
      spare = rw here (omega arith);
      kept = inl refl;
      rows = λ i ne. refl;
    },
  )
  | inr gone ↦ take ps s (rw gone at enough) gone
]
  where
    take :
        (qs : List ℕ)
        → DirSpace In m d qs
        → 1 ≤ length qs + 0
        → is_present (m.word d (pdx (q * 4096))) ≡ false
        → (t : ℕ) × (m1 : Mem) × (ps1 : List ℕ) × Reached In d q m qs t m1 ps1
    take [] w few gone = absurd (omega arith)
    take (p ∷ qs) w few gone =
        let v : ℕ = bit_or (bit_or (bit_or (page2pa p) pte_p) pte_u) pte_w in
        let fields = new_pde_fields p (omega (arith, w.small, w.free.in_range.0)) in
        let root : (grown d (q * 4096) p m).word d (pdx (q * 4096)) ≡ v =
          rw (grown_root d (q * 4096) m p qs w (pdx (q * 4096)), eq_self (pdx (q * 4096))) refl in
        let there : is_present v ≡ true = ap (λ (b : ℕ). b == 1) fields.0 in
        (
          p,
          grown d (q * 4096) p m,
          qs,
          record {
            runs = pgdir_walk-grown d (q * 4096) m p qs w gone;
            space = grown-IsSpace d (q * 4096) m p qs w low gone;
            here = rw root there;
            table = rw root fields.1;
            same = grown-translate d (q * 4096) m p qs w low gone;
            size = refl;
            spare = rw gone (omega arith);
            kept = inr (gone, rw root there, rw root (new_pde_writeable p));
            rows = λ i ne. rw (grown_root d (q * 4096) m p qs w i, ne→eqb i _ ne) refl;
          },
        )

abbrev pub region_entry : ℕ → ℕ → ℕ → ℕ → ℕ
region_entry q pa perm p = bit_or (bit_or (pa + (p - q) * 4096) perm) pte_p

pub pdx_of : (q : ℕ) → q < 2 ^ 20 → pdx (q * 4096) ≡ q / 1024
pdx_of q lt = omega (arith, lt)

pub RowKept-same : {u v u' v' : ℕ} → u' ≡ u → v' ≡ v → RowKept u v → RowKept u' v'
RowKept-same e f (inl same) = inl (f ∙ same ∙ sym e)
RowKept-same e f (inr (gone, here, writeable)) = inr (rw e gone, rw f here, rw f writeable)

pub RowKept-present : {w w' : ℕ} → RowKept w w' → is_present w ≡ true → is_present w' ≡ true
RowKept-present (inl same) here = rw same here
RowKept-present (inr (gone, there, writeable)) here = there

pub RowKept-trans : {u v w : ℕ} → RowKept u v → RowKept v w → RowKept u w
RowKept-trans (inl e) k = RowKept-same (sym e) refl k
RowKept-trans (inr (gone, here, writeable)) (inl f) = inr (gone, rw f here, rw f writeable)
RowKept-trans (inr (gone, here, writeable)) (inr (gone', here', writeable')) =
    inr (gone, here', writeable')

-- What one round of the loop leaves, at page `q`.
pub record Placed (In : ℕ → Type 0) (d q e : ℕ) (m : Mem) (ps : List ℕ) (m1 : Mem) (ps1 : List ℕ)
    : Type 0 where
  pub space : DirSpace In m1 d ps1
  pub here : is_present (m1.word d (q / 1024)) ≡ true
  pub self : translate m1 d (q * 4096) ≡ some e
  pub other :
      (va : ℕ) → In (pdx va) → va < 2 ^ 32 → va / 4096 ≢ q → translate m1 d va ≡ translate m d va
  pub size : m1.npages ≡ m.npages
  pub spare : length ps ≡ length ps1 + (1 - bit (is_present (m.word d (q / 1024))))
  pub kept : (i : ℕ) → RowKept (m.word d i) (m1.word d i)
  pub rows : (i : ℕ) → i ≢ q / 1024 → m1.word d i ≡ m.word d i

Reached-Placed :
    {In : ℕ → Type 0} (d q e : ℕ) (m : Mem) (ps : List ℕ) (t : ℕ) (m1 : Mem) (ps1 : List ℕ)
    → Reached In d q m ps t m1 ps1
    → pdx (q * 4096) ≡ q / 1024
    → q < 2 ^ 20
    → In (pdx (q * 4096))
    → is_present e ≡ true
    → Placed In d q e m ps (store (t, ptx (q * 4096)) e m1) ps1
Reached-Placed d q e m ps t m1 ps1 r row lt low there =
    let m2 : Mem = store (t, ptx (q * 4096)) e m1 in
    let same_row : (i : ℕ) → m2.word d i ≡ m1.word d i =
      store_root_row m1 d (q * 4096) ps1 r.space low r.here t r.table e in
    let changed : (i : ℕ) → i ≢ q / 1024 → m2.word d i ≡ m.word d i =
      λ i ne. same_row i ∙ r.rows i (λ h. ne (h ∙ row)) in
    record {
      space = store-IsSpace m1 d (q * 4096) ps1 r.space low r.here t r.table e;
      here = ap is_present (same_row (q / 1024) ∙ ap (m1.word d) (sym row)) ∙ r.here;
      self =
          store-translate_self m1 d (q * 4096) ps1 r.space low r.here t r.table e ∙ rw there refl;
      other = λ a in_a fits ne.
          store-translate_other m1 d (q * 4096) ps1 r.space low r.here t r.table e a in_a
            (omega (arith, lt)) fits (omega (arith, ne))
          ∙ r.same a in_a;
      size = r.size;
      spare = r.spare ∙ ap (λ (k : ℕ). length ps1 + (1 - bit (is_present (m.word d k)))) row;
      kept = λ i. elim (Bool-cases (i == q / 1024)) [
        | inl hit ↦
            let e : i ≡ pdx (q * 4096) = ground (arith, row) in
            RowKept-same (ap (m.word d) e) (same_row i ∙ ap (m1.word d) e) r.kept
        | inr miss ↦ inl (changed i (ground arith))
      ];
      rows = changed;
    }

pub place_page :
    {In : ℕ → Type 0} (d q pa perm n : ℕ) (m : Mem) (ps : List ℕ)
    → DirSpace In m d ps
    → In (q / 1024)
    → q < 2 ^ 20
    → pa < 2 ^ 32
    → perm < 4096
    → 1 ≤ length ps + bit (is_present (m.word d (q / 1024)))
    → (m1 : Mem) × (ps1 : List ℕ) × (map_pages (suc n) d (q * 4096 % word_mod) pa perm m
        ≡ map_pages n d ((q + 1) * 4096 % word_mod) ((pa + 4096) % word_mod) perm m1)
      × Placed In d q (bit_or (bit_or pa perm) pte_p) m ps m1 ps1
unfolding map_pages
place_page {In = In} d q pa perm n m ps s low lt pa_lt small enough =
    let e : ℕ = bit_or (bit_or pa perm) pte_p in
    let row : pdx (q * 4096) ≡ q / 1024 = pdx_of q lt in
    let low' : In (pdx (q * 4096)) = rw row low in
    let (t, m1, ps1, r) = reach d q m ps s low' (rw row enough) in
    let va : q * 4096 % word_mod ≡ q * 4096 = omega (arith, lt) in
    let next : (q * 4096 + 4096) % word_mod ≡ (q + 1) * 4096 % word_mod = omega arith in
    let there : is_present e ≡ true = ap (λ (b : ℕ). b == 1) (pte_fields pa perm pa_lt small).0 in
    (
      store (t, ptx (q * 4096)) e m1,
      ps1,
      rw (va, r.runs) (rw next refl),
      Reached-Placed d q e m ps t m1 ps1 r row lt low' there,
    )
