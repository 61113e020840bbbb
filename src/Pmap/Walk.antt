-- ===== src/Pmap/Walk.antt =====
-- `pgdir_walk`: the entry that it finds, or the page table that it adds, and that neither changes
-- what any address translates to.
use jos_lab.Base.{
  ap, ◌+◌, length, ◌==◌, Bool-cases, eq_self, ◌⊎◌, inl, inr, ◌≡◌, ◌≢◌, sym, ◌∙◌, if◌then◌else◌, has,
  ℕ, ◌/◌, ◌^◌, ◌≤◌, ◌<◌, refl, Bool, true, false, none, some, List, [], ◌∷◌, arith, ok,
}
use jos_lab.Mmu.{pdx, ptx, utop, is_present, pte_addr}
use jos_lab.Pmap.{Mem, set_ref, kaddr, page2kva, pgdir_walk}
use jos_lab.Pmap.Free.{taken, page_alloc-pop, page_alloc-cons}
use jos_lab.Pmap.Space.{translate, new_pde_fields, DirSpace, IsSpace, pdx-lt}
use jos_lab.Pmap.Grown.{grown, grown_root, grown_other, grown-translate, grown-IsSpace}

pub kaddr-ok : (m : Mem) (pa : ℕ) → pa / 4096 < m.npages → kaddr m pa ≡ ok (pa / 4096)
unfolding kaddr
kaddr-ok m pa h = ground arith

pub page2kva-ok : (m : Mem) (p : ℕ) → m.npages ≤ 2 ^ 20 → p < m.npages → page2kva m p ≡ ok p
unfolding page2kva
page2kva-ok m p small h = ground arith

pub pgdir_walk_found :
    {In : ℕ → Type 0} (d va : ℕ) (create : Bool) (m : Mem) (ps : List ℕ)
    → DirSpace In m d ps
    → In (pdx va)
    → is_present (m.word d (pdx va)) ≡ true
    → pgdir_walk d va create m ≡ ok (some (m.word d (pdx va) / 4096, ptx va), m)
unfolding pgdir_walk
pgdir_walk_found d va create m ps s low here =
    let inside = s.exists (pdx va) low here in
    let frame : pte_addr (m.word d (pdx va)) / 4096 ≡ m.word d (pdx va) / 4096 = omega arith in
    rw (here, kaddr-ok m (pte_addr (m.word d (pdx va))) (rw frame inside)) (rw frame refl)

pub pgdir_walk_lookup :
    (d va : ℕ) (m : Mem)
    → is_present (m.word d (pdx va)) ≡ false
    → pgdir_walk d va false m ≡ ok (none, m)
unfolding pgdir_walk
pgdir_walk_lookup d va m gone = rw gone

pub pgdir_walk_full :
    (d va : ℕ) (m : Mem)
    → IsSpace m d []
    → is_present (m.word d (pdx va)) ≡ false
    → pgdir_walk d va true m ≡ ok (none, m)
unfolding pgdir_walk
pgdir_walk_full d va m s gone = rw (gone, page_alloc-pop 1 m [] s.small s.free) refl

pub pgdir_walk-grown :
    {In : ℕ → Type 0} (d va : ℕ) (m : Mem) (p : ℕ) (ps : List ℕ)
    → DirSpace In m d (p ∷ ps)
    → is_present (m.word d (pdx va)) ≡ false
    → pgdir_walk d va true m ≡ ok (some (p, ptx va), grown d va p m)
unfolding pgdir_walk
pgdir_walk-grown d va m p ps s gone =
    rw
      (
        gone,
        page_alloc-cons 1 m p ps s.small s.free,
        page2kva-ok (set_ref p 1 (taken 1 p m)) p s.small s.free.in_range.0,
      )
      refl

-- The page tables below UTOP of a memory are those of an earlier one, or pages that were free.
abbrev pub TablesFrom : ℕ → Mem → List ℕ → Mem → Type 0
TablesFrom d m ps m' =
    (i : ℕ)
    → i < pdx utop
    → is_present (m'.word d i) ≡ true
    → ((is_present (m.word d i) ≡ true) × (m'.word d i / 4096 ≡ m.word d i / 4096))
      ⊎ (has (m'.word d i / 4096) ps ≡ true)

-- No page table below UTOP stands in frame `g`.
abbrev pub OffTables : ℕ → Mem → ℕ → Type 0
OffTables d m g = (i : ℕ) → i < pdx utop → is_present (m.word d i) ≡ true → m.word d i / 4096 ≢ g

pub TablesFrom-off :
    (d : ℕ) (m : Mem) (ps : List ℕ) (m' : Mem) (g : ℕ)
    → TablesFrom d m ps m'
    → has g ps ≡ false
    → OffTables d m g
    → OffTables d m' g
TablesFrom-off d m ps m' g from out off i lt there hit = elim (from i lt there) [
  | inl (before, same) ↦ off i lt before (sym same ∙ hit)
  | inr new ↦ ground (arith, ap (λ t. has t ps) hit, out)
]

-- The outcome of a walk that may allocate: `t` is the table that the directory now names for
-- `va`, the space is well formed beside the pages `ps'` that are still free, no address below UTOP
-- translates to anything else, and the only page that lost its record is a new table.
pub record Walked (d va : ℕ) (m : Mem) (ps : List ℕ) (t : ℕ) (m' : Mem) (ps' : List ℕ)
    : Type 0 where
  pub runs : pgdir_walk d va true m ≡ ok (some (t, ptx va), m')
  pub space : IsSpace m' d ps'
  pub here : is_present (m'.word d (pdx va)) ≡ true
  pub table : m'.word d (pdx va) / 4096 ≡ t
  pub same : (va' : ℕ) → va' < utop → translate m' d va' ≡ translate m d va'
  pub pages : (q : ℕ) → has q ps ≡ false → m'.pages q ≡ m.pages q
  pub shrinks : (q : ℕ) → has q ps ≡ false → has q ps' ≡ false
  pub size : m'.npages ≡ m.npages
  pub spare : length ps ≤ length ps' + 1
  pub tables : TablesFrom d m ps m'
  pub words : (g j : ℕ) → g ≢ d → has g ps ≡ false → m'.word g j ≡ m.word g j

pub stay :
    (d va : ℕ) (m : Mem) (ps : List ℕ)
    → IsSpace m d ps
    → va < utop
    → is_present (m.word d (pdx va)) ≡ true
    → Walked d va m ps (m.word d (pdx va) / 4096) m ps
stay d va m ps s low here = record {
  runs = pgdir_walk_found d va true m ps s (pdx-lt va low) here;
  space = s;
  here = here;
  table = refl;
  same = λ va' low'. refl;
  pages = λ q out. refl;
  shrinks = λ q out. out;
  size = refl;
  spare = omega arith;
  tables = λ i lt here'. inl (here', refl);
  words = λ g j ne out. refl;
}

grown-tables :
    (d va : ℕ) (m : Mem) (p : ℕ) (qs : List ℕ)
    → IsSpace m d (p ∷ qs)
    → is_present (m.word d (pdx va)) ≡ false
    → TablesFrom d m (p ∷ qs) (grown d va p m)
grown-tables d va m p qs w gone i lt there = elim (Bool-cases (i == pdx va)) [
  | inl new ↦ inr (
      rw (grown_root d va m p qs w i, new)
        (rw (new_pde_fields p (omega (arith, w.small, w.free.in_range.0))).1 (rw (eq_self p) refl)))
  | inr old ↦
      let root : (grown d va p m).word d i ≡ m.word d i = rw (grown_root d va m p qs w i, old) in
      inl (rw root at there, ap (λ v. v / 4096) root)
]

no_table :
    (d va : ℕ) (m : Mem) (ps : List ℕ)
    → IsSpace m d ps
    → va < utop
    → is_present (m.word d (pdx va)) ≡ false
    → (is_present (m.word d (pdx va)) ≡ false) × (ps ≡ []) × (pgdir_walk d va true m ≡ ok (none, m))
      ⊎ ((t : ℕ) × (m' : Mem) × (ps' : List ℕ) × Walked d va m ps t m' ps')
no_table d va m [] w low gone = inl (gone, refl, pgdir_walk_full d va m w gone)
no_table d va m (p ∷ qs) w low gone = inr (
  p,
  grown d va p m,
  qs,
  record {
    runs = pgdir_walk-grown d va m p qs w gone;
    space = grown-IsSpace d va m p qs w (pdx-lt va low) gone;
    here =
        rw (grown_root d va m p qs w (pdx va), eq_self (pdx va))
          (ap (λ (b : ℕ). b == 1) (new_pde_fields p (omega (arith, w.small, w.free.in_range.0))).0);
    table =
        rw (grown_root d va m p qs w (pdx va), eq_self (pdx va))
          ((new_pde_fields p (omega (arith, w.small, w.free.in_range.0))).1);
    same = λ va' low'. grown-translate d va m p qs w (pdx-lt va low) gone va' (pdx-lt va' low');
    pages = λ q out. ground arith;
    shrinks = λ q out. ground arith;
    size = refl;
    spare = omega arith;
    tables = grown-tables d va m p qs w gone;
    words = λ g j ne out. grown_other d va m p qs w g j (λ e. ground arith) ne;
  },
)

-- Below UTOP in a well-formed space a creating walk reaches an entry whenever the table exists or
-- a page is free, with the outcome `Walked`; otherwise it returns NULL and changes nothing. A walk
-- that does not create returns NULL exactly when there is no table, and changes nothing.
pub pgdir_walk_lem :
    (d va : ℕ) (m : Mem) (ps : List ℕ)
    → IsSpace m d ps
    → va < utop
    → ((is_present (m.word d (pdx va)) ≡ false)
          × (ps ≡ [])
          × (pgdir_walk d va true m ≡ ok (none, m))
        ⊎ ((t : ℕ) × (m' : Mem) × (ps' : List ℕ) × Walked d va m ps t m' ps'))
      × (pgdir_walk d va false m
          ≡ ok (
            if is_present (m.word d (pdx va))
                then some (m.word d (pdx va) / 4096, ptx va)
                else none,
            m,
          ))
pgdir_walk_lem d va m ps s low = elim (Bool-cases (is_present (m.word d (pdx va)))) [
  | inl here ↦ (
    inr (m.word d (pdx va) / 4096, m, ps, stay d va m ps s low here),
    rw here (pgdir_walk_found d va false m ps s (pdx-lt va low) here),
  )
  | inr gone ↦ (no_table d va m ps s low gone, rw gone (pgdir_walk_lookup d va m gone))
]
