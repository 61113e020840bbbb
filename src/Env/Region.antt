-- ===== src/Env/Region.antt =====
-- `region_alloc` of kern/env.c: every page of the region gets a page of its own.
use jos_lab.Base.{
  ℕ, zero, suc, ◌+◌, ◌-◌, ◌*◌, ◌/◌, ◌≤◌, ◌<◌, ◌≡◌, ◌≢◌, ◌⊎◌, refl, sym, ap, ◌∙◌, inl, inr, true,
  false, Option, some, none, List, [], ◌∷◌, length, has, ◌==◌, if◌then◌else◌, Bool-cases, eq_of_eqb,
  bit_or, ok, arith,
}
use jos_lab.Mmu.{pdx, utop, pgsize, pte_w, pte_u, is_present, roundup, rounddown}
use jos_lab.Pmap.{Mem}
use jos_lab.Pmap.Free.{taken, page_alloc-cons, taken-FreeList}
use jos_lab.Pmap.Space.{translate, IsSpace, translate-eq, pdx-lt}
use jos_lab.Pmap.Entry.{IsSpace-move}
use jos_lab.Pmap.Lookup.{some-ne-none}
use jos_lab.Pmap.Walk.{TablesFrom, OffTables, TablesFrom-off}
use jos_lab.Pmap.Insert.{pte_of, Inserted, page_insert_lem}
use jos_lab.Env.{Kernel, set_mem, cur_pgdir}
use jos_lab.Env.Alloc.{alloc_pages, region_alloc}

-- Taking a free page leaves the space as it is.
module _ (d : ℕ) (m : Mem) (p : ℕ) (ps : List ℕ) (s : IsSpace m d (p ∷ ps)) where
  taken_row : (i : ℕ) → (taken 1 p m).word d i ≡ m.word d i
  taken_row i = ground (arith, s.root)

  taken-IsSpace : IsSpace (taken 1 p m) d ps
  taken-IsSpace =
      IsSpace-move s (taken 1 p m) ps refl taken_row (taken-FreeList 1 m p ps s.free)
        (ground (arith, s.root)) (λ i lt here. ground (arith, s.in_use i lt here))

  taken-translate : (va : ℕ) → va < utop → translate (taken 1 p m) d va ≡ translate m d va
  taken-translate va low =
      translate-eq m d va (taken 1 p m) (taken_row (pdx va))
        λ here. ground (arith, s.in_use (pdx va) (pdx-lt va low) here)

-- Page `p` of the `n` pages from page `q` on is mapped, for the user to read and write, to the
-- frame `frame p`, which was free and is no page table; no two of them share a frame, the page
-- tables are those of before and pages that were free, and no other page below UTOP translates to
-- anything else than before. Pages that were neither free nor tables keep their words.
pub record Allocated (d q n : ℕ) (m : Mem) (ps : List ℕ) (m' : Mem) : Type 0 where
  pub left : List ℕ
  pub space : IsSpace m' d left
  pub frame : ℕ → ℕ
  pub entries :
      (p : ℕ)
      → q ≤ p
      → p < q + n
      → translate m' d (p * 4096) ≡ some (pte_of (frame p) (bit_or pte_w pte_u))
  pub was_free : (p : ℕ) → q ≤ p → p < q + n → has (frame p) ps ≡ true
  pub distinct : (p p' : ℕ) → q ≤ p → p < p' → p' < q + n → frame p ≢ frame p'
  pub tables : TablesFrom d m ps m'
  pub off_tables :
      (p : ℕ)
      → q ≤ p
      → p < q + n
      → (i : ℕ) → i < pdx utop
      → is_present (m'.word d i) ≡ true
      → m'.word d i / 4096 ≢ frame p
  pub used : (p : ℕ) → q ≤ p → p < q + n → has (frame p) left ≡ false
  pub shrinks : (g : ℕ) → has g ps ≡ false → has g left ≡ false
  pub spare : length ps ≤ length left + 2 * n
  pub words : (g j : ℕ) → g ≢ d → has g ps ≡ false → OffTables d m g → m'.word g j ≡ m.word g j
  pub others :
      (va : ℕ)
      → va < utop
      → (va / 4096 < q) ⊎ (q + n ≤ va / 4096)
      → translate m' d va ≡ translate m d va

no_pages : (d q : ℕ) (m : Mem) (ps : List ℕ) → IsSpace m d ps → Allocated d q 0 m ps m
no_pages d q m ps s = record {
  left = ps;
  space = s;
  frame = λ p. p;
  entries = λ p lo hi. absurd (omega arith);
  was_free = λ p lo hi. absurd (omega arith);
  distinct = λ p p' lo lt hi. absurd (omega arith);
  tables = λ i lt there. inl (there, refl);
  off_tables = λ p lo hi. absurd (omega arith);
  used = λ p lo hi. absurd (omega arith);
  shrinks = λ g out. out;
  spare = omega arith;
  words = λ g j ne out off. refl;
  others = λ va low out. refl;
}

has-more : (q p : ℕ) (ps : List ℕ) → has q ps ≡ true → has q (p ∷ ps) ≡ true
has-more q p ps h = ground arith

has-fewer : (q p : ℕ) (ps : List ℕ) → has q (p ∷ ps) ≡ false → has q ps ≡ false
has-fewer q p ps h = ground arith

-- What was free after a page was inserted was free before.
has-of-shrinks :
    (ps left : List ℕ)
    → ((q : ℕ) → has q ps ≡ false → has q left ≡ false)
    → (q : ℕ) → has q left ≡ true
    → has q ps ≡ true
has-of-shrinks ps left shrinks q h = elim (Bool-cases (has q ps)) [
  | inl yes_there ↦ yes_there
  | inr gone ↦ absurd (ground (arith, shrinks q gone))
]

-- One round: page `q` gets the first free page `p`, and the rest is allocated behind it.
module _ (d q n p : ℕ) (m : Mem) (ps : List ℕ) (s : IsSpace m d (p ∷ ps))
    (low : (q + suc n) * 4096 ≤ utop) (m1 : Mem)
    (x : Inserted d p (q * 4096) (bit_or pte_w pte_u) (taken 1 p m) ps m1)
    (gone : translate m d (q * 4096) ≡ none) where
  gone_still : translate (taken 1 p m) d (q * 4096) ≡ none
  gone_still = taken-translate d m p ps s (q * 4096) (omega (arith, low)) ∙ gone

  not_left : has p x.free_after ≡ false
  not_left = x.shrinks gone_still p s.free.distinct.0

  others_kept :
      (m' : Mem)
      → Allocated d (q + 1) n m1 x.free_after m'
      → (va : ℕ) → va < utop
      → va / 4096 ≢ q
      → (va / 4096 < q + 1) ⊎ (q + 1 + n ≤ va / 4096)
      → translate m' d va ≡ translate m d va
  others_kept m' a va small ne out =
      let away : va / 4096 ≢ q * 4096 / 4096 = λ e. ne (omega (arith, e)) in
      a.others va small out ∙ x.other va small away ∙ taken-translate d m p ps s va small

  page_q :
      (m' : Mem)
      → Allocated d (q + 1) n m1 x.free_after m'
      → translate m' d (q * 4096) ≡ some (pte_of p (bit_or pte_w pte_u))
  page_q m' a = a.others (q * 4096) (omega (arith, low)) (inl (omega arith)) ∙ x.self

  was_free_before : (f : ℕ) → has f x.free_after ≡ true → has f ps ≡ true
  was_free_before f h = has-of-shrinks ps x.free_after (x.shrinks gone_still) f h

  frame_apart : (f : ℕ) → has f x.free_after ≡ true → p ≢ f
  frame_apart f h e = ground (arith, not_left, ap (λ g. has g x.free_after) e)

  taken_off : (g : ℕ) → OffTables d m g → OffTables d (taken 1 p m) g
  taken_off g off i lt there =
      let row = taken_row d m p ps s i in rw row (off i lt (rw row at there))

  tables_join : (m' : Mem) → Allocated d (q + 1) n m1 x.free_after m' → TablesFrom d m (p ∷ ps) m'
  tables_join m' a i lt there = elim (a.tables i lt there) [
    | inl (here, same) ↦ elim (x.tables i lt here) [
      | inl (before, e) ↦
          let row = taken_row d m p ps s i in
          inl (rw row at before, same ∙ e ∙ ap (λ w. w / 4096) row)
      | inr new ↦ inr (ap (λ t. has t (p ∷ ps)) same ∙ has-more _ p ps new)
    ]
    | inr new ↦ inr (has-more _ p ps (was_free_before _ new))
  ]

  off_page :
      (m' : Mem)
      → Allocated d (q + 1) n m1 x.free_after m'
      → (i : ℕ) → i < pdx utop
      → is_present (m'.word d i) ≡ true
      → m'.word d i / 4096 ≢ p
  off_page m' a i lt there hit = elim (a.tables i lt there) [
    | inl (here, same) ↦ elim (x.tables i lt here) [
      | inl (before, e) ↦
          let row = taken_row d m p ps s i in
          let used = s.in_use i lt (rw row at before) in
          let this : m.word d i / 4096 ≡ p = sym (same ∙ e ∙ ap (λ w. w / 4096) row) ∙ hit in
          ground (arith, used, this)
      | inr new ↦ ground (arith, s.free.distinct.0, ap (λ t. has t ps) (sym same ∙ hit))
    ]
    | inr new ↦ frame_apart _ new (sym hit)
  ]

  join : (m' : Mem) → Allocated d (q + 1) n m1 x.free_after m' → Allocated d q (suc n) m (p ∷ ps) m'
  join m' a = record {
    left = a.left;
    space = a.space;
    frame = λ r. if r == q then p else a.frame r;
    entries = λ r lo hi. elim (Bool-cases (r == q)) [
      | inl here ↦ rw (here, eq_of_eqb r q here) (page_q m' a)
      | inr later ↦
          let behind : q + 1 ≤ r = ground arith in rw later (a.entries r behind (omega (arith, hi)))
    ];
    was_free = λ r lo hi. elim (Bool-cases (r == q)) [
      | inl here ↦ rw here (ground arith)
      | inr later ↦
          let behind : q + 1 ≤ r = ground arith in
          let other : (if r == q then p else a.frame r) ≡ a.frame r = rw later refl in
          ap (λ f. has f (p ∷ ps)) other
          ∙ has-more (a.frame r) p ps
              (was_free_before (a.frame r) (a.was_free r behind (omega (arith, hi))))
    ];
    distinct = λ r r' lo lt hi. elim (Bool-cases (r == q)) [
      | inl here ↦
          let second : (r' == q) ≡ false = ground arith in
          let behind : q + 1 ≤ r' = ground arith in
          rw (here, second) (frame_apart (a.frame r') (a.was_free r' behind (omega (arith, hi))))
      | inr later ↦
          let behind : q + 1 ≤ r = ground arith in
          let second : (r' == q) ≡ false = ground arith in
          rw (later, second) (a.distinct r r' behind lt (omega (arith, hi)))
    ];
    tables = tables_join m' a;
    off_tables = λ r lo hi i lt there. elim (Bool-cases (r == q)) [
      | inl here ↦ rw here (off_page m' a i lt there)
      | inr later ↦
          let behind : q + 1 ≤ r = ground arith in
          rw later (a.off_tables r behind (omega (arith, hi)) i lt there)
    ];
    used = λ r lo hi. elim (Bool-cases (r == q)) [
      | inl here ↦ rw here (a.shrinks p not_left)
      | inr later ↦
          let behind : q + 1 ≤ r = ground arith in rw later (a.used r behind (omega (arith, hi)))
    ];
    shrinks = λ g out. a.shrinks g (x.shrinks gone_still g (has-fewer g p ps out));
    spare = omega (arith, a.spare, x.spare gone_still);
    words = λ g j ne out off.
        let fewer = has-fewer g p ps out in
        let off1 = taken_off g off in
        a.words g j ne (x.shrinks gone_still g fewer)
          (TablesFrom-off d (taken 1 p m) ps m1 g x.tables fewer off1)
        ∙ x.words gone_still g j ne fewer off1
        ∙ ground (arith, out);
    others = λ va small out.
        others_kept m' a va small (λ e. elim out [ inl h ↦ omega arith | inr h ↦ omega arith ])
          (elim out [ inl h ↦ inl (omega arith) | inr h ↦ inr (omega arith) ]);
  }

alloc_pages-Allocated :
    (n q : ℕ) (cur : Option ℕ) (d : ℕ) (m : Mem) (ps : List ℕ)
    → IsSpace m d ps
    → (q + n) * 4096 ≤ utop
    → ((p : ℕ) → q ≤ p → p < q + n → translate m d (p * 4096) ≡ none)
    → 2 * n ≤ length ps
    → (m' : Mem) × (alloc_pages n (q * 4096) cur d m ≡ ok m') × Allocated d q n m ps m'
unfolding alloc_pages
alloc_pages-Allocated zero q cur d m ps s low gone enough = (m, refl, no_pages d q m ps s)
alloc_pages-Allocated (suc n) q cur d m [] s low gone enough = absurd (omega arith)
alloc_pages-Allocated (suc n) q cur d m (p ∷ ps) s low gone enough =
    let here = gone q (omega arith) (omega arith) in
    let still = taken-translate d m p ps s (q * 4096) (omega (arith, low)) ∙ here in
    let next : q * 4096 + pgsize ≡ (q + 1) * 4096 = omega arith in
    let inserted =
      page_insert_lem cur d p (q * 4096) (bit_or pte_w pte_u) (taken 1 p m) ps
        (taken-IsSpace d m p ps s) (omega (arith, low)) (omega (arith, s.small, s.free.in_range.0))
        (omega arith) s.free.distinct.0 (omega (arith, s.free.unreferenced.0))
        (λ w e. absurd (some-ne-none w (sym e ∙ still))) in
    elim inserted [
      | inl (_, full, _) ↦ absurd (omega (arith, ap (λ qs. length qs) full, enough))
      | inr (m1, runs, x) ↦
          let (m', rest, a) =
            alloc_pages-Allocated n (q + 1) cur d m1 x.free_after x.space (omega (arith, low))
              (λ r lo hi.
                x.other (r * 4096) (omega (arith, low, hi)) (omega (arith, lo))
                ∙ taken-translate d m p ps s (r * 4096) (omega (arith, low, hi))
                ∙ gone r (omega (arith, lo)) (omega (arith, hi)))
              (omega (arith, x.spare still, enough)) in
          (
            m',
            rw (page_alloc-cons 1 m p ps s.small s.free, runs, next) rest,
            join d q n p m ps s low m1 x here m' a,
          )
    ]

-- The addresses of the loop, by pages.
region_alloc-pages :
    (e va len d : ℕ) (k : Kernel) (m' : Mem)
    → (k.envs e).env_pgdir ≡ some d
    → va + len + 4095 ≤ utop
    → alloc_pages ((va + len + 4095) / 4096 - va / 4096) (va / 4096 * 4096) (cur_pgdir k) d k.mem
      ≡ ok m'
    → region_alloc e va len k ≡ ok (set_mem m' k)
unfolding region_alloc
region_alloc-pages e va len d k m' root low runs =
    let rounds : (roundup (va + len) pgsize - rounddown va pgsize) / pgsize
        ≡ (va + len + 4095) / 4096 - va / 4096 =
      omega (arith, low) in
    let first : rounddown va pgsize ≡ va / 4096 * 4096 = omega arith in
    rw (root, rounds, first, runs) refl

-- In a well-formed space, for a region below UTOP none of whose pages is mapped, with at least two
-- free pages for each page of the region: `region_alloc` returns, with every page of the region
-- mapped for the user to read and write, to frames that were free and are all different, and
-- every other page below UTOP translating as before.
pub region_alloc_lem :
    (e va len d : ℕ) (k : Kernel) (ps : List ℕ)
    → (k.envs e).env_pgdir ≡ some d
    → IsSpace k.mem d ps
    → va + len + 4095 ≤ utop
    → ((p : ℕ) → va / 4096 ≤ p → p < (va + len + 4095) / 4096 → translate k.mem d (p * 4096) ≡ none)
    → 2 * ((va + len + 4095) / 4096 - va / 4096) ≤ length ps
    → (m' : Mem) × (region_alloc e va len k ≡ ok (set_mem m' k))
      × Allocated d (va / 4096) ((va + len + 4095) / 4096 - va / 4096) k.mem ps m'
region_alloc_lem e va len d k ps root s low gone enough =
    let (m', runs, a) =
      alloc_pages-Allocated ((va + len + 4095) / 4096 - va / 4096) (va / 4096) (cur_pgdir k) d k.mem
        ps s (omega arith) (λ p lo hi. gone p lo (omega (arith, lo, hi))) enough in
    (m', region_alloc-pages e va len d k m' root low runs, a)
