-- ===== src/Env/Segment.antt =====
-- What `load_icode` of kern/env.c leaves in the user's memory for a segment of the ELF image.
use jos_lab.Base.{
  ℕ, ◌+◌, ◌-◌, ◌*◌, ◌/◌, ◌%◌, ◌≤◌, ◌<◌, ◌≡◌, ◌≢◌, ◌⊎◌, refl, sym, ap, ◌∙◌, inl, inr, true, false,
  ◌&&◌, some, none, List, [], ◌∷◌, length, has, ◌==◌, ltb, leb, if◌then◌else◌, Bool-cases, bit_or,
  ok, All, arith,
}
use jos_lab.Mmu.{utop, pte_w, pte_u}
use jos_lab.Pmap.{Mem}
use jos_lab.Pmap.Space.{translate, IsSpace}
use jos_lab.Pmap.Insert.{pte_of}
use jos_lab.Strings.{Bytes}
use jos_lab.Trap.Fault.{byte_in}
use jos_lab.Trap.Bytes.{byte}
use jos_lab.Env.{Kernel, set_mem}
use jos_lab.Env.Region.{Allocated, region_alloc_lem}
use jos_lab.Env.Load.{Proghdr, load_segment}
use jos_lab.Env.Image.{Backed, Quiet, byte_at, entry, entry_frame, put_bytes-Backed}
use jos_lab.Pmap.Walk.{OffTables, TablesFrom-off}

has-below : (f bound : ℕ) (ps : List ℕ) → All (λ p. p < bound) ps → has f ps ≡ true → f < bound
has-below f bound [] all h = absurd (ground arith)
has-below f bound (p ∷ ps) (lt, all) h = elim (Bool-cases (f == p)) [
  | inl here ↦ ground arith
  | inr later ↦ has-below f bound ps all (rw later at h)
]

-- The region of a segment once `region_alloc` has run.
Allocated-Backed :
    (d q n : ℕ) (m : Mem) (ps : List ℕ) (m' : Mem)
    → IsSpace m d ps
    → (a : Allocated d q n m ps m') → Backed d q n a.frame m'
Allocated-Backed d q n m ps m' s a = record {
  entries = a.entries;
  off_tables = a.off_tables;
  off_root = λ p lo hi e. ground (arith, s.root, ap (λ f. has f ps) e, a.was_free p lo hi);
  distinct = a.distinct;
  small = λ p lo hi.
      omega
        (arith, s.small, has-below (a.frame p) m.npages ps s.free.in_range (a.was_free p lo hi));
}

segment_byte :
    (va i filesz memsz off y z : ℕ) (binary : Bytes)
    → i < memsz
    → z ≡ (if leb va (va + i) && ltb (va + i) (va + memsz) then 0 else y)
    → (if leb va (va + i) && ltb (va + i) (va + filesz) then binary (off + (va + i - va)) else z)
      ≡ (if ltb i filesz then binary (off + i) else 0)
segment_byte va i filesz memsz off y z binary lt e = elim (Bool-cases (ltb i filesz)) [
  | inl file ↦
      let test : (leb va (va + i) && ltb (va + i) (va + filesz)) ≡ true = ground arith in
      let place : va + i - va ≡ i = omega arith in rw (test, file, place) refl
  | inr bss ↦
      let test : (leb va (va + i) && ltb (va + i) (va + filesz)) ≡ false = ground arith in
      let clear : (leb va (va + i) && ltb (va + i) (va + memsz)) ≡ true = ground arith in
      rw (test, bss) (e ∙ rw clear refl)
]

-- A frame that is neither the directory, nor free, nor a page table.
pub record Owned (d : ℕ) (m : Mem) (ps : List ℕ) (g : ℕ) : Type 0 where
  pub off_root : g ≢ d
  pub in_use : has g ps ≡ false
  pub off_tables : OffTables d m g

-- The user finds byte `b` at address `a`, in a frame that is owned.
pub record Shows (d : ℕ) (m : Mem) (ps : List ℕ) (a b : ℕ) : Type 0 where
  pub pte : ℕ
  pub mapped : translate m d a ≡ some pte
  pub owned : Owned d m ps (pte / 4096)
  pub holds : byte (pte / 4096) (a % 4096) m ≡ b

-- From `m` with the free pages `ps` to `m'` with `left`: owned frames stay owned and keep their words.
pub record Keeps (d : ℕ) (m : Mem) (ps : List ℕ) (m' : Mem) (left : List ℕ) : Type 0 where
  pub still : (g : ℕ) → Owned d m ps g → Owned d m' left g
  pub words : (g j : ℕ) → Owned d m ps g → m'.word g j ≡ m.word g j

pub Shows-kept :
    (d : ℕ) (m : Mem) (ps : List ℕ) (m' : Mem) (left : List ℕ) (a b : ℕ)
    → Keeps d m ps m' left
    → translate m' d a ≡ translate m d a
    → Shows d m ps a b
    → Shows d m' left a b
Shows-kept d m ps m' left a b k same s = record {
  pte = s.pte;
  mapped = same ∙ s.mapped;
  owned = k.still (s.pte / 4096) s.owned;
  holds =
      ap (λ w. byte_in (a % 4096 % 4) w) (k.words (s.pte / 4096) (a % 4096 / 4) s.owned) ∙ s.holds;
}

abbrev pub first_page : Proghdr → ℕ
first_page ph = ph.p_va / 4096

abbrev pub end_page : Proghdr → ℕ
end_page ph = (ph.p_va + ph.p_memsz + 4095) / 4096

-- A segment that lies below UTOP and is not longer in the file than in memory.
pub record Fits (ph : Proghdr) : Type 0 where
  pub low : ph.p_va + ph.p_memsz + 4095 ≤ utop
  pub shorter : ph.p_filesz ≤ ph.p_memsz

-- Byte `i` of the segment: of the file, or 0.
abbrev pub content : Bytes → Proghdr → ℕ → ℕ
content binary ph i = if ltb i ph.p_filesz then binary (ph.p_offset + i) else 0

-- The memory once the segment is loaded.
pub record Loaded (d : ℕ) (binary : Bytes) (ph : Proghdr) (m : Mem) (ps : List ℕ) (m' : Mem)
    : Type 0 where
  pub left : List ℕ
  pub space : IsSpace m' d left
  pub keeps : Keeps d m ps m' left
  pub spare : length ps ≤ length left + 2 * (end_page ph - first_page ph)
  pub shown : (i : ℕ) → i < ph.p_memsz → Shows d m' left (ph.p_va + i) (content binary ph i)
  pub others :
      (a : ℕ)
      → a < utop
      → (a / 4096 < first_page ph) ⊎ (end_page ph ≤ a / 4096)
      → translate m' d a ≡ translate m d a

-- The owned frames while a region is allocated, and while its frames are written.
pub Allocated-Keeps :
    (d q n : ℕ) (m : Mem) (ps : List ℕ) (m' : Mem)
    → (a : Allocated d q n m ps m') → Keeps d m ps m' a.left
Allocated-Keeps d q n m ps m' a = record {
  still = λ g o. record {
    off_root = o.off_root;
    in_use = a.shrinks g o.in_use;
    off_tables = TablesFrom-off d m ps m' g a.tables o.in_use o.off_tables;
  };
  words = λ g j o. a.words g j o.off_root o.in_use o.off_tables;
}

module _ (d q n : ℕ) (low : (q + n) * 4096 ≤ utop) (m : Mem) (ps : List ℕ) (m1 : Mem)
    (a : Allocated d q n m ps m1) where
  off_frames : (g : ℕ) → Owned d m ps g → (p : ℕ) → q ≤ p → p < q + n → a.frame p ≢ g
  off_frames g o p lo hi e = ground (arith, a.was_free p lo hi, o.in_use, ap (λ f. has f ps) e)

  -- The owned frames once the frames of the region are written, twice.
  written-Keeps :
      (m2 m3 : Mem)
      → Quiet d q n low a.frame m1 m2
      → Quiet d q n low a.frame m2 m3
      → Keeps d m ps m3 a.left
  written-Keeps m2 m3 x y =
      let k = Allocated-Keeps d q n m ps m1 a in
      record {
        still = λ g o.
            let o1 = k.still g o in
            record {
              off_root = o1.off_root;
              in_use = o1.in_use;
              off_tables = λ i lt there.
                  let row = y.rows i ∙ x.rows i in rw row (o1.off_tables i lt (rw row at there));
            };
        words =
            λ g j o. y.words g j (off_frames g o) ∙ x.words g j (off_frames g o) ∙ k.words g j o;
      }

  -- A byte of the region.
  region-Shows :
      (m3 : Mem) (b : Backed d q n a.frame m3) (x v : ℕ)
      → q ≤ x / 4096
      → x / 4096 < q + n
      → byte_at d q n low a.frame x m3 ≡ v
      → Shows d m3 a.left x v
  unfolding byte_at
  region-Shows m3 b x v lo hi holds =
      let f : pte_of (a.frame (x / 4096)) (bit_or pte_w pte_u) / 4096 ≡ a.frame (x / 4096) =
        entry_frame d q n low a.frame m3 b x lo hi in
      record {
        pte = pte_of (a.frame (x / 4096)) (bit_or pte_w pte_u);
        mapped = entry d q n low a.frame m3 b x lo hi;
        owned = rw f (record {
          off_root = λ e. b.off_root (x / 4096) lo hi (sym e);
          in_use = a.used (x / 4096) lo hi;
          off_tables = b.off_tables (x / 4096) lo hi;
        });
        holds = ap (λ g. byte g (x % 4096) m3) f ∙ holds;
      }

-- In a well-formed space, for a segment below UTOP none of whose pages is mapped, with two free
-- pages for each of its pages: the round of `load_icode` for it returns, and leaves it `Loaded`.
pub load_segment-Loaded :
    (e d : ℕ) (binary : Bytes) (ph : Proghdr) (k : Kernel) (ps : List ℕ)
    → (k.envs e).env_pgdir ≡ some d
    → IsSpace k.mem d ps
    → Fits ph
    → ((i : ℕ) → binary i < 256)
    → ((p : ℕ) → first_page ph ≤ p → p < end_page ph → translate k.mem d (p * 4096) ≡ none)
    → 2 * (end_page ph - first_page ph) ≤ length ps
    → (m' : Mem) × (load_segment e d binary ph k ≡ ok (set_mem m' k))
      × Loaded d binary ph k.mem ps m'
unfolding load_segment
load_segment-Loaded e d binary ph k ps root s fits bytes gone enough =
    let va : ℕ = ph.p_va in
    let q : ℕ = va / 4096 in
    let n : ℕ = (va + ph.p_memsz + 4095) / 4096 - va / 4096 in
    let (m1, runs, a) = region_alloc_lem e va ph.p_memsz d k ps root s fits.low gone enough in
    let under : (q + n) * 4096 ≤ utop = omega (arith, fits.low) in
    let b1 = Allocated-Backed d q n k.mem ps m1 s a in
    let (m2, clears, b2, zeros, same2, quiet2) =
      put_bytes-Backed d q n under a.frame va (λ i. 0) ph.p_memsz m1 (omega arith) (omega arith)
        (λ i. omega arith) b1 in
    let (m3, copies, b3, reads, same3, quiet3) =
      put_bytes-Backed d q n under a.frame va (λ i. binary (ph.p_offset + i)) ph.p_filesz m2
        (omega arith) (omega (arith, fits.shorter)) (λ i. bytes (ph.p_offset + i)) b2 in
    (
      m3,
      rw (runs, clears, copies) refl,
      record {
        left = a.left;
        space = quiet3.space a.left (quiet2.space a.left a.space);
        keeps = written-Keeps d q n under k.mem ps m1 a m2 m3 quiet2 quiet3;
        spare = a.spare;
        shown = λ i lt.
            let first : q ≤ (va + i) / 4096 = omega arith in
            let last : (va + i) / 4096 < q + n = omega (arith, lt) in
            region-Shows d q n under k.mem ps m1 a m3 b3 (va + i) (content binary ph i) first last (
              reads (va + i) first last
              ∙ segment_byte va i ph.p_filesz ph.p_memsz ph.p_offset _ _ binary lt
                  (zeros (va + i) first last));
        others = λ x small out.
            same3 x small
            ∙ same2 x small
            ∙ a.others x small (elim out [ inl h ↦ inl h | inr h ↦ inr (omega (arith, h)) ]);
      },
    )
