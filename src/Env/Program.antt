-- ===== src/Env/Program.antt =====
-- `load_icode` of kern/env.c: a whole ELF image in the memory of its environment.
use jos_lab.Base.{
  ℕ, zero, suc, ◌+◌, ◌-◌, ◌*◌, ◌/◌, ◌≤◌, ◌<◌, ◌≡◌, ◌⊎◌, refl, ◌∙◌, inl, inr, true, false, some,
  none, List, [], ◌∷◌, All, length, ◌==◌, if◌then◌else◌, Bool-cases, ok, arith,
}
use jos_lab.Mmu.{utop}
use jos_lab.Pmap.{Mem}
use jos_lab.Pmap.Space.{translate, IsSpace}
use jos_lab.Strings.{Bytes}
use jos_lab.Env.{Kernel, set_mem}
use jos_lab.Env.Load.{Proghdr, proghdr_at, elf_prog_load, load_segments}
use jos_lab.Env.Segment.{
  Shows, Shows-kept, Keeps, Fits, first_page, end_page, content, Loaded, load_segment-Loaded,
}

-- The `n` program headers from offset `ph` on.
abbrev pub headers : Bytes → ℕ → ℕ → List Proghdr
headers binary zero ph = []
headers binary (suc n) ph = proghdr_at binary ph ∷ headers binary n (ph + 32)

abbrev pub IsLoad : Proghdr → Type 0
IsLoad x = (x.p_type == elf_prog_load) ≡ true

-- No page belongs to both segments.
abbrev pub Apart : Proghdr → Proghdr → Type 0
Apart x y = (end_page x ≤ first_page y) ⊎ (end_page y ≤ first_page x)

-- No page of the segment is mapped.
abbrev pub Fresh : ℕ → Mem → Proghdr → Type 0
Fresh d m x = (p : ℕ) → first_page x ≤ p → p < end_page x → translate m d (p * 4096) ≡ none

-- The segments fit, on fresh pages that they do not share.
abbrev pub Layout : ℕ → Mem → List Proghdr → Type 0
Layout d m [] = Unit
Layout d m (x ∷ xs) =
    (IsLoad x → Fits x × Fresh d m x × All (λ y. IsLoad y → Apart x y) xs) × Layout d m xs

-- Two pages for each page of a segment: its own, and one for a page table.
abbrev pub needed : List Proghdr → ℕ
needed [] = 0
needed (x ∷ xs) =
    (if x.p_type == elf_prog_load then 2 * (end_page x - first_page x) else 0) + needed xs

-- The address is in no page of a segment.
abbrev pub OutOf : ℕ → List Proghdr → Type 0
OutOf a xs = All (λ x. IsLoad x → (a / 4096 < first_page x) ⊎ (end_page x ≤ a / 4096)) xs

-- The user finds every segment in the memory.
abbrev pub Present : ℕ → Bytes → Mem → List ℕ → List Proghdr → Type 0
Present d binary m ps xs =
    All (λ x. IsLoad x → (i : ℕ) → i < x.p_memsz → Shows d m ps (x.p_va + i) (content binary x i))
      xs

pub record LoadedAll (d : ℕ) (binary : Bytes) (xs : List Proghdr) (m : Mem) (ps : List ℕ) (m' : Mem)
    : Type 0 where
  pub left : List ℕ
  pub space : IsSpace m' d left
  pub keeps : Keeps d m ps m' left
  pub spare : length ps ≤ length left + needed xs
  pub shown : Present d binary m' left xs
  pub others : (a : ℕ) → a < utop → OutOf a xs → translate m' d a ≡ translate m d a

Keeps-trans :
    (d : ℕ) (m1 : Mem) (ps1 : List ℕ) (m2 : Mem) (ps2 : List ℕ) (m3 : Mem) (ps3 : List ℕ)
    → Keeps d m1 ps1 m2 ps2
    → Keeps d m2 ps2 m3 ps3
    → Keeps d m1 ps1 m3 ps3
Keeps-trans d m1 ps1 m2 ps2 m3 ps3 k l = record {
  still = λ g o. l.still g (k.still g o);
  words = λ g j o. l.words g j (k.still g o) ∙ k.words g j o;
}

-- An address in a segment is in no segment apart from it.
OutOf-Apart :
    (a : ℕ) (x : Proghdr) (xs : List Proghdr)
    → first_page x ≤ a / 4096
    → a / 4096 < end_page x
    → All (λ y. IsLoad y → Apart x y) xs
    → OutOf a xs
OutOf-Apart a x [] lo hi all = _
OutOf-Apart a x (y ∷ ys) lo hi (here, all) = (
  λ load. elim (here load) [ inl h ↦ inl (omega arith) | inr h ↦ inr (omega arith) ],
  OutOf-Apart a x ys lo hi all,
)

-- The segments behind a loaded one are as fresh as before.
Layout-after :
    (d : ℕ) (m m1 : Mem) (x : Proghdr) (xs : List Proghdr)
    → ((a : ℕ)
        → a < utop
        → (a / 4096 < first_page x) ⊎ (end_page x ≤ a / 4096)
        → translate m1 d a ≡ translate m d a)
    → All (λ y. IsLoad y → Apart x y) xs
    → Layout d m xs
    → Layout d m1 xs
Layout-after d m m1 x [] others all l = _
Layout-after d m m1 x (y ∷ ys) others (here, all) (first, rest) = (
  λ load.
      let (fits, fresh, apart) = first load in
      (
        fits,
        λ p lo hi.
            others (p * 4096) (omega (arith, fits.low, hi)) (elim (here load) [
              | inl h ↦ inr (omega (arith, lo, h))
              | inr h ↦ inl (omega (arith, hi, h))
            ])
            ∙ fresh p lo hi,
        apart,
      ),
  Layout-after d m m1 x ys others all rest,
)

Present-kept :
    (d : ℕ) (binary : Bytes) (x : Proghdr) (xs : List Proghdr) (m1 : Mem) (ps1 : List ℕ) (m' : Mem)
    → (r : LoadedAll d binary xs m1 ps1 m') → Fits x
    → All (λ y. IsLoad y → Apart x y) xs
    → ((i : ℕ) → i < x.p_memsz → Shows d m1 ps1 (x.p_va + i) (content binary x i))
    → (i : ℕ) → i < x.p_memsz
    → Shows d m' r.left (x.p_va + i) (content binary x i)
Present-kept d binary x xs m1 ps1 m' r fits apart shows i lt =
    Shows-kept d m1 ps1 m' r.left (x.p_va + i) (content binary x i) r.keeps
      (r.others (x.p_va + i) (omega (arith, fits.low, lt))
        (OutOf-Apart (x.p_va + i) x xs (omega arith) (omega (arith, lt)) apart))
      (shows i lt)

needed-load :
    (x : Proghdr) (xs : List Proghdr)
    → IsLoad x
    → needed (x ∷ xs) ≡ 2 * (end_page x - first_page x) + needed xs
needed-load x xs load = rw load refl

needed-skip :
    (x : Proghdr) (xs : List Proghdr)
    → (x.p_type == elf_prog_load) ≡ false
    → needed (x ∷ xs) ≡ needed xs
needed-skip x xs skip = rw skip (omega arith)

-- A header that is not loaded changes nothing.
skip_join :
    (d : ℕ) (binary : Bytes) (x : Proghdr) (xs : List Proghdr) (m : Mem) (ps : List ℕ) (m' : Mem)
    → (x.p_type == elf_prog_load) ≡ false
    → LoadedAll d binary xs m ps m'
    → LoadedAll d binary (x ∷ xs) m ps m'
skip_join d binary x xs m ps m' skip r = record {
  left = r.left;
  space = r.space;
  keeps = r.keeps;
  spare = rw (needed-skip x xs skip) r.spare;
  shown = (λ load i lt. ground (arith, skip, load), r.shown);
  others = λ a low out. r.others a low out.1;
}

load_join :
    (d : ℕ) (binary : Bytes) (x : Proghdr) (xs : List Proghdr) (m : Mem) (ps : List ℕ) (m1 m' : Mem)
    → IsLoad x
    → Fits x
    → All (λ y. IsLoad y → Apart x y) xs
    → (l : Loaded d binary x m ps m1) → LoadedAll d binary xs m1 l.left m'
    → LoadedAll d binary (x ∷ xs) m ps m'
load_join d binary x xs m ps m1 m' load fits apart l r = record {
  left = r.left;
  space = r.space;
  keeps = Keeps-trans d m ps m1 l.left m' r.left l.keeps r.keeps;
  spare = omega (arith, needed-load x xs load, l.spare, r.spare);
  shown = (λ _. Present-kept d binary x xs m1 l.left m' r fits apart l.shown, r.shown);
  others = λ a low out. r.others a low out.1 ∙ l.others a low (out.0 load);
}

pub load_segments-Loaded :
    (n ph e d : ℕ) (binary : Bytes) (k : Kernel) (ps : List ℕ)
    → (k.envs e).env_pgdir ≡ some d
    → IsSpace k.mem d ps
    → ((i : ℕ) → binary i < 256)
    → Layout d k.mem (headers binary n ph)
    → needed (headers binary n ph) ≤ length ps
    → (m' : Mem) × (load_segments n ph e d binary k ≡ ok (set_mem m' k))
      × LoadedAll d binary (headers binary n ph) k.mem ps m'
unfolding load_segments
load_segments-Loaded zero ph e d binary k ps root s bytes layout enough = (
  k.mem,
  refl,
  record {
    left = ps;
    space = s;
    keeps = record { still = λ g o. o; words = λ g j o. refl };
    spare = omega arith;
    shown = _;
    others = λ a low out. refl;
  },
)
load_segments-Loaded (suc n) ph e d binary k ps root s bytes (first, rest) enough =
    elim (Bool-cases ((proghdr_at binary ph).p_type == elf_prog_load)) [
      | inr skip ↦
          let (m', runs, r) = load_segments-Loaded n (ph + 32) e d binary k ps root s bytes rest (
            omega (
              arith,
              needed-skip (proghdr_at binary ph) (headers binary n (ph + 32)) skip,
              enough,
            )) in
          (m', rw skip runs, skip_join d binary _ _ k.mem ps m' skip r)
      | inl load ↦
          let x = proghdr_at binary ph in
          let xs = headers binary n (ph + 32) in
          let (fits, fresh, apart) = first load in
          let (m1, run1, l) =
            load_segment-Loaded e d binary x k ps root s fits bytes fresh
              (omega (arith, needed-load x xs load, enough)) in
          let (m', runs, r) =
            load_segments-Loaded n (ph + 32) e d binary (set_mem m1 k) l.left root l.space bytes
              (Layout-after d k.mem m1 x xs l.others apart rest)
              (omega (arith, needed-load x xs load, enough, l.spare)) in
          (m', rw (load, run1) runs, load_join d binary x xs k.mem ps m1 m' load fits apart l r)
    ]
