-- ===== src/Trap/Stores.antt =====
-- What the stores of `page_fault_handler` come to when they stay in one page of the user's space.
use jos_lab.Base.{
  ℕ, ◌+◌, ◌/◌, ◌%◌, ◌^◌, ◌≤◌, ◌<◌, ◌≡◌, ◌≢◌, ◌⊎◌, refl, ap, ◌∙◌, true, Bool, ◌&&◌, ◌||◌, leb, List,
  [], ◌∷◌, All, ne→eqb, ok, arith,
}
use jos_lab.Mmu.{word_mod, pdx, ptx, is_present, is_writeable}
use jos_lab.Pmap.{Mem}
use jos_lab.Pmap.Space.{translate_page}
use jos_lab.Trap.Fault.{set_byte, put_at, put_byte, put_word, put_fields}
use jos_lab.Trap.Bytes.{
  byte, byte-set_word, read_word, set_word, read_word-set_word, read_word-apart,
}

-- The page of address `a` stands in frame `f`, writable, by way of page table `t`; `f` is neither
-- that table nor the directory `d`.
pub record Home (d a t f : ℕ) (m : Mem) : Type 0 where
  pub dir : is_present (m.word d (pdx a)) ≡ true
  pub table : m.word d (pdx a) / 4096 ≡ t
  pub page : is_present (m.word t (ptx a)) ≡ true
  pub writable : is_writeable (m.word t (ptx a)) ≡ true
  pub frame : m.word t (ptx a) / 4096 ≡ f
  pub off_root : d ≢ f
  pub off_table : t ≢ f

module _ (d a t f : ℕ) where
  set_byte-Home : (o v : ℕ) (m : Mem) → Home d a t f m → Home d a t f (set_byte f o v m)
  unfolding set_byte
  set_byte-Home o v m h =
      let root = ne→eqb d f h.off_root in
      let table = ne→eqb t f h.off_table in
      record {
        dir = rw root h.dir;
        table = rw root h.table;
        page = rw table h.page;
        writable = rw table h.writable;
        frame = rw table h.frame;
        off_root = h.off_root;
        off_table = h.off_table;
      }

  put_byte-ok :
      (b v : ℕ) (m : Mem)
      → Home d a t f m
      → b / 4096 ≡ a / 4096
      → put_byte d b v m ≡ ok (set_byte f (b % 4096) v m)
  unfolding put_byte put_at
  put_byte-ok b v m h e =
      let i : pdx b ≡ pdx a = omega (arith, e) in
      let j : ptx b ≡ ptx a = omega (arith, e) in
      ap (λ o. put_at o b v m) (translate_page m d b t (rw i h.dir) (rw i h.table) (rw j h.page))
      ∙ rw (j, h.writable, h.frame) refl

  put_word-ok :
      (b v : ℕ) (m : Mem)
      → Home d a t f m
      → b / 4096 ≡ a / 4096
      → b % 4096 + 4 ≤ 4096
      → b + 4 ≤ word_mod
      → (put_word d b v m ≡ ok (set_word f (b % 4096) v m))
        × Home d a t f (set_word f (b % 4096) v m)
  unfolding put_word
  put_word-ok b v m h e within fits =
      let m1 : Mem = set_byte f (b % 4096) (v % 256) m in
      let h1 = set_byte-Home (b % 4096) (v % 256) m h in
      let m2 : Mem = set_byte f (b % 4096 + 1) (v / 256 % 256) m1 in
      let h2 = set_byte-Home (b % 4096 + 1) (v / 256 % 256) m1 h1 in
      let m3 : Mem = set_byte f (b % 4096 + 2) (v / 65536 % 256) m2 in
      let h3 = set_byte-Home (b % 4096 + 2) (v / 65536 % 256) m2 h2 in
      let a1 : (b + 1) % word_mod ≡ b + 1 = omega (arith, fits) in
      let a2 : (b + 2) % word_mod ≡ b + 2 = omega (arith, fits) in
      let a3 : (b + 3) % word_mod ≡ b + 3 = omega (arith, fits) in
      let o1 : (b + 1) % 4096 ≡ b % 4096 + 1 = omega (arith, within) in
      let o2 : (b + 2) % 4096 ≡ b % 4096 + 2 = omega (arith, within) in
      let o3 : (b + 3) % 4096 ≡ b % 4096 + 3 = omega (arith, within) in
      let r1 = put_byte-ok (b + 1) (v / 256 % 256) m1 h1 (omega (arith, e, within)) in
      let r2 = put_byte-ok (b + 2) (v / 65536 % 256) m2 h2 (omega (arith, e, within)) in
      let r3 = put_byte-ok (b + 3) (v / 16777216 % 256) m3 h3 (omega (arith, e, within)) in
      (
        rw (a1, a2, a3, put_byte-ok b (v % 256) m h e)
            (rw r1 (rw o1 (rw r2 (rw o2 (r3 ∙ rw o3 refl))))),
        set_byte-Home (b % 4096 + 3) (v / 16777216 % 256) m3 h3,
      )

-- The stores of a list of fields at offset `o` of frame `f`.
pub stored : ℕ → ℕ → List (ℕ × ℕ) → Mem → Mem
stored f o [] m = m
stored f o ((i, v) ∷ rest) m = stored f o rest (set_word f (o + i) v m)

-- The fields lie in the `size` bytes from the start, and no two overlap.
abbrev pub Inside : ℕ → List (ℕ × ℕ) → Type 0
Inside size fs = All (λ x. (x.0 + 4 ≤ size) × (x.1 < 2 ^ 32)) fs

abbrev pub Apart : List (ℕ × ℕ) → Type 0
Apart [] = Unit
Apart (x ∷ rest) = All (λ y. (x.0 + 4 ≤ y.0) ⊎ (y.0 + 4 ≤ x.0)) rest × Apart rest

-- `Apart`, tested on the offsets, which are known where the values are not.
unfoldable clear_of : ℕ → List (ℕ × ℕ) → Bool
clear_of i [] = true
clear_of i ((j, _) ∷ rest) = (leb (i + 4) j || leb (j + 4) i) && clear_of i rest

unfoldable pub apart : List (ℕ × ℕ) → Bool
unfolding clear_of
apart [] = true
apart ((i, _) ∷ rest) = clear_of i rest && apart rest

clear_of-Apart :
    (i : ℕ) (fs : List (ℕ × ℕ)) → clear_of i fs ≡ true → All (λ y. (i + 4 ≤ y.0) ⊎ (y.0 + 4 ≤ i)) fs
unfolding clear_of
clear_of-Apart i [] h = _
clear_of-Apart i ((j, v) ∷ rest) h = (ground arith, clear_of-Apart i rest (ground arith))

pub apart-Apart : (fs : List (ℕ × ℕ)) → apart fs ≡ true → Apart fs
unfolding apart
apart-Apart [] h = _
apart-Apart ((i, v) ∷ rest) h =
    (clear_of-Apart i rest (ground arith), apart-Apart rest (ground arith))

pub put_fields-ok :
    (d a t f size : ℕ)
    → a % 4096 + size ≤ 4096
    → a + size ≤ word_mod
    → (fs : List (ℕ × ℕ)) (m : Mem) → Inside size fs
    → Home d a t f m
    → put_fields d a fs m ≡ ok (stored f (a % 4096) fs m)
unfolding put_fields stored
put_fields-ok d a t f size page fits [] m inside h = refl
put_fields-ok d a t f size page fits ((i, v) ∷ rest) m (here, inside) h =
    let at : (a + i) % word_mod ≡ a + i = omega (arith, here.0, fits) in
    let off : (a + i) % 4096 ≡ a % 4096 + i = omega (arith, here.0, page) in
    let (runs, home) =
      put_word-ok d a t f (a + i) v m h (omega (arith, here.0, page)) (omega (arith, here.0, page))
        (omega (arith, here.0, fits)) in
    rw (at, runs)
      (rw off (
        put_fields-ok d a t f size page fits rest (set_word f (a % 4096 + i) v m) inside
          (rw off at home)))

module _ (f o : ℕ) where
  -- A word apart from the fields keeps its value.
  stored-apart :
      (p : ℕ) (fs : List (ℕ × ℕ)) (m : Mem)
      → All (λ y. (p + 4 ≤ y.0) ⊎ (y.0 + 4 ≤ p)) fs
      → read_word f (o + p) (stored f o fs m) ≡ read_word f (o + p) m
  unfolding stored
  stored-apart p [] m all = refl
  stored-apart p ((i, v) ∷ rest) m (here, all) =
      stored-apart p rest (set_word f (o + i) v m) all
      ∙ read_word-apart f (o + i) v (o + p) m (ground (arith, here))

  -- Every field is read back.
  pub stored-reads :
      (size : ℕ) (fs : List (ℕ × ℕ)) (m : Mem)
      → Inside size fs
      → Apart fs
      → All (λ x. read_word f (o + x.0) (stored f o fs m) ≡ x.1) fs
  unfolding stored
  stored-reads size [] m inside apart = _
  stored-reads size ((i, v) ∷ rest) m (here, inside) (others, apart) = (
    stored-apart i rest (set_word f (o + i) v m) others ∙ read_word-set_word f (o + i) v m here.1,
    stored-reads size rest (set_word f (o + i) v m) inside apart,
  )

  -- Nothing changes but bytes of the range.
  pub stored-outside :
      (size : ℕ) (fs : List (ℕ × ℕ)) (g p : ℕ) (m : Mem)
      → Inside size fs
      → (g ≢ f) ⊎ (p < o) ⊎ (o + size ≤ p)
      → byte g p (stored f o fs m) ≡ byte g p m
  unfolding stored
  stored-outside size [] g p m inside out = refl
  stored-outside size ((i, v) ∷ rest) g p m (here, inside) out =
      stored-outside size rest g p (set_word f (o + i) v m) inside out
      ∙ byte-set_word f (o + i) v g p m
      ∙ ground (arith, here.0, out)

  -- The stores change words of memory only.
  pub stored-words :
      (fs : List (ℕ × ℕ)) (m : Mem) → stored f o fs m ≡ record m { word = (stored f o fs m).word }
  unfolding stored set_byte
  stored-words [] m = refl
  stored-words ((i, v) ∷ rest) m = stored-words rest (set_word f (o + i) v m)
