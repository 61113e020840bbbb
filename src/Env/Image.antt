-- ===== src/Env/Image.antt =====
-- The stores of `load_icode` of kern/env.c to pages of their own.
use jos_lab.Base.{
  ℕ, zero, suc, ◌+◌, ◌-◌, ◌*◌, ◌/◌, ◌%◌, ◌^◌, ◌≤◌, ◌<◌, ◌≡◌, ◌≢◌, refl, sym, ap, ◌∙◌, inl, inr,
  true, false, ◌&&◌, Option, some, none, List, ◌==◌, ltb, leb, if◌then◌else◌, Bool-cases, eq_of_eqb,
  ne→eqb, eq_self, bit_or, bit_or_bit, max, ok, arith,
}
use jos_lab.Mmu.{word_mod, pdx, ptx, utop, pte_w, pte_u, is_present, is_writeable}
use jos_lab.Pmap.{Mem, page2pa}
use jos_lab.Pmap.Space.{translate, IsSpace, translate-eq, pdx-lt, pte_fields}
use jos_lab.Pmap.Free.{words-FreeList}
use jos_lab.Pmap.Entry.{IsSpace-move}
use jos_lab.Pmap.Insert.{pte_of}
use jos_lab.Strings.{Bytes}
use jos_lab.Trap.Fault.{set_byte, put_at, put_byte}
use jos_lab.Trap.Bytes.{byte, byte-set_byte}
use jos_lab.Env.Load.{put_bytes}

abbrev pub read_at : Option ℕ → ℕ → Mem → Option ℕ
read_at none a m = none
read_at (some pte) a m = some (byte (pte / 4096) (a % 4096) m)

-- The byte that a user finds at an address, if its page is mapped.
abbrev pub user_byte : Mem → ℕ → ℕ → Option ℕ
user_byte m d a = read_at (translate m d a) a m

-- The `n` pages from page `q` on stand in the frames `frame`, all different and none of them the
-- directory or one of its tables.
pub record Backed (d q n : ℕ) (frame : ℕ → ℕ) (m : Mem) : Type 0 where
  pub entries :
      (p : ℕ)
      → q ≤ p
      → p < q + n
      → translate m d (p * 4096) ≡ some (pte_of (frame p) (bit_or pte_w pte_u))
  pub off_tables :
      (p : ℕ)
      → q ≤ p
      → p < q + n
      → (i : ℕ) → i < pdx utop
      → is_present (m.word d i) ≡ true
      → m.word d i / 4096 ≢ frame p
  pub off_root : (p : ℕ) → q ≤ p → p < q + n → d ≢ frame p
  pub distinct : (p p' : ℕ) → q ≤ p → p < p' → p' < q + n → frame p ≢ frame p'
  pub small : (p : ℕ) → q ≤ p → p < q + n → frame p < 2 ^ 20

-- An entry made with PTE_W lets the kernel write.
writable : (f : ℕ) → is_writeable (pte_of f (bit_or pte_w pte_u)) ≡ true
writable f =
    let whole : bit_or (bit_or (page2pa f) 6) 1 / 2 % 2 ≡ max (bit_or (page2pa f) 6 / 2 % 2) 0 =
      bit_or_bit 1 (bit_or (page2pa f) 6) 1 in
    let flags : bit_or (page2pa f) 6 / 2 % 2 ≡ max (page2pa f / 2 % 2) 1 =
      bit_or_bit 1 (page2pa f) 6 in
    let bit : bit_or (bit_or (page2pa f) 6) 1 / 2 % 2 ≡ 1 = omega (arith, whole, flags) in
    ap (λ b. b == 1) bit

translate-page_base : (m : Mem) (d a : ℕ) → translate m d a ≡ translate m d (a / 4096 * 4096)
unfolding translate
translate-page_base m d a =
    let i : pdx (a / 4096 * 4096) ≡ pdx a = omega arith in
    let j : ptx (a / 4096 * 4096) ≡ ptx a = omega arith in rw (i, j) refl

run_extends :
    (va len a rest : ℕ) (src : Bytes)
    → (if a == va + len
        then src len
        else if leb va a && ltb a (va + len)
        then src (a - va)
        else rest)
      ≡ (if leb va a && ltb a (va + suc len) then src (a - va) else rest)
run_extends va len a rest src = elim (Bool-cases (a == va + len)) [
  | inl last ↦
      let off : a - va ≡ len = ground arith in
      let within : (leb va a && ltb a (va + suc len)) ≡ true = ground arith in
      rw (last, within) (ap src (sym off))
  | inr other ↦
      let same : (leb va a && ltb a (va + suc len)) ≡ (leb va a && ltb a (va + len)) =
        ground arith in
      rw (other, same) refl
]

module _ (d q n : ℕ) (low : (q + n) * 4096 ≤ utop) (frame : ℕ → ℕ) where
  -- The byte behind an address of the region.
  unfoldable pub byte_at : ℕ → Mem → ℕ
  byte_at a m = byte (frame (a / 4096)) (a % 4096) m

  module _ (m : Mem) (b : Backed d q n frame m) (a : ℕ) (lo : q ≤ a / 4096)
      (hi : a / 4096 < q + n) where
    pub entry : translate m d a ≡ some (pte_of (frame (a / 4096)) (bit_or pte_w pte_u))
    entry = translate-page_base m d a ∙ b.entries (a / 4096) lo hi

    pub entry_frame : pte_of (frame (a / 4096)) (bit_or pte_w pte_u) / 4096 ≡ frame (a / 4096)
    entry_frame =
        let f = frame (a / 4096) in
        let inside = b.small (a / 4096) lo hi in
        let fields = pte_fields (page2pa f) (bit_or pte_w pte_u) (omega arith) (omega arith) in
        omega (arith, fields.1, inside)

    pub user_byte-Backed : user_byte m d a ≡ some (byte_at a m)
    unfolding byte_at
    user_byte-Backed = ap (λ o. read_at o a m) entry ∙ rw entry_frame refl

    put_byte-Backed : (v : ℕ) → put_byte d a v m ≡ ok (set_byte (frame (a / 4096)) (a % 4096) v m)
    unfolding put_byte put_at
    put_byte-Backed v =
        ap (λ o. put_at o a v m) entry ∙ rw (writable (frame (a / 4096)), entry_frame) refl

    row : (v i : ℕ) → (set_byte (frame (a / 4096)) (a % 4096) v m).word d i ≡ m.word d i
    unfolding set_byte
    row v i = rw (ne→eqb d (frame (a / 4096)) (b.off_root (a / 4096) lo hi)) refl

    set_byte_words :
        (v g j : ℕ)
        → g ≢ frame (a / 4096)
        → (set_byte (frame (a / 4096)) (a % 4096) v m).word g j ≡ m.word g j
    unfolding set_byte
    set_byte_words v g j ne = rw (ne→eqb g (frame (a / 4096)) ne) refl

    set_byte-IsSpace :
        (v : ℕ) (ps : List ℕ)
        → IsSpace m d ps
        → IsSpace (set_byte (frame (a / 4096)) (a % 4096) v m) d ps
    unfolding set_byte
    set_byte-IsSpace v ps s =
        IsSpace-move s (set_byte (frame (a / 4096)) (a % 4096) v m) ps refl (row v)
          (words-FreeList _ m ps s.free) s.root s.in_use

    set_byte-translate :
        (v va : ℕ)
        → va < utop
        → translate (set_byte (frame (a / 4096)) (a % 4096) v m) d va ≡ translate m d va
    unfolding set_byte
    set_byte-translate v va small =
        translate-eq m d va (set_byte (frame (a / 4096)) (a % 4096) v m) (row v (pdx va)) λ here.
          rw
            (ne→eqb (m.word d (pdx va) / 4096) (frame (a / 4096))
              (b.off_tables (a / 4096) lo hi (pdx va) (pdx-lt va small) here))
            refl

    set_byte-Backed : (v : ℕ) → Backed d q n frame (set_byte (frame (a / 4096)) (a % 4096) v m)
    set_byte-Backed v = record {
      entries = λ p l h. set_byte-translate v (p * 4096) (omega (arith, low, h)) ∙ b.entries p l h;
      off_tables = λ p l h i lt there.
          let same = row v i in rw same (b.off_tables p l h i lt (rw same at there));
      off_root = b.off_root;
      distinct = b.distinct;
      small = b.small;
    }

    frames_apart :
        (a' : ℕ)
        → q ≤ a' / 4096
        → a' / 4096 < q + n
        → frame (a' / 4096) ≡ frame (a / 4096)
        → a' / 4096 ≡ a / 4096
    frames_apart a' l h e = elim (Bool-cases (a' / 4096 == a / 4096)) [
      | inl same ↦ eq_of_eqb _ _ same
      | inr other ↦ elim (Bool-cases (ltb (a' / 4096) (a / 4096))) [
        | inl before ↦ absurd (b.distinct (a' / 4096) (a / 4096) l (ground arith) hi e)
        | inr behind ↦ absurd (b.distinct (a / 4096) (a' / 4096) lo (ground arith) h (sym e))
      ]
    ]

    byte_at-set_byte :
        (v a' : ℕ)
        → v < 256
        → q ≤ a' / 4096
        → a' / 4096 < q + n
        → byte_at a' (set_byte (frame (a / 4096)) (a % 4096) v m)
          ≡ (if a' == a then v else byte_at a' m)
    unfolding byte_at
    byte_at-set_byte v a' word l h =
        byte-set_byte (frame (a / 4096)) (a % 4096) v (frame (a' / 4096)) (a' % 4096) m word
        ∙ elim (Bool-cases (a' == a)) [
          | inl same ↦
              let e : a' ≡ a = eq_of_eqb a' a same in
              rw (same, e, eq_self (frame (a / 4096)), eq_self (a % 4096)) refl
          | inr other ↦ elim (Bool-cases (frame (a' / 4096) == frame (a / 4096))) [
            | inl near ↦
                let page = frames_apart a' l h (eq_of_eqb _ _ near) in
                let apart : (a' % 4096 == a % 4096) ≡ false = ground (arith, page, other) in
                rw (near, apart, other) refl
            | inr far ↦ rw (far, other) refl
          ]
        ]

  -- Stores to the frames of the region, and to nothing else.
  pub record Quiet (m m' : Mem) : Type 0 where
    pub rows : (i : ℕ) → m'.word d i ≡ m.word d i
    pub words : (g j : ℕ) → ((p : ℕ) → q ≤ p → p < q + n → frame p ≢ g) → m'.word g j ≡ m.word g j
    pub space : (ps : List ℕ) → IsSpace m d ps → IsSpace m' d ps

  -- The stores of a run of bytes inside the region.
  pub put_bytes-Backed :
      (va : ℕ) (src : Bytes) (len : ℕ) (m : Mem)
      → q * 4096 ≤ va
      → va + len ≤ (q + n) * 4096
      → ((i : ℕ) → src i < 256)
      → Backed d q n frame m
      → (m' : Mem) × (put_bytes d va src len m ≡ ok m')
        × Backed d q n frame m'
        × ((a : ℕ)
            → q ≤ a / 4096
            → a / 4096 < q + n
            → byte_at a m' ≡ (if leb va a && ltb a (va + len) then src (a - va) else byte_at a m))
        × ((a : ℕ) → a < utop → translate m' d a ≡ translate m d a)
        × Quiet m m'
  unfolding put_bytes
  put_bytes-Backed va src zero m lo hi bytes b = (
    m,
    refl,
    b,
    λ a l h. ground arith,
    λ a small. refl,
    record { rows = λ i. refl; words = λ g j out. refl; space = λ ps s. s },
  )
  put_bytes-Backed va src (suc len) m lo hi bytes b =
      let (m1, runs, b1, reads, same, quiet) =
        put_bytes-Backed va src len m lo (omega (arith, hi)) bytes b in
      let inside : (va + len) % word_mod ≡ va + len = omega (arith, hi, low) in
      let first : q ≤ (va + len) / 4096 = omega (arith, lo) in
      let last : (va + len) / 4096 < q + n = omega (arith, hi) in
      (
        set_byte (frame ((va + len) / 4096)) ((va + len) % 4096) (src len) m1,
        rw (runs, inside) (put_byte-Backed m1 b1 (va + len) first last (src len)),
        set_byte-Backed m1 b1 (va + len) first last (src len),
        λ a l h.
            byte_at-set_byte m1 b1 (va + len) first last (src len) a (bytes len) l h
            ∙ ap (λ w. if a == va + len then src len else w) (reads a l h)
            ∙ run_extends va len a (byte_at a m) src,
        λ a small. set_byte-translate m1 b1 (va + len) first last (src len) a small ∙ same a small,
        record {
          rows = λ i. row m1 b1 (va + len) first last (src len) i ∙ quiet.rows i;
          words = λ g j out.
              set_byte_words m1 b1 (va + len) first last (src len) g j
                (λ e. out ((va + len) / 4096) first last (sym e))
              ∙ quiet.words g j out;
          space =
              λ ps s. set_byte-IsSpace m1 b1 (va + len) first last (src len) ps (quiet.space ps s);
        },
      )
