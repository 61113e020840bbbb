-- ===== src/Trap/Bytes.antt =====
-- Bytes and words in a frame of memory, as `page_fault_handler` stores them.
use jos_lab.Base.{
  ℕ, ◌+◌, ◌*◌, ◌/◌, ◌%◌, ◌≤◌, ◌<◌, ◌≡◌, ◌⊎◌, inl, inr, refl, ◌==◌, ◌&&◌, if◌then◌else◌, false,
  Bool-cases, eq_of_eqb, ◌∙◌, ◌^◌, arith,
}
use jos_lab.Pmap.{Mem}
use jos_lab.Trap.Fault.{byte_in, with_byte, set_byte}

byte_in-with_byte :
    (i j b w : ℕ)
    → i < 4
    → j < 4
    → b < 256
    → byte_in j (with_byte i b w) ≡ (if j == i then b else byte_in j w)
byte_in-with_byte i j b w hi hj hb = ground arith

-- Byte `o` of frame `f`.
abbrev pub byte : ℕ → ℕ → Mem → ℕ
byte f o m = byte_in (o % 4) (m.word f (o / 4))

pub byte-set_byte :
    (f o b g p : ℕ) (m : Mem)
    → b < 256
    → byte g p (set_byte f o b m) ≡ (if (g == f) && (p == o) then b else byte g p m)
unfolding set_byte
byte-set_byte f o b g p m h = elim (Bool-cases (g == f)) [
  | inr other ↦ rw other refl
  | inl same ↦ elim (Bool-cases (p / 4 == o / 4)) [
    | inr away ↦
        let apart : (p == o) ≡ false = ground arith in
        rw (same, away, apart) (rw (eq_of_eqb g f same) refl)
    | inl near ↦
        let word : p / 4 ≡ o / 4 = ground arith in
        let tests : (p % 4 == o % 4) ≡ (p == o) = ground arith in
        rw (same, near)
          (byte_in-with_byte (o % 4) (p % 4) b (m.word f (o / 4)) (omega arith) (omega arith) h
            ∙ rw (tests, eq_of_eqb g f same, word) refl)
  ]
]

-- The word whose first byte is byte `o`, which need not be aligned.
abbrev pub read_word : ℕ → ℕ → Mem → ℕ
read_word f o m =
    byte f o m + byte f (o + 1) m * 256 + byte f (o + 2) m * 65536 + byte f (o + 3) m * 16777216

-- The four stores of a word.
abbrev pub set_word : ℕ → ℕ → ℕ → Mem → Mem
set_word f o v m = set_byte f (o + 3) (v / 16777216 % 256) (
    set_byte f (o + 2) (v / 65536 % 256)
      (set_byte f (o + 1) (v / 256 % 256) (set_byte f o (v % 256) m)))

-- What a byte holds after them.
pub byte-set_word :
    (f o v g p : ℕ) (m : Mem)
    → byte g p (set_word f o v m) ≡ (
        if (g == f) && (p == o + 3)
        then v / 16777216 % 256
        else if (g == f) && (p == o + 2)
        then v / 65536 % 256
        else if (g == f) && (p == o + 1)
        then v / 256 % 256
        else if (g == f) && (p == o)
        then v % 256
        else byte g p m)
byte-set_word f o v g p m =
    rw
      (
        byte-set_byte f (o + 3) (v / 16777216 % 256) g p _ (omega arith),
        byte-set_byte f (o + 2) (v / 65536 % 256) g p _ (omega arith),
        byte-set_byte f (o + 1) (v / 256 % 256) g p _ (omega arith),
        byte-set_byte f o (v % 256) g p m (omega arith),
      )
      refl

-- A stored word is read back, and a word apart from it is as before.
pub read_word-set_word : (f o v : ℕ) (m : Mem) → v < 2 ^ 32 → read_word f o (set_word f o v m) ≡ v
read_word-set_word f o v m h =
    let b0 : byte f o (set_word f o v m) ≡ v % 256 = byte-set_word f o v f o m ∙ ground arith in
    let b1 : byte f (o + 1) (set_word f o v m) ≡ v / 256 % 256 =
      byte-set_word f o v f (o + 1) m ∙ ground arith in
    let b2 : byte f (o + 2) (set_word f o v m) ≡ v / 65536 % 256 =
      byte-set_word f o v f (o + 2) m ∙ ground arith in
    let b3 : byte f (o + 3) (set_word f o v m) ≡ v / 16777216 % 256 =
      byte-set_word f o v f (o + 3) m ∙ ground arith in
    rw (b0, b1, b2, b3) (omega arith)

pub read_word-apart :
    (f o v p : ℕ) (m : Mem)
    → (p + 4 ≤ o) ⊎ (o + 4 ≤ p)
    → read_word f p (set_word f o v m) ≡ read_word f p m
read_word-apart f o v p m apart =
    let b : (i : ℕ) → i < 4 → byte f (p + i) (set_word f o v m) ≡ byte f (p + i) m =
      λ i h. byte-set_word f o v f (p + i) m ∙ ground arith in
    let b0 : byte f p (set_word f o v m) ≡ byte f p m = byte-set_word f o v f p m ∙ ground arith in
    rw (b0, b 1 (omega arith), b 2 (omega arith), b 3 (omega arith)) refl
