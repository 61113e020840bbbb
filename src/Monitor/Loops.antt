-- ===== src/Monitor/Loops.antt =====
-- `runcmd` of kern/monitor.c: the loops that pass white space and words.
use jos_lab.Base.{
  ℕ, zero, suc, ◌+◌, ◌≤◌, ◌<◌, ◌≡◌, refl, ap, ◌∙◌, inl, inr, true, false, ◌||◌, List, [], ◌∷◌, ◌++◌,
  All, length, ◌==◌, update, Bool-cases, ok, arith,
}
use jos_lab.Strings.{Bytes}
use jos_lab.Strings.Length.{StringAt, StringAt-update}
use jos_lab.Monitor.Command.{is_blank, gobble, scan_word}
use jos_lab.Monitor.Words.{words, Broken, Begun, words-word}

-- The end of the line or a blank.
abbrev pub IsStop : ℕ → Type 0
IsStop c = ((c == 0) || is_blank c) ≡ true

-- What `gobble` leaves of a line.
pub record Gobbled (cs : List ℕ) (p : ℕ) (m : Bytes) (p1 : ℕ) (m1 : Bytes) : Type 0 where
  pub rest : List ℕ
  pub there : StringAt m1 p1 rest
  pub begun : Begun rest
  pub same_words : words rest ≡ words cs
  pub place : p1 + length rest ≡ p + length cs
  pub further : p ≤ p1
  pub before : (a : ℕ) → a < p → m1 a ≡ m a
  pub after : (a : ℕ) → p + length cs ≤ a → m1 a ≡ m a
  pub bytes : ((a : ℕ) → m a < 256) → (a : ℕ) → m1 a < 256
  pub stops : IsStop (m p) → m1 p ≡ 0

nothing-Gobbled :
    (cs : List ℕ) (p : ℕ) (m : Bytes)
    → StringAt m p cs
    → Begun cs
    → (IsStop (m p) → m p ≡ 0)
    → Gobbled cs p m p m
nothing-Gobbled cs p m line begun stops = record {
  rest = cs;
  there = line;
  begun = begun;
  same_words = refl;
  place = refl;
  further = omega arith;
  before = λ a lt. refl;
  after = λ a le. refl;
  bytes = λ small. small;
  stops = stops;
}

pub gobble-Gobbled :
    (fuel : ℕ) (cs : List ℕ) (p : ℕ) (m : Bytes)
    → length cs < fuel
    → StringAt m p cs
    → (p1 : ℕ) × (m1 : Bytes) × (gobble fuel p m ≡ ok (p1, m1)) × Gobbled cs p m p1 m1
unfolding gobble
gobble-Gobbled zero cs p m enough line = ground arith
gobble-Gobbled (suc fuel) [] p m enough end =
    (p, m, rw end refl, nothing-Gobbled [] p m end _ (λ s. end))
gobble-Gobbled (suc fuel) (c ∷ cs) p m enough (here, nonzero, line) =
    let more : (c == 0) ≡ false = ground arith in
    elim (Bool-cases (is_blank c)) [
      | inr letter ↦
          let no : ((m p == 0) || is_blank (m p)) ≡ false = rw (here, more, letter) refl in
          (
            p,
            m,
            rw (here, more, letter) refl,
            nothing-Gobbled (c ∷ cs) p m (here, nonzero, line) letter (λ s. cc),
          )
      | inl blank ↦
          let (p1, m1, runs, g) =
            gobble-Gobbled fuel cs (p + 1) (update m p 0) (omega (arith, enough))
              (StringAt-update m (p + 1) p 0 cs (inl (omega arith)) line) in
          (
            p1,
            m1,
            rw (here, more, blank) runs,
            record {
              rest = g.rest;
              there = g.there;
              begun = g.begun;
              same_words = rw blank g.same_words;
              place = omega (arith, g.place);
              further = omega (arith, g.further);
              before = λ a lt.
                  let other : (a == p) ≡ false = ground arith in
                  g.before a (omega (arith, lt)) ∙ rw other refl;
              after = λ a le.
                  let other : (a == p) ≡ false = ground arith in
                  g.after a (omega (arith, le)) ∙ rw other refl;
              bytes = λ small. g.bytes (λ a. update_small a (small a));
              stops = λ s.
                  let same : (p == p) ≡ true = ground arith in
                  g.before p (omega arith) ∙ rw same refl;
            },
          )
    ]
  where
    update_small : (a : ℕ) → m a < 256 → update m p 0 a < 256
    update_small a small = ground arith

-- What `scan_word` leaves of a line: the end of the word it passes.
pub record Scanned (cs : List ℕ) (p : ℕ) (m : Bytes) (p2 : ℕ) : Type 0 where
  pub word : List ℕ
  pub rest : List ℕ
  pub split : cs ≡ word ++ rest
  pub solid : All (λ c. is_blank c ≡ false) word
  pub broken : Broken rest
  pub there : StringAt m p2 rest
  pub ends : IsStop (m p2)
  pub place : p2 + length rest ≡ p + length cs
  pub further : p ≤ p2
  pub cut : (m1 : Bytes) → ((a : ℕ) → a < p2 → m1 a ≡ m a) → m1 p2 ≡ 0 → StringAt m1 p word

scan_word-Scanned :
    (fuel : ℕ) (cs : List ℕ) (p : ℕ) (m : Bytes)
    → length cs < fuel
    → StringAt m p cs
    → (p2 : ℕ) × (scan_word fuel p m ≡ ok p2) × Scanned cs p m p2
unfolding scan_word
scan_word-Scanned zero cs p m enough line = ground arith
scan_word-Scanned (suc fuel) [] p m enough end = (
  p,
  rw end refl,
  record {
    word = [];
    rest = [];
    split = refl;
    solid = _;
    broken = _;
    there = end;
    ends = rw end refl;
    place = omega arith;
    further = omega arith;
    cut = λ m1 same z. z;
  },
)
scan_word-Scanned (suc fuel) (c ∷ cs) p m enough (here, nonzero, line) =
    let more : (c == 0) ≡ false = ground arith in
    elim (Bool-cases (is_blank c)) [
      | inl blank ↦ (
        p,
        rw (here, more, blank) refl,
        record {
          word = [];
          rest = c ∷ cs;
          split = refl;
          solid = _;
          broken = blank;
          there = (here, nonzero, line);
          ends = rw (here, more, blank) refl;
          place = omega arith;
          further = omega arith;
          cut = λ m1 same z. z;
        },
      )
      | inr letter ↦
          let (p2, runs, s) = scan_word-Scanned fuel cs (p + 1) m (omega (arith, enough)) line in
          (
            p2,
            rw (here, more, letter) runs,
            record {
              word = c ∷ s.word;
              rest = s.rest;
              split = ap (λ ds. c ∷ ds) s.split;
              solid = (letter, s.solid);
              broken = s.broken;
              there = s.there;
              ends = s.ends;
              place = omega (arith, s.place);
              further = omega (arith, s.further);
              cut =
                  λ m1 same z. (same p (omega (arith, s.further)) ∙ here, nonzero, s.cut m1 same z);
            },
          )
    ]

-- What `scan_word` leaves of a line that begins with a word.
pub record Passed (c : ℕ) (cs : List ℕ) (p : ℕ) (m : Bytes) (p2 : ℕ) : Type 0 where
  pub word : List ℕ
  pub rest : List ℕ
  pub split : words (c ∷ cs) ≡ word ∷ words rest
  pub there : StringAt m p2 rest
  pub ends : IsStop (m p2)
  pub place : p2 + length rest ≡ p + length (c ∷ cs)
  pub further : p < p2
  pub cut : (m1 : Bytes) → ((a : ℕ) → a < p2 → m1 a ≡ m a) → m1 p2 ≡ 0 → StringAt m1 p word

pub scan_word-Passed :
    (fuel c : ℕ) (cs : List ℕ) (p : ℕ) (m : Bytes)
    → length (c ∷ cs) < fuel
    → is_blank c ≡ false
    → StringAt m p (c ∷ cs)
    → (p2 : ℕ) × (scan_word fuel p m ≡ ok p2) × Passed c cs p m p2
unfolding scan_word
scan_word-Passed zero c cs p m enough letter line = ground arith
scan_word-Passed (suc fuel) c cs p m enough letter (here, nonzero, line) =
    let more : (c == 0) ≡ false = ground arith in
    let (p2, runs, s) = scan_word-Scanned fuel cs (p + 1) m (omega (arith, enough)) line in
    (
      p2,
      rw (here, more, letter) runs,
      record {
        word = c ∷ s.word;
        rest = s.rest;
        split =
            ap (λ ds. words (c ∷ ds)) s.split ∙ words-word c s.word s.rest letter s.solid s.broken;
        there = s.there;
        ends = s.ends;
        place = omega (arith, s.place);
        further = omega (arith, s.further);
        cut = λ m1 same z. (same p (omega (arith, s.further)) ∙ here, nonzero, s.cut m1 same z);
      },
    )
