-- ===== src/Monitor/Arguments.antt =====
-- `runcmd` of kern/monitor.c: the arguments it parses are the words of the line.
use jos_lab.Base.{
  ℕ, zero, suc, ◌+◌, ◌≤◌, ◌<◌, ◌≡◌, refl, sym, ap, ◌∙◌, inl, inr, false, Bool-cases, Option, none,
  some, List, [], ◌∷◌, length, ◌==◌, if◌then◌else◌, ok, ◌>>=◌, arith,
}
use jos_lab.Strings.{Bytes}
use jos_lab.Strings.Length.{StringAt}
use jos_lab.Monitor.Command.{is_blank, scan_word, prepend, parse}
use jos_lab.Monitor.Words.{words, attach, Begun}
use jos_lab.Monitor.Loops.{IsStop, Gobbled, gobble-Gobbled, Passed, scan_word-Passed}

-- The strings `ws` stand at the addresses `ps`.
abbrev pub AreStrings : Bytes → List ℕ → List (List ℕ) → Type 0
AreStrings m [] [] = Unit
AreStrings m [] (w ∷ ws) = ⊥
AreStrings m (p ∷ ps) [] = ⊥
AreStrings m (p ∷ ps) (w ∷ ws) = StringAt m p w × AreStrings m ps ws

-- Addresses of all of `ws`, or none if there are more than `left`.
abbrev pub Arguments : ℕ → List (List ℕ) → Option (List ℕ) → Bytes → Type 0
Arguments left ws none m = left < length ws
Arguments left ws (some ps) m = (length ws ≤ left) × AreStrings m ps ws

-- What `parse` leaves of a line.
pub record Parsed (left : ℕ) (cs : List ℕ) (p : ℕ) (m : Bytes) (r : Option (List ℕ)) (m1 : Bytes)
    : Type 0 where
  pub result : Arguments left (words cs) r m1
  pub before : (a : ℕ) → a < p → m1 a ≡ m a
  pub after : (a : ℕ) → p + length cs ≤ a → m1 a ≡ m a
  pub bytes : ((a : ℕ) → m a < 256) → (a : ℕ) → m1 a < 256
  pub stops : IsStop (m p) → m1 p ≡ 0

-- What the rest of the loop leaves of a line that white space does not begin.
record Taken (left : ℕ) (cs : List ℕ) (p : ℕ) (m : Bytes) (r : Option (List ℕ)) (m1 : Bytes)
    : Type 0 where
  result : Arguments left (words cs) r m1
  before : (a : ℕ) → a ≤ p → m1 a ≡ m a
  after : (a : ℕ) → p + length cs ≤ a → m1 a ≡ m a
  bytes : ((a : ℕ) → m a < 256) → (a : ℕ) → m1 a < 256

Gobbled-Taken :
    (left : ℕ) (cs : List ℕ) (p : ℕ) (m : Bytes) (p1 : ℕ) (m1 : Bytes) (r : Option (List ℕ))
    (m2 : Bytes) (g : Gobbled cs p m p1 m1)
    → Taken left g.rest p1 m1 r m2
    → Parsed left cs p m r m2
Gobbled-Taken left cs p m p1 m1 r m2 g t = record {
  result = rw (sym g.same_words) t.result;
  before = λ a lt. t.before a (omega (arith, g.further, lt)) ∙ g.before a lt;
  after = λ a le. t.after a (omega (arith, g.place, le)) ∙ g.after a le;
  bytes = λ small. t.bytes (g.bytes small);
  stops = λ s. t.before p g.further ∙ g.stops s;
}

attach_some : (c : ℕ) (cs : List ℕ) (ws : List (List ℕ)) → 0 < length (attach c cs ws)
attach_some c [] ws = omega arith
attach_some c (d ∷ ds) [] = omega arith
attach_some c (d ∷ ds) (w ∷ ws) = elim (Bool-cases (is_blank d)) [
  | inl b ↦ rw b (omega arith)
  | inr b ↦ rw b (omega arith)
]

-- The parse with room for no more arguments, after the white space.
last-Taken :
    (cs : List ℕ) (p : ℕ) (m : Bytes)
    → StringAt m p cs
    → Begun cs
    → Taken 0 cs p m (if m p == 0 then some [] else none) m
last-Taken [] p m end begun = record {
  result = rw end (omega arith, _);
  before = λ a le. refl;
  after = λ a le. refl;
  bytes = λ small. small;
}
last-Taken (c ∷ cs) p m (here, nonzero, line) letter =
    let more : (c == 0) ≡ false = ground arith in
    record {
      result = rw (here, more, letter) (attach_some c cs (words cs));
      before = λ a le. refl;
      after = λ a le. refl;
      bytes = λ small. small;
    }

-- One more argument in front of those that the rest of the line has.
prepend-Arguments :
    (left : ℕ) (w : List ℕ) (ws : List (List ℕ)) (p : ℕ) (r : Option (List ℕ)) (m : Bytes)
    → StringAt m p w
    → Arguments left ws r m
    → Arguments (suc left) (w ∷ ws) (prepend p (r, m)).0 m
prepend-Arguments left w ws p none m here over = omega (arith, over)
prepend-Arguments left w ws p (some ps) m here (few, there) = (omega (arith, few), (here, there))

prepend-kept :
    (p : ℕ) (r : Option (List ℕ)) (m : Bytes) → prepend p (r, m) ≡ ((prepend p (r, m)).0, m)
prepend-kept p none m = refl
prepend-kept p (some ps) m = refl

Passed-Taken :
    (left c : ℕ) (cs : List ℕ) (p : ℕ) (m : Bytes) (p2 : ℕ) (r : Option (List ℕ)) (m2 : Bytes)
    (s : Passed c cs p m p2)
    → Parsed left s.rest p2 m r m2
    → Taken (suc left) (c ∷ cs) p m (prepend p (r, m2)).0 m2
Passed-Taken left c cs p m p2 r m2 s t = record {
  result = rw s.split (
      prepend-Arguments left s.word (words s.rest) p r m2 (s.cut m2 t.before (t.stops s.ends))
        t.result);
  before = λ a le. t.before a (omega (arith, le, s.further));
  after = λ a le. t.after a (omega (arith, le, s.place));
  bytes = t.bytes;
}

-- The parse of every line shorter than `fuel` returns with what it should leave.
abbrev Parses : ℕ → ℕ → Type 0
Parses left fuel =
    (cs : List ℕ) (p : ℕ) (m : Bytes)
    → length cs < fuel
    → StringAt m p cs
    → (r : Option (List ℕ)) × (m1 : Bytes) × (parse left fuel p m ≡ ok (r, m1))
      × Parsed left cs p m r m1

-- The parse with room for another argument, after the white space.
next-Taken :
    (left fuel : ℕ)
    → Parses left fuel
    → (cs : List ℕ) (p : ℕ) (m : Bytes) → length cs < fuel
    → StringAt m p cs
    → Begun cs
    → (r : Option (List ℕ)) × (m1 : Bytes) × ((if m p == 0
          then ok (some [], m)
          else (scan_word fuel p m >>= λ next.
              parse left fuel next m >>= λ rest. ok (prepend p rest)))
        ≡ ok (r, m1))
      × Taken (suc left) cs p m r m1
next-Taken left fuel ih [] p m enough end begun = (
  some [],
  m,
  rw end refl,
  record {
    result = (omega arith, _);
    before = λ a le. refl;
    after = λ a le. refl;
    bytes = λ small. small;
  },
)
next-Taken left fuel ih (c ∷ cs) p m enough (here, nonzero, line) letter =
    let more : (c == 0) ≡ false = ground arith in
    let (p2, scans, s) = scan_word-Passed fuel c cs p m enough letter (here, nonzero, line) in
    let (r, m2, runs, t) = ih s.rest p2 m (omega (arith, enough, s.place, s.further)) s.there in
    (
      (prepend p (r, m2)).0,
      m2,
      rw (here, more, scans, runs) (ap ok (prepend-kept p r m2)),
      Passed-Taken left c cs p m p2 r m2 s t,
    )

-- The parse of a line, with more fuel than it has characters, returns: it finds the words of
-- the line, or that they are too many, and changes no byte off the line.
pub parse-Parsed :
    (left fuel : ℕ) (cs : List ℕ) (p : ℕ) (m : Bytes)
    → length cs < fuel
    → StringAt m p cs
    → (r : Option (List ℕ)) × (m1 : Bytes) × (parse left fuel p m ≡ ok (r, m1))
      × Parsed left cs p m r m1
unfolding parse
parse-Parsed zero fuel cs p m enough line =
    let (p1, m1, runs, g) = gobble-Gobbled fuel cs p m enough line in
    (
      if m1 p1 == 0 then some [] else none,
      m1,
      rw runs refl,
      Gobbled-Taken 0 cs p m p1 m1 _ m1 g (last-Taken g.rest p1 m1 g.there g.begun),
    )
parse-Parsed (suc left) fuel cs p m enough line =
    let (p1, m1, gobbles, g) = gobble-Gobbled fuel cs p m enough line in
    let (r, m2, runs, t) =
      next-Taken left fuel (parse-Parsed left fuel) g.rest p1 m1
        (omega (arith, enough, g.place, g.further)) g.there g.begun in
    (r, m2, rw gobbles runs, Gobbled-Taken (suc left) cs p m p1 m1 r m2 g t)
