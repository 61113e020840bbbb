-- ===== src/Monitor/Lookup.antt =====
-- `runcmd` of kern/monitor.c: the command it calls, and with what.
use jos_lab.Base.{
  ℕ, suc, ◌+◌, ◌≤◌, ◌<◌, ◌≡◌, ◌≢◌, ◌⊎◌, refl, ◌∙◌, inl, inr, Bool-cases, Option, none, some, List,
  [], ◌∷◌, length, ◌==◌, ok, arith,
}
use jos_lab.Strings.{Bytes}
use jos_lab.Strings.Length.{StringAt}
use jos_lab.Strings.Compare.{strcmp_lem}
use jos_lab.Monitor.Command.{
  is_blank, Request, nothing, too_many, call, unknown, find_command, request, runcmd,
}
use jos_lab.Monitor.Words.{words, attach}
use jos_lab.Monitor.Arguments.{AreStrings, Arguments, Parsed, parse-Parsed}

-- The names `ks` stand at the addresses `names`, off the line of `n` characters at `buf`.
abbrev pub AreNames : Bytes → ℕ → ℕ → List ℕ → List (List ℕ) → Type 0
AreNames m buf n [] [] = Unit
AreNames m buf n [] (k ∷ ks) = ⊥
AreNames m buf n (p ∷ ps) [] = ⊥
AreNames m buf n (p ∷ ps) (k ∷ ks) =
    StringAt m p k × ((p + length k < buf) ⊎ (buf + n ≤ p)) × AreNames m buf n ps ks

-- The answer to the word `w`, at `name`: the first of the commands `ks`, with indices from `i`,
-- that is called `w`.
abbrev pub Answer : List ℕ → List (List ℕ) → ℕ → ℕ → List ℕ → Request → Type 0
Answer w [] i name argv r = r ≡ unknown name
Answer w (k ∷ ks) i name argv r =
    ((w ≡ k) × (r ≡ call i argv)) ⊎ ((w ≢ k) × Answer w ks (i + 1) name argv r)

-- What a line of the words `ws` asks for.
abbrev pub Obeyed : List (List ℕ) → List (List ℕ) → Request → Bytes → Type 0
Obeyed ks [] r m = r ≡ nothing
Obeyed ks (w ∷ ws) r m =
    ((15 < length (w ∷ ws)) × (r ≡ too_many))
    ⊎ ((length (w ∷ ws) ≤ 15)
        × ((name : ℕ) × (rest : List ℕ) × AreStrings m (name ∷ rest) (w ∷ ws)
            × Answer w ks 0 name (name ∷ rest) r))

StringAt-same :
    (m m1 : Bytes) (p : ℕ) (k : List ℕ)
    → ((a : ℕ) → p ≤ a → a ≤ p + length k → m1 a ≡ m a)
    → StringAt m p k
    → StringAt m1 p k
StringAt-same m m1 p [] same end = same p (omega arith) (omega arith) ∙ end
StringAt-same m m1 p (c ∷ k) same (here, nonzero, there) = (
  same p (omega arith) (omega arith) ∙ here,
  nonzero,
  StringAt-same m m1 (p + 1) k (λ a ge le. same a (omega (arith, ge)) (omega (arith, le))) there,
)

-- A parse keeps the names.
AreNames-kept :
    (left : ℕ) (cs : List ℕ) (buf : ℕ) (m : Bytes) (o : Option (List ℕ)) (m1 : Bytes)
    (names : List ℕ) (ks : List (List ℕ))
    → Parsed left cs buf m o m1
    → AreNames m buf (length cs) names ks
    → AreStrings m1 names ks
AreNames-kept left cs buf m o m1 [] [] d there = _
AreNames-kept left cs buf m o m1 [] (k ∷ ks) d there = absurd there
AreNames-kept left cs buf m o m1 (p ∷ names) [] d there = absurd there
AreNames-kept left cs buf m o m1 (p ∷ names) (k ∷ ks) d (here, off, there) =
    (StringAt-same m m1 p k (same off) here, AreNames-kept left cs buf m o m1 names ks d there)
  where
    same :
        (p + length k < buf) ⊎ (buf + length cs ≤ p)
        → (a : ℕ) → p ≤ a
        → a ≤ p + length k
        → m1 a ≡ m a
    same (inl below) a ge le = d.before a (omega (arith, below, le))
    same (inr above) a ge le = d.after a (omega (arith, above, ge))

-- The first word is not longer than `n`.
abbrev Short : ℕ → List (List ℕ) → Type 0
Short n [] = Unit
Short n (w ∷ ws) = length w ≤ n

attach-Short :
    (n c : ℕ) (cs : List ℕ) (ws : List (List ℕ)) → Short n ws → Short (suc n) (attach c cs ws)
attach-Short n c [] ws s = omega arith
attach-Short n c (d ∷ ds) [] s = omega arith
attach-Short n c (d ∷ ds) (w ∷ ws) s = elim (Bool-cases (is_blank d)) [
  | inl blank ↦ rw blank (omega arith)
  | inr letter ↦ rw letter (omega (arith, s))
]

Short-suc : (n : ℕ) (ws : List (List ℕ)) → Short n ws → Short (suc n) ws
Short-suc n [] s = _
Short-suc n (w ∷ ws) s = omega (arith, s)

words-Short : (cs : List ℕ) → Short (length cs) (words cs)
words-Short [] = _
words-Short (c ∷ cs) = elim (Bool-cases (is_blank c)) [
  | inl blank ↦ rw blank (Short-suc (length cs) (words cs) (words-Short cs))
  | inr letter ↦ rw letter (attach-Short (length cs) c cs (words cs) (words-Short cs))
]

find_command-Answer :
    (fuel : ℕ) (names : List ℕ) (ks : List (List ℕ)) (i name : ℕ) (w argv : List ℕ) (m : Bytes)
    → ((a : ℕ) → m a < 256)
    → StringAt m name w
    → length w < fuel
    → AreStrings m names ks
    → (r : Request) × (find_command fuel names i name argv m ≡ ok r) × Answer w ks i name argv r
unfolding find_command
find_command-Answer fuel [] [] i name w argv m bytes here enough there = (unknown name, refl, refl)
find_command-Answer fuel [] (k ∷ ks) i name w argv m bytes here enough there = absurd there
find_command-Answer fuel (p ∷ names) [] i name w argv m bytes here enough there = absurd there
find_command-Answer fuel (p ∷ names) (k ∷ ks) i name w argv m bytes here enough (first, there) =
    let (d, compares, equal) = strcmp_lem fuel name p m w k bytes here first enough in
    elim (Bool-cases (d == 0)) [
      | inl same ↦ (call i argv, rw (compares, same) refl, inl (equal.0 (ground arith), refl))
      | inr differs ↦
          let (r, runs, answer) =
            find_command-Answer fuel names ks (i + 1) name w argv m bytes here enough there in
          (
            r,
            rw (compares, differs) runs,
            inr (λ e. let z : d ≡ 0 = equal.1 e in ground arith, answer),
          )
    ]

request-Obeyed :
    (fuel : ℕ) (names : List ℕ) (ks ws : List (List ℕ)) (o : Option (List ℕ)) (m : Bytes) (n : ℕ)
    → ((a : ℕ) → m a < 256)
    → AreStrings m names ks
    → Arguments 15 ws o m
    → Short n ws
    → n < fuel
    → (r : Request) × (request fuel names (o, m) ≡ ok r) × Obeyed ks ws r m
request-Obeyed fuel names ks [] none m n bytes there over short enough = ground arith
request-Obeyed fuel names ks (w ∷ ws) none m n bytes there over short enough =
    (too_many, refl, inl (over, refl))
request-Obeyed fuel names ks [] (some []) m n bytes there args short enough = (nothing, refl, refl)
request-Obeyed fuel names ks (w ∷ ws) (some []) m n bytes there (few, args) short enough =
    absurd args
request-Obeyed fuel names ks [] (some (p ∷ ps)) m n bytes there (few, args) short enough =
    absurd args
request-Obeyed fuel names ks (w ∷ ws) (some (p ∷ ps)) m n bytes there (few, args) short enough =
    let (r, runs, answer) =
      find_command-Answer fuel names ks 0 p w (p ∷ ps) m bytes args.0 (omega (arith, short, enough))
        there in
    (r, runs, inr (few, (p, ps, args, answer)))

-- In a memory of bytes, with the names of the commands off the line and more fuel than the line
-- has characters, `runcmd` returns. A line without words asks for nothing, and one with more
-- than 15 words is refused. Else the arguments are the words of the line, in order, each a
-- string in the memory that the parse leaves, and the command called is the first whose name
-- equals the first word, or the word is reported unknown if no name equals it.
pub runcmd_lem :
    (fuel : ℕ) (names : List ℕ) (ks : List (List ℕ)) (buf : ℕ) (cs : List ℕ) (m : Bytes)
    → ((a : ℕ) → m a < 256)
    → StringAt m buf cs
    → AreNames m buf (length cs) names ks
    → length cs < fuel
    → (r : Request) × (m1 : Bytes) × (runcmd fuel names buf m ≡ ok (r, m1))
      × Obeyed ks (words cs) r m1
unfolding runcmd
runcmd_lem fuel names ks buf cs m bytes line there enough =
    let (o, m1, parses, d) = parse-Parsed 15 fuel cs buf m enough line in
    let (r, runs, obeyed) =
      request-Obeyed fuel names ks (words cs) o m1 (length cs) (d.bytes bytes)
        (AreNames-kept 15 cs buf m o m1 names ks d there) d.result (words-Short cs) enough in
    (r, m1, rw (parses, runs) refl, obeyed)
