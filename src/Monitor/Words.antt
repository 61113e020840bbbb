-- ===== src/Monitor/Words.antt =====
-- The words of a line, which `runcmd` of kern/monitor.c parses into arguments.
use jos_lab.Base.{ℕ, ◌≡◌, refl, true, false, List, [], ◌∷◌, ◌++◌, All, if◌then◌else◌}
use jos_lab.Monitor.Command.{is_blank}

-- A character in front of a line that has the words `ws`.
abbrev pub attach : ℕ → List ℕ → List (List ℕ) → List (List ℕ)
attach c [] ws = (c ∷ []) ∷ ws
attach c (d ∷ ds) [] = (c ∷ []) ∷ []
attach c (d ∷ ds) (w ∷ ws) = if is_blank d then (c ∷ []) ∷ w ∷ ws else (c ∷ w) ∷ ws

-- The words of a line: the runs of characters that are not blank.
abbrev pub words : List ℕ → List (List ℕ)
words [] = []
words (c ∷ cs) = if is_blank c then words cs else attach c cs (words cs)

-- Empty, or with a blank in front.
abbrev pub Broken : List ℕ → Type 0
Broken [] = Unit
Broken (c ∷ cs) = is_blank c ≡ true

-- Empty, or with another character in front.
abbrev pub Begun : List ℕ → Type 0
Begun [] = Unit
Begun (c ∷ cs) = is_blank c ≡ false

attach-Broken : (c : ℕ) (cs : List ℕ) → Broken cs → attach c cs (words cs) ≡ (c ∷ []) ∷ words cs
attach-Broken c [] b = refl
attach-Broken c (d ∷ ds) b = attach_blank (words (d ∷ ds))
  where
    attach_blank : (ws : List (List ℕ)) → attach c (d ∷ ds) ws ≡ (c ∷ []) ∷ ws
    attach_blank [] = refl
    attach_blank (w ∷ ws) = rw b refl

pub words-word :
    (c : ℕ) (w rest : List ℕ)
    → is_blank c ≡ false
    → All (λ d. is_blank d ≡ false) w
    → Broken rest
    → words (c ∷ w ++ rest) ≡ (c ∷ w) ∷ words rest
words-word c [] rest letter solid b = rw letter (attach-Broken c rest b)
words-word c (d ∷ w) rest letter (inner, solid) b =
    rw (letter, words-word d w rest inner solid b, inner) refl
