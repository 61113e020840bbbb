-- ===== src/Monitor/Line.antt =====
-- `readline` against the editing of a list of characters.
use jos_lab.Base.{
  ℕ, ◌+◌, ◌-◌, ◌%◌, ◌≤◌, ◌<◌, ◌≡◌, refl, ◌∙◌, true, false, inl, inr, ◌&&◌, Option, none, some, List,
  [], ◌∷◌, length, ltb, leb, Bool-cases, if◌then◌else◌, update, Run, ok, stop, out_of_fuel, arith,
}
use jos_lab.Strings.{Bytes}
use jos_lab.Monitor.{buflen, erases, ends, readline_from, readline}

-- The line so far, its last character first.
abbrev pub without_last : List ℕ → List ℕ
without_last [] = []
without_last (c ∷ cs) = cs

-- The line that the keys make: an erasing key takes the last character away, a printable one joins
-- the line while it has room, and a line end gives the line back.
pub edited : List (Option ℕ) → List ℕ → Run (Option (List ℕ))
edited [] line = stop out_of_fuel
edited (none ∷ rest) line = ok none
edited (some c ∷ rest) line =
    let erased = edited rest (without_last line) in
    let typed = edited rest ((c % 256) ∷ line) in
    let ignored = edited rest line in
    if erases c && ltb 0 (length line)
    then erased
    else if leb 32 c && ltb (length line) (buflen - 1)
    then typed
    else if ends c
    then ok (some line)
    else ignored

-- The buffer holds the line from its start on.
abbrev pub Holds : Bytes → List ℕ → Type 0
Holds buf [] = Unit
Holds buf (c ∷ cs) = (buf (length cs) ≡ c) × Holds buf cs

-- What the two ways come to agrees: the buffer holds the line and a 0 behind it, within its 1024
-- bytes, and nothing outside has changed.
abbrev pub Agrees : Bytes → Run (Option Bytes) → Run (Option (List ℕ)) → Type 0
Agrees buf (stop x) (stop y) = x ≡ y
Agrees buf (ok none) (ok none) = Unit
Agrees buf (ok (some after)) (ok (some line)) =
    Holds after line
    × (after (length line) ≡ 0)
    × (length line < buflen)
    × ((a : ℕ) → buflen ≤ a → after a ≡ buf a)
Agrees buf _ _ = ⊥

Holds-update :
    (buf : Bytes) (i v : ℕ) (line : List ℕ)
    → length line ≤ i
    → Holds buf line
    → Holds (update buf i v) line
Holds-update buf i v [] le h = _
Holds-update buf i v (c ∷ cs) le (at, h) =
    (ground (arith, at), Holds-update buf i v cs (omega arith) h)

Holds-without : (buf : Bytes) (line : List ℕ) → Holds buf line → Holds buf (without_last line)
Holds-without buf [] h = _
Holds-without buf (c ∷ cs) (_, h) = h

length-without_last : (line : List ℕ) → length (without_last line) ≡ length line - 1
length-without_last [] = omega arith
length-without_last (c ∷ cs) = omega arith

-- The bytes behind the buffer may be compared with those of an earlier state.
rebased :
    (buf old : Bytes) (r : Run (Option Bytes)) (s : Run (Option (List ℕ)))
    → ((a : ℕ) → buflen ≤ a → buf a ≡ old a)
    → Agrees buf r s
    → Agrees old r s
rebased buf old (stop x) (stop y) same h = h
rebased buf old (ok none) (ok none) same h = h
rebased buf old (ok (some b)) (ok (some l)) same (h, z, lt, out) =
    (h, z, lt, λ a le. out a le ∙ same a le)
rebased buf old (stop x) (ok s) same h = h
rebased buf old (ok none) (stop y) same h = h
rebased buf old (ok none) (ok (some l)) same h = h
rebased buf old (ok (some b)) (stop y) same h = h
rebased buf old (ok (some b)) (ok none) same h = h

from-Agrees :
    (input : List (Option ℕ)) (line : List ℕ) (i : ℕ) (buf : Bytes)
    → i ≡ length line
    → i < buflen
    → Holds buf line
    → Agrees buf (readline_from input i buf) (edited input line)
unfolding readline_from edited
from-Agrees [] line i buf e lt h = refl
from-Agrees (none ∷ rest) line i buf e lt h = _
from-Agrees (some c ∷ rest) line i buf e lt h = elim (Bool-cases (erases c && ltb 0 i)) [
  | inl erase ↦
      let same : (erases c && ltb 0 (length line)) ≡ true = rw (← e) erase in
      rw (erase, same)
        (from-Agrees rest (without_last line) (i - 1) buf
          (omega (arith, e, length-without_last line)) (omega (arith, lt))
          (Holds-without buf line h))
  | inr keep ↦
      let same : (erases c && ltb 0 (length line)) ≡ false = rw (← e) keep in
      elim (Bool-cases (leb 32 c && ltb i (buflen - 1))) [
        | inl type ↦
            let also : (leb 32 c && ltb (length line) (buflen - 1)) ≡ true = rw (← e) type in
            rw (keep, same, type, also)
              (rebased (update buf i (c % 256)) buf _ _ (λ a le. ground (arith, lt, le))
                (from-Agrees rest ((c % 256) ∷ line) (i + 1) (update buf i (c % 256))
                  (omega (arith, e)) (ground (arith, type))
                  (ground (arith, e), Holds-update buf i (c % 256) line (omega (arith, e)) h)))
        | inr no_room ↦
            let also : (leb 32 c && ltb (length line) (buflen - 1)) ≡ false = rw (← e) no_room in
            elim (Bool-cases (ends c)) [
              | inl end ↦
                  rw (keep, same, no_room, also, end)
                    (
                      Holds-update buf i 0 line (omega (arith, e)) h,
                      ground (arith, e),
                      omega (arith, e, lt),
                      λ a le. ground (arith, lt, le),
                    )
              | inr other ↦
                  rw (keep, same, no_room, also, other) (from-Agrees rest line i buf e lt h)
            ]
      ]
]

-- For every input, `readline` comes to what the editing of a list of characters comes to: it waits
-- for more input or reports an error just when that does, and else its buffer of 1024 bytes holds
-- the edited line with a 0 byte behind it, and no byte outside the buffer has changed.
pub readline-edited :
    (input : List (Option ℕ)) (buf : Bytes) → Agrees buf (readline input buf) (edited input [])
unfolding readline
readline-edited input buf = from-Agrees input [] 0 buf refl (omega arith) _
