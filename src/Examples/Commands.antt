-- ===== src/Examples/Commands.antt =====
-- The monitor, on the line "\thelp  me\r" and the commands "help" and "bt".
use jos_lab.Base.{
  ℕ, zero, suc, ◌<◌, ◌≡◌, refl, inl, Option, none, some, List, [], ◌∷◌, Bool, true, ltb, ◌&&◌,
  length, Run, ok, stop, arith,
}
use jos_lab.Strings.{Bytes}
use jos_lab.Strings.Length.{StringAt}
use jos_lab.Monitor.Command.{Request, call, runcmd}
use jos_lab.Monitor.Words.{words}
use jos_lab.Monitor.Lookup.{AreNames, Obeyed, runcmd_lem}

abbrev byte_at : List ℕ → Bytes
byte_at [] a = 0
byte_at (x ∷ xs) zero = x
byte_at (x ∷ xs) (suc a) = byte_at xs a

abbrev all_small : List ℕ → Bool
all_small [] = true
all_small (x ∷ xs) = ltb x 256 && all_small xs

byte_at_small : (xs : List ℕ) → all_small xs ≡ true → (a : ℕ) → byte_at xs a < 256
byte_at_small [] h a = omega arith
byte_at_small (x ∷ xs) h zero = ground arith
byte_at_small (x ∷ xs) h (suc a) = byte_at_small xs (ground arith) a

abbrev typed : List ℕ
typed = 9 ∷ 104 ∷ 101 ∷ 108 ∷ 112 ∷ 32 ∷ 32 ∷ 109 ∷ 101 ∷ 13 ∷ []

-- "help" at 0, "bt" at 5 and the line at 8.
abbrev monitor_bytes : List ℕ
monitor_bytes = 104 ∷ 101 ∷ 108 ∷ 112 ∷ 0 ∷ 98 ∷ 116 ∷ 0 ∷ typed

abbrev command_names : List (List ℕ)
command_names = (104 ∷ 101 ∷ 108 ∷ 112 ∷ []) ∷ (98 ∷ 116 ∷ []) ∷ []

abbrev monitor_memory : Bytes
monitor_memory = byte_at monitor_bytes

typed-StringAt : StringAt monitor_memory 8 typed
typed-StringAt = (
  refl,
  (λ e. ground arith),
  (
    refl,
    (λ e. ground arith),
    (
      refl,
      (λ e. ground arith),
      (
        refl,
        (λ e. ground arith),
        (
          refl,
          (λ e. ground arith),
          (
            refl,
            (λ e. ground arith),
            (
              refl,
              (λ e. ground arith),
              (
                refl,
                (λ e. ground arith),
                (refl, (λ e. ground arith), (refl, (λ e. ground arith), refl)),
              ),
            ),
          ),
        ),
      ),
    ),
  ),
)

command_names-AreNames : AreNames monitor_memory 8 (length typed) (0 ∷ 5 ∷ []) command_names
command_names-AreNames = (
  (
    refl,
    (λ e. ground arith),
    (refl, (λ e. ground arith), (refl, (λ e. ground arith), (refl, (λ e. ground arith), refl))),
  ),
  inl (omega arith),
  ((refl, (λ e. ground arith), (refl, (λ e. ground arith), refl)), inl (omega arith), _),
)

abbrev asked_for : Run (Request × Bytes) → Option Request
asked_for (ok (r, m)) = some r
asked_for (stop e) = none

help_is_called : asked_for (runcmd 20 (0 ∷ 5 ∷ []) 8 monitor_memory) ≡ some (call 0 (9 ∷ 15 ∷ []))
unfolding runcmd
help_is_called = refl

runcmd_lem_example :
    (r : Request) × (m1 : Bytes) × (runcmd 20 (0 ∷ 5 ∷ []) 8 monitor_memory ≡ ok (r, m1))
    × Obeyed command_names (words typed) r m1
runcmd_lem_example =
    runcmd_lem 20 (0 ∷ 5 ∷ []) command_names 8 typed monitor_memory
      (byte_at_small monitor_bytes refl) typed-StringAt command_names-AreNames (omega arith)
