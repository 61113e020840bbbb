-- ===== src/Console/Queue.antt =====
-- The input ring of the console as a queue.
use mathlib.Core.Path.{subst}
use jos_lab.Base.{
  All, ℕ, ◌+◌, ◌%◌, ◌≤◌, ◌<◌, ◌≡◌, ◌≢◌, refl, sym, ◌∙◌, ap, true, false, ◌==◌, if◌then◌else◌,
  Bool-cases, inl, inr, arith, List, [], ◌∷◌, ◌++◌, length, update, ne→eqb,
}
use jos_lab.Console.{
  Cons, Devices, cons_put, cons_intr, serial_intr, kbd_intr, next_char, cons_getc,
}

-- The characters `xs` stand in the ring from position `r` on.
abbrev pub Ring : (ℕ → ℕ) → ℕ → List ℕ → Type 0
Ring buf r [] = Unit
Ring buf r (x ∷ xs) = (buf r ≡ x) × Ring buf ((r + 1) % 512) xs

-- The ring holds the queue `xs`, the next character first.
pub record Holds (k : Cons) (xs : List ℕ) : Type 0 where
  pub inside : k.rpos < 512
  pub room : length xs < 512
  pub ends : k.wpos ≡ (k.rpos + length xs) % 512
  pub ring : Ring k.buf k.rpos xs

Ring-snoc :
    (buf : ℕ → ℕ) (r w c : ℕ) (xs : List ℕ)
    → r < 512
    → length xs < 512
    → w ≡ (r + length xs) % 512
    → Ring buf r xs
    → Ring (update buf w c) r (xs ++ (c ∷ []))
Ring-snoc buf r w c [] h room e run = (ground arith, _)
Ring-snoc buf r w c (x ∷ xs) h room e (here, run) =
    let away : (r == w) ≡ false = ground arith in
    (
      rw away here,
      Ring-snoc buf ((r + 1) % 512) w c xs (omega arith) (omega arith) (omega arith) run,
    )

length-snoc : (xs : List ℕ) (c : ℕ) → length (xs ++ (c ∷ [])) ≡ length xs + 1
length-snoc [] c = refl
length-snoc (x ∷ xs) c = omega (arith, length-snoc xs c)

cons_put-Holds :
    (k : Cons) (c : ℕ) (xs : List ℕ)
    → Holds k xs
    → c ≢ 0
    → c < 256
    → length xs + 1 < 512
    → Holds (cons_put c k) (xs ++ (c ∷ []))
unfolding cons_put
cons_put-Holds k c xs v ne small fits =
    let real : (c == 0) ≡ false = ne→eqb c 0 ne in
    let byte : c % 256 ≡ c = omega arith in
    let inside = v.inside in
    let ends = v.ends in
    let count = length-snoc xs c in
    rw (real, byte)
      (record {
        inside = inside;
        room = omega arith;
        ends = ground arith;
        ring = Ring-snoc k.buf k.rpos k.wpos c xs inside v.room ends v.ring;
      })

-- The characters among what a driver delivers: all but 0.
abbrev pub typed : List ℕ → List ℕ
typed [] = []
typed (c ∷ rest) = if c == 0 then typed rest else c ∷ typed rest

append_assoc : (xs : List ℕ) (c : ℕ) (ys : List ℕ) → (xs ++ (c ∷ [])) ++ ys ≡ xs ++ (c ∷ ys)
append_assoc [] c ys = refl
append_assoc (x ∷ xs) c ys = ap (λ zs. x ∷ zs) (append_assoc xs c ys)

append_nil : (xs : List ℕ) → xs ++ [] ≡ xs
append_nil [] = refl
append_nil (x ∷ xs) = ap (λ zs. x ∷ zs) (append_nil xs)

-- What a driver delivers, codes below 256, as long as it fits in the 511 places that the ring can
-- use, joins the end of the queue in order; the codes 0 (no character) are left out.
pub cons_intr-Holds :
    (codes : List ℕ) (k : Cons) (xs : List ℕ)
    → Holds k xs
    → All (λ c. c < 256) codes
    → length xs + length codes < 512
    → Holds (cons_intr codes k) (xs ++ typed codes)
unfolding cons_intr
cons_intr-Holds [] k xs v small fits = rw (append_nil xs) v
cons_intr-Holds (c ∷ rest) k xs v (low, small) fits = elim (Bool-cases (c == 0)) [
  | inl no_key ↦ rw no_key (cons_intr-Holds rest k xs v small (omega arith))
  | inr key ↦
      let more = cons_put-Holds k c xs v (ground arith) low (omega arith) in
      let all =
        cons_intr-Holds rest (cons_put c k) (xs ++ (c ∷ [])) more small
          (omega (arith, length-snoc xs c)) in
      let kept : typed (c ∷ rest) ≡ c ∷ typed rest = rw key refl in
      subst (Holds (cons_intr rest (cons_put c k)))
        (append_assoc xs c (typed rest) ∙ ap (λ ys. xs ++ ys) (sym kept)) all
]

-- `got` is the first character of the queue `xs` and leaves the rest of it, or 0 and nothing.
abbrev pub Takes : ℕ × Cons → List ℕ → Type 0
Takes got [] = (got.0 ≡ 0) × Holds got.1 []
Takes got (x ∷ rest) = (got.0 ≡ x) × Holds got.1 rest

next_char-Takes : (k : Cons) (xs : List ℕ) → Holds k xs → Takes (next_char k) xs
unfolding next_char
next_char-Takes k [] v =
    let same : (k.rpos == k.wpos) ≡ true = ground (arith, v.inside, v.ends) in rw same (refl, v)
next_char-Takes k (x ∷ rest) v =
    let inside = v.inside in
    let room = v.room in
    let ends = v.ends in
    let differ : (k.rpos == k.wpos) ≡ false = ground arith in
    let step : (if k.rpos + 1 == 512 then 0 else k.rpos + 1) ≡ (k.rpos + 1) % 512 = ground arith in
    rw differ (
      v.ring.0,
      record {
        inside = ground arith;
        room = omega arith;
        ends = rw step (omega arith);
        ring = rw step v.ring.1;
      },
    )

-- What the serial port delivers, if there is one.
abbrev pub at_serial : Devices → List ℕ
at_serial w = if w.serial_exists then w.serial else []

serial_intr-Holds :
    (w : Devices) (k : Cons) (xs : List ℕ)
    → Holds k xs
    → All (λ c. c < 256) (at_serial w)
    → length xs + length (at_serial w) < 512
    → Holds (serial_intr w k) (xs ++ typed (at_serial w))
unfolding serial_intr
serial_intr-Holds w k xs v small fits = elim (Bool-cases w.serial_exists) [
  | inl there ↦ with_port there
  | inr missing ↦ rw missing (rw (append_nil xs) v)
]
  where
    with_port :
        w.serial_exists ≡ true
        → Holds (if w.serial_exists then cons_intr w.serial k else k) (xs ++ typed (at_serial w))
    with_port there =
        let all : at_serial w ≡ w.serial = rw there refl in
        rw there (
          cons_intr-Holds w.serial k xs v (subst (All (λ c. c < 256)) all small)
            (omega (arith, fits, ap (λ cs. length cs) all)))

length-typed : (xs cs : List ℕ) → length (xs ++ typed cs) ≤ length xs + length cs
length-typed [] [] = omega arith
length-typed [] (c ∷ cs) = elim (Bool-cases (c == 0)) [
  | inl skip ↦ rw skip (omega (arith, length-typed [] cs))
  | inr key ↦ rw key (omega (arith, length-typed [] cs))
]
length-typed (x ∷ xs) cs = omega (arith, length-typed xs cs)

-- `cons_getc` with a ring that holds `xs`, and what waits at the devices, codes below 256 that fit
-- in the 511 places of the ring beside `xs`: it returns the first character of the queue that is
-- `xs`, then what comes from the serial port, then what comes from the keyboard, without codes 0,
-- and leaves the rest of it in the ring; if there is no character at all it returns 0.
pub cons_getc-Holds :
    (w : Devices) (k : Cons) (xs : List ℕ)
    → Holds k xs
    → All (λ c. c < 256) (at_serial w)
    → All (λ c. c < 256) w.kbd
    → length xs + length (at_serial w) + length w.kbd < 512
    → Takes (cons_getc w k) ((xs ++ typed (at_serial w)) ++ typed w.kbd)
unfolding cons_getc kbd_intr
cons_getc-Holds w k xs v small keys fits =
    let serial = serial_intr-Holds w k xs v small (omega (arith, fits)) in
    let room = length-typed xs (at_serial w) in
    next_char-Takes (cons_intr w.kbd (serial_intr w k)) ((xs ++ typed (at_serial w)) ++ typed w.kbd)
      (cons_intr-Holds w.kbd (serial_intr w k) (xs ++ typed (at_serial w)) serial keys
        (omega (arith, fits, room)))

-- No device has anything.
abbrev pub silent : Devices
silent = record { serial_exists = true; serial = []; kbd = [] }

-- One character more than the ring can use, and all that was in it is gone: with 511 characters
-- waiting, the next one makes the ring look empty.
pub cons_put-overflow :
    (k : Cons) (c : ℕ) (xs : List ℕ)
    → Holds k xs
    → length xs ≡ 511
    → c ≢ 0
    → (cons_getc silent (cons_put c k)).0 ≡ 0
unfolding cons_getc serial_intr kbd_intr cons_intr next_char cons_put
cons_put-overflow k c xs v full ne =
    let inside = v.inside in
    let ends = v.ends in
    let real : (c == 0) ≡ false = ne→eqb c 0 ne in
    let meets : (k.rpos == (if k.wpos + 1 == 512 then 0 else k.wpos + 1)) ≡ true = ground arith in
    rw (real, meets) refl
