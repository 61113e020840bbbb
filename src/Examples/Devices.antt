-- ===== src/Examples/Devices.antt =====
-- The console's ring and screen, and the lock.
use jos_lab.Base.{
  ℕ, zero, suc, ◌+◌, ◌≡◌, refl, true, List, [], ◌∷◌, arith, ok, length, ◌%◌, replicate,
}
use jos_lab.Console.{Cons, Devices, Crt, cons_put, cons_intr, cons_getc}
use jos_lab.Console.Queue.{
  Ring, Holds, Takes, cons_intr-Holds, cons_getc-Holds, silent, cons_put-overflow,
}
use jos_lab.Console.Screen.{OnScreen}
use jos_lab.Spinlock.{Spinlock, run, initlock}
use jos_lab.Spinlock.Exclusion.{in_section, mutual_exclusion}

-- One `a` waits, at the end of the ring.
abbrev one_key : Cons
one_key = record { buf = λ i. 97; rpos = 511; wpos = 0 }

one-Holds : Holds one_key (97 ∷ [])
one-Holds = record { inside = omega arith; room = omega arith; ends = refl; ring = (refl, _) }

cons_intr-Holds_example : Holds (cons_intr (98 ∷ 0 ∷ 99 ∷ []) one_key) (97 ∷ 98 ∷ 99 ∷ [])
cons_intr-Holds_example =
    cons_intr-Holds (98 ∷ 0 ∷ 99 ∷ []) one_key (97 ∷ []) one-Holds
      (omega arith, (omega arith, (omega arith, _))) (omega arith)

-- A key waits at the keyboard, and a byte at the serial port.
abbrev busy : Devices
busy = record { serial_exists = true; serial = 98 ∷ []; kbd = 99 ∷ 0 ∷ [] }

cons_getc-Holds_example : Takes (cons_getc busy one_key) (97 ∷ 98 ∷ 99 ∷ [])
cons_getc-Holds_example =
    cons_getc-Holds busy one_key (97 ∷ []) one-Holds (omega arith, _)
      (omega arith, (omega arith, _)) (omega arith)

-- The ring with 511 times the letter `a`.
abbrev full_ring : Cons
full_ring = record { buf = λ i. 97; rpos = 0; wpos = 511 }

abbrev letters : ℕ → List ℕ
letters n = replicate n 97

Ring-replicate : (n r : ℕ) → Ring full_ring.buf r (letters n)
Ring-replicate zero r = _
Ring-replicate (suc n) r = (refl, Ring-replicate n ((r + 1) % 512))

length-replicate : (n : ℕ) → length (letters n) ≡ n
length-replicate zero = refl
length-replicate (suc n) = omega (arith, length-replicate n)

full-Holds : Holds full_ring (letters 511)
full-Holds = record {
  inside = omega arith;
  room = omega (arith, length-replicate 511);
  ends = omega (arith, length-replicate 511);
  ring = Ring-replicate 511 0;
}

cons_put-overflow_example : (cons_getc silent (cons_put 98 full_ring)).0 ≡ 0
cons_put-overflow_example =
    cons_put-overflow full_ring 98 (letters 511) full-Holds (length-replicate 511)
      (λ e. ground arith)

abbrev last_cell : Crt
last_cell = record { crt_buf = λ i. 0; crt_pos = 1999 }

last-OnScreen : OnScreen last_cell last_cell
last-OnScreen = record { cursor = omega arith; outside = λ i h. refl }

mutual_exclusion_example :
    (s : Spinlock) × (run (0 ∷ 1 ∷ 0 ∷ 1 ∷ 0 ∷ 1 ∷ []) initlock ≡ ok s)
    × ((c d : ℕ) → in_section (s.phase c) ≡ true → in_section (s.phase d) ≡ true → c ≡ d)
mutual_exclusion_example = mutual_exclusion (0 ∷ 1 ∷ 0 ∷ 1 ∷ 0 ∷ 1 ∷ [])
