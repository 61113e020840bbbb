-- ===== src/Console/Screen.antt =====
-- The cursor of the text screen.
use jos_lab.Base.{ℕ, ◌%◌, ◌≤◌, ◌<◌, ◌≡◌, ◌==◌, leb, Bool-cases, inl, inr, arith}
use jos_lab.Console.{Crt, colored, place, scroll, put_char, cga_putc}

-- The cursor is on the screen, and beyond it the memory is as in `t`.
pub record OnScreen (t s : Crt) : Type 0 where
  pub cursor : s.crt_pos < 2000
  pub outside : (i : ℕ) → 2000 ≤ i → s.crt_buf i ≡ t.crt_buf i

scrolled :
    (s t : Crt)
    → s.crt_pos < 2080
    → ((i : ℕ) → 2000 ≤ i → s.crt_buf i ≡ t.crt_buf i)
    → OnScreen t (scroll s)
scrolled s t h same = elim (Bool-cases (leb 2000 s.crt_pos)) [
  | inl full ↦ rw full (record { cursor = ground arith; outside = λ i hi. ground (arith, same i) })
  | inr fits ↦ rw fits (record { cursor = ground arith; outside = same })
]

placed :
    (c : ℕ) (s t : Crt)
    → OnScreen t s
    → ((place c s).crt_pos < 2080) × ((i : ℕ) → 2000 ≤ i → (place c s).crt_buf i ≡ t.crt_buf i)
placed c s t v = let low = v.cursor in (ground arith, λ i h. ground (arith, v.outside i))

put_char-OnScreen : (c : ℕ) (s t : Crt) → OnScreen t s → OnScreen t (put_char c s)
unfolding put_char
put_char-OnScreen c s t v =
    let (low, same) = placed (colored c) s t v in scrolled (place (colored c) s) t low same

-- Whatever is written, a tab included, the cursor stays on the screen of 2000 cells, and no memory
-- beyond the screen is written.
cga_putc-OnScreen : (c : ℕ) (s t : Crt) → OnScreen t s → OnScreen t (cga_putc c s)
unfolding cga_putc
cga_putc-OnScreen c s t v = elim (Bool-cases (c % 256 == 9)) [
  | inl tab ↦
      let w : Crt = put_char 32 (put_char 32 (put_char 32 (put_char 32 (put_char 32 s)))) in
      let once = λ (x : Crt) (u : OnScreen t x). put_char-OnScreen 32 x t u in
      let five = once _ (once _ (once _ (once _ (once s v)))) in
      rw tab (scrolled w t (omega (arith, five.cursor)) five.outside)
  | inr other ↦ rw other (put_char-OnScreen c s t v)
]
