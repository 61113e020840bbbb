-- ===== src/Print/Buffer.antt =====
-- `vsnprintf` stays in its buffer.
use jos_lab.Base.{
  eq_self, ℕ, zero, suc, ◌+◌, ◌-◌, ◌%◌, ◌≤◌, ◌<◌, ◌≡◌, ◌⊎◌, inl, inr, refl, sym, ◌∙◌, ap, true,
  false, ◌||◌, List, [], ◌∷◌, length, get_or, min, ◌==◌, ltb, Bool-cases, update, arith,
}
use jos_lab.Kernel.{ret}
use jos_lab.Strings.{Bytes}
use jos_lab.Print.{Sprintbuf, sprintputch, put_all, vsnprintf}

-- What the text leaves behind, from buffer `b` on.
record Put (text : List ℕ) (b b' : Sprintbuf) : Type 0 where
  end : b'.buf ≡ b.buf + min (length text) (b.ebuf - b.buf)
  count : b'.cnt ≡ b.cnt + length text
  text_there :
      (i : ℕ)
      → i < min (length text) (b.ebuf - b.buf)
      → b'.memory (b.buf + i) ≡ get_or text i 0 % 256
  outside :
      (a : ℕ)
      → (a < b.buf) ⊎ (b.buf + min (length text) (b.ebuf - b.buf) ≤ a)
      → b'.memory a ≡ b.memory a

-- One character, with room for it and without.
stored : ℕ → Sprintbuf → Sprintbuf
stored ch b = record b {
  cnt = b.cnt + 1;
  buf = b.buf + 1;
  memory = update b.memory b.buf (ch % 256);
}

put_room : (ch : ℕ) (b : Sprintbuf) → ltb b.buf b.ebuf ≡ true → sprintputch ch b ≡ stored ch b
unfolding sprintputch stored
put_room ch b room = rw room refl

put_full :
    (ch : ℕ) (b : Sprintbuf)
    → ltb b.buf b.ebuf ≡ false
    → sprintputch ch b ≡ record b { cnt = b.cnt + 1 }
unfolding sprintputch
put_full ch b full = rw full refl

after_room :
    (ch : ℕ) (rest : List ℕ) (b b' : Sprintbuf)
    → b.buf < b.ebuf
    → Put rest (stored ch b) b'
    → Put (ch ∷ rest) b b'
unfolding stored
after_room ch rest b b' room p =
    let out = p.outside b.buf in
    record {
      end = omega (arith, p.end);
      count = omega (arith, p.count);
      text_there = λ i h. elim (Bool-cases (i == 0)) [
        | inl first ↦
            let z : i ≡ 0 = ground arith in
            rw z (ap b'.memory (omega arith) ∙ out (inl (omega arith)) ∙ ground arith)
        | inr later ↦
            let next : b.buf + 1 + (i - 1) ≡ b.buf + i = ground arith in
            let t = p.text_there (i - 1) (ground arith) in
            sym (ap b'.memory next) ∙ t ∙ get_later ch rest i later
      ];
      outside = λ a h. p.outside a (ground arith) ∙ ground arith;
    }
  where
    get_later :
        (ch : ℕ) (rest : List ℕ) (i : ℕ)
        → (i == 0) ≡ false
        → get_or rest (i - 1) 0 % 256 ≡ get_or (ch ∷ rest) i 0 % 256
    get_later ch rest zero e = ground arith
    get_later ch rest (suc i) e = ap (λ j. get_or rest j 0 % 256) (omega arith)

after_full :
    (ch : ℕ) (rest : List ℕ) (b b' : Sprintbuf)
    → b.ebuf ≤ b.buf
    → Put rest (record b { cnt = b.cnt + 1 }) b'
    → Put (ch ∷ rest) b b'
after_full ch rest b b' full p = record {
  end = omega (arith, p.end);
  count = omega (arith, p.count);
  text_there = λ i h. ground arith;
  outside = λ a h. p.outside a (ground arith);
}

put_all-Put : (text : List ℕ) (b : Sprintbuf) → Put text b (put_all text b)
unfolding put_all
put_all-Put [] b = record {
  end = omega arith;
  count = omega arith;
  text_there = λ i h. ground arith;
  outside = λ a h. refl;
}
put_all-Put (ch ∷ rest) b = elim (Bool-cases (ltb b.buf b.ebuf)) [
  | inl room ↦
      rw (put_room ch b room)
        (after_room ch rest b _ (ground arith) (put_all-Put rest (stored ch b)))
  | inr full ↦
      rw (put_full ch b full)
        (after_full ch rest b _ (ground arith) (put_all-Put rest (record b { cnt = b.cnt + 1 })))
]

-- What `vsnprintf` does to the buffer of `n` bytes at `buf`: `k` characters and the ending 0.
pub record Printed (buf n : ℕ) (text : List ℕ) (m m' : Bytes) : Type 0 where
  pub there : (i : ℕ) → i < min (length text) (n - 1) → m' (buf + i) ≡ get_or text i 0 % 256
  pub ending : m' (buf + min (length text) (n - 1)) ≡ 0
  pub outside : (a : ℕ) → (a < buf) ⊎ (buf + n ≤ a) → m' a ≡ m a

ended :
    (buf n : ℕ) (text : List ℕ) (m : Bytes) (b' : Sprintbuf)
    → 0 < n
    → Put text (record { buf = buf; ebuf = buf + n - 1; cnt = 0; memory = m }) b'
    → (ret b'.cnt ≡ ret (length text)) × Printed buf n text m (update b'.memory b'.buf 0)
ended buf n text m b' some p =
    let room : buf + n - 1 - buf ≡ n - 1 = omega arith in
    let end : b'.buf ≡ buf + min (length text) (n - 1) = omega (arith, p.end) in
    (
      ap ret (omega (arith, p.count)),
      record {
        there = λ i h.
            let away : (buf + i == b'.buf) ≡ false = ground arith in
            rw away (p.text_there i (omega arith));
        ending = rw (sym end, eq_self b'.buf) refl;
        outside = λ a h.
            let away : (a == b'.buf) ≡ false = ground arith in rw away (p.outside a (ground arith));
      },
    )

-- `vsnprintf` into a buffer of `n > 0` bytes returns the length of the whole text, puts as much
-- of it as fits with its ending 0 byte in the buffer, and writes nothing outside.
pub vsnprintf_lem :
    (buf n : ℕ) (text : List ℕ) (m : Bytes)
    → 0 < buf
    → 0 < n
    → ((vsnprintf buf n text m).0 ≡ ret (length text))
      × Printed buf n text m (vsnprintf buf n text m).1
unfolding vsnprintf
vsnprintf_lem buf n text m there some =
    let runs : ((buf == 0) || ltb n 1) ≡ false = ground arith in
    let start : Sprintbuf = record { buf = buf; ebuf = buf + n - 1; cnt = 0; memory = m } in
    rw runs (ended buf n text m (put_all text start) some (put_all-Put text start))
