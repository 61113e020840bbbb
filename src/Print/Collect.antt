-- ===== src/Print/Collect.antt =====
-- `vcprintf` of lib/printf.c, for the characters that `vprintfmt` makes of its format. A call of `sys_cputs` is the list of characters that it is given.
use jos_lab.Base.{
  ℕ, zero, suc, ◌+◌, ◌%◌, ◌≤◌, ◌<◌, ◌≡◌, refl, sym, ap, ◌∙◌, inl, inr, true, false, List, [], ◌∷◌,
  ◌++◌, All, length, length-append, ◌==◌, if◌then◌else◌, update, Bool-cases, arith,
}
use mathlib.Core.List.{append_assoc, append-nil}
use jos_lab.Strings.{Bytes}

pub record Printbuf : Type 0 where
  pub idx : ℕ
  pub cnt : ℕ
  pub buf : Bytes

-- The first `n` characters of the buffer.
unfoldable pub buffered : Bytes → ℕ → List ℕ
buffered b zero = []
buffered b (suc n) = buffered b n ++ (b n ∷ [])

-- The buffer after a character, and the calls of `sys_cputs`.
unfoldable pub putch : ℕ → Printbuf → Printbuf × List (List ℕ)
unfolding buffered
putch ch b =
    let filled = update b.buf b.idx (ch % 256) in
    if b.idx + 1 == 255
    then (record { idx = 0; cnt = b.cnt + 1; buf = filled }, buffered filled (b.idx + 1) ∷ [])
    else (record { idx = b.idx + 1; cnt = b.cnt + 1; buf = filled }, [])

unfoldable pub emit : List ℕ → Printbuf → Printbuf × List (List ℕ)
unfolding putch
emit [] b = (b, [])
emit (ch ∷ rest) b =
    let (b1, now) = putch ch b in let (b2, later) = emit rest b1 in (b2, now ++ later)

-- The result and the calls, from whatever the buffer on the stack holds.
unfoldable pub vcprintf : Bytes → List ℕ → ℕ × List (List ℕ)
unfolding emit
vcprintf stack text =
    let (b, calls) = emit text (record { idx = 0; cnt = 0; buf = stack }) in
    (b.cnt, calls ++ (buffered b.buf b.idx ∷ []))

abbrev pub concat : List (List ℕ) → List ℕ
concat [] = []
concat (xs ∷ rest) = xs ++ concat rest

concat-append : (xs ys : List (List ℕ)) → concat (xs ++ ys) ≡ concat xs ++ concat ys
concat-append [] ys = refl
concat-append (x ∷ xs) ys =
    ap (λ zs. x ++ zs) (concat-append xs ys) ∙ sym (append_assoc x (concat xs) (concat ys))

All-append : (P : List ℕ → Type 0) (xs ys : List (List ℕ)) → All P xs → All P ys → All P (xs ++ ys)
All-append P [] ys a b = b
All-append P (x ∷ xs) ys (p, a) b = (p, All-append P xs ys a b)

buffered-update : (f : Bytes) (n k c : ℕ) → k ≤ n → buffered (update f n c) k ≡ buffered f k
unfolding buffered
buffered-update f n zero c h = refl
buffered-update f n (suc k) c h =
    let away : (k == n) ≡ false = ground arith in
    rw (buffered-update f n k c (omega arith), away) refl

length-buffered : (f : Bytes) (n : ℕ) → length (buffered f n) ≡ n
unfolding buffered
length-buffered f zero = refl
length-buffered f (suc n) =
    omega (arith, length-append (buffered f n) (f n ∷ []), length-buffered f n)

-- What the buffer holds, behind what was handed to `sys_cputs`.
abbrev shown_text : Printbuf × List (List ℕ) → List ℕ
shown_text (b, calls) = concat calls ++ buffered b.buf b.idx

record Collected (text : List ℕ) (b : Printbuf) (r : Printbuf × List (List ℕ)) : Type 0 where
  order : shown_text r ≡ buffered b.buf b.idx ++ text
  room : r.0.idx < 255
  count : r.0.cnt ≡ b.cnt + length text
  short : All (λ c. length c ≤ 255) r.1

filled-buffered :
    (ch : ℕ) (b : Printbuf)
    → ch < 256
    → buffered (update b.buf b.idx (ch % 256)) (suc b.idx) ≡ buffered b.buf b.idx ++ (ch ∷ [])
unfolding buffered
filled-buffered ch b word =
    let same : ch % 256 ≡ ch = omega arith in
    let here : (b.idx == b.idx) ≡ true = ground arith in
    rw (buffered-update b.buf b.idx b.idx (ch % 256) (omega arith), here, same) refl

putch-Collected :
    (ch : ℕ) (b : Printbuf) → ch < 256 → b.idx < 255 → Collected (ch ∷ []) b (putch ch b)
unfolding putch
putch-Collected ch b word room =
    let one : b.idx + 1 ≡ suc b.idx = omega arith in
    elim (Bool-cases (b.idx + 1 == 255)) [
      | inl full ↦ rw full (record {
        order =
            append-nil (buffered (update b.buf b.idx (ch % 256)) (b.idx + 1) ++ [])
            ∙ append-nil (buffered (update b.buf b.idx (ch % 256)) (b.idx + 1))
            ∙ rw one (filled-buffered ch b word);
        room = omega arith;
        count = refl;
        short =
            (omega (arith, length-buffered (update b.buf b.idx (ch % 256)) (b.idx + 1), room), _);
      })
      | inr more ↦ rw more (record {
        order = rw one (filled-buffered ch b word);
        room = ground arith;
        count = refl;
        short = _;
      })
    ]

emit-Collected :
    (text : List ℕ) (b : Printbuf)
    → All (λ ch. ch < 256) text
    → b.idx < 255
    → Collected text b (emit text b)
unfolding emit
emit-Collected [] b all room = record {
  order = sym (append-nil (buffered b.buf b.idx));
  room = room;
  count = omega arith;
  short = _;
}
emit-Collected (ch ∷ rest) b (word, all) room =
    let r = putch ch b in
    let x = putch-Collected ch b word room in
    let y = emit-Collected rest r.0 all x.room in
    record {
      order =
          ap (λ l. l ++ buffered (emit rest r.0).0.buf (emit rest r.0).0.idx)
            (concat-append r.1 (emit rest r.0).1)
          ∙ append_assoc (concat r.1) (concat (emit rest r.0).1) _
          ∙ ap (λ l. concat r.1 ++ l) y.order
          ∙ sym (append_assoc (concat r.1) (buffered r.0.buf r.0.idx) rest)
          ∙ ap (λ l. l ++ rest) x.order
          ∙ append_assoc (buffered b.buf b.idx) (ch ∷ []) rest;
      room = y.room;
      count = omega (arith, x.count, y.count);
      short = All-append (λ c. length c ≤ 255) r.1 (emit rest r.0).1 x.short y.short;
    }

-- For every text of bytes, whatever the buffer held: `vcprintf` hands to `sys_cputs`, in order and
-- in pieces of at most 255 characters, exactly the text, and returns its length.
pub vcprintf_lem :
    (stack : Bytes) (text : List ℕ)
    → All (λ ch. ch < 256) text
    → ((vcprintf stack text).0 ≡ length text)
      × (concat (vcprintf stack text).1 ≡ text)
      × All (λ c. length c ≤ 255) (vcprintf stack text).1
unfolding vcprintf buffered
vcprintf_lem stack text all =
    let start : Printbuf = record { idx = 0; cnt = 0; buf = stack } in
    let x = emit-Collected text start all (omega arith) in
    let last = buffered (emit text start).0.buf (emit text start).0.idx in
    (
      omega (arith, x.count),
      concat-append (emit text start).1 (last ∷ [])
          ∙ ap (λ l. concat (emit text start).1 ++ l) (append-nil last)
          ∙ x.order,
      All-append (λ c. length c ≤ 255) (emit text start).1 (last ∷ []) x.short
          (
            omega (arith, length-buffered (emit text start).0.buf (emit text start).0.idx, x.room),
            _,
          ),
    )
