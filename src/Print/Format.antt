-- ===== src/Print/Format.antt =====
-- `vprintfmt` of lib/printfmt.c. `m` is the memory that holds the format and the strings, `stack`
-- the argument words; `fmt` is an address in `m` and `ap` an index into `stack`. An `int` is its
-- 32-bit pattern. What is printed is the list of characters.
use jos_lab.Base.{
  ℕ, zero, suc, ◌+◌, ◌-◌, ◌*◌, ◌%◌, ◌^◌, Bool, true, false, ◌&&◌, ◌||◌, List, [], ◌∷◌, ◌++◌,
  replicate, get_or, length, ◌==◌, ltb, leb, if◌then◌else◌, Run, ok, stop, out_of_fuel, fault,
  ◌>>=◌,
}
use jos_lab.Strings.{Bytes, strnlen}
use jos_lab.Print.{printnum}

abbrev pub minus_one : ℕ
minus_one = 2 ^ 32 - 1

-- Whether an `int` is below 0.
abbrev pub is_neg : ℕ → Bool
is_neg x = leb (2 ^ 31) x

pub record Spec : Type 0 where
  pub padc : ℕ
  pub width : ℕ
  pub precision : ℕ
  pub lflag : ℕ
  pub altflag : Bool

-- The variables at the start of a %-escape.
abbrev pub fresh : Spec
fresh = record { padc = 32; width = minus_one; precision = minus_one; lflag = 0; altflag = false }

-- What one character of an escape leads to: back to `reswitch`, or to the plain text behind what is
-- printed.
pub data Next : Type 0 where
  again : Spec → ℕ → ℕ → Next
  printed : List ℕ → ℕ → ℕ → Next

abbrev pub getuint : ℕ → ℕ → (ℕ → ℕ) → ℕ × ℕ
getuint lflag ap stack =
    if leb 2 lflag then (stack ap + stack (ap + 1) * 2 ^ 32, ap + 2) else (stack ap, ap + 1)

-- The 64-bit pattern.
abbrev pub getint : ℕ → ℕ → (ℕ → ℕ) → ℕ × ℕ
getint lflag ap stack =
    if leb 2 lflag
    then (stack ap + stack (ap + 1) * 2 ^ 32, ap + 2)
    else if is_neg (stack ap)
    then (stack ap + 2 ^ 64 - 2 ^ 32, ap + 1)
    else (stack ap, ap + 1)

abbrev pub process_precision : Spec → Spec
process_precision s =
    if is_neg s.width then record s { width = s.precision; precision = minus_one } else s

abbrev pub is_figure : ℕ → Bool
is_figure ch = leb 48 ch && leb ch 57

-- The width field from its digit `ch` on: its value and the place behind it.
unfoldable pub field : ℕ → ℕ → ℕ → ℕ → Bytes → Run (ℕ × ℕ)
field zero acc ch fmt m = stop out_of_fuel
field (suc fuel) acc ch fmt m =
    let precision = (acc * 10 + ch - 48) % 2 ^ 32 in
    let rest = field fuel precision (m fmt) (fmt + 1) m in
    if is_figure (m fmt) then rest else ok (precision, fmt)

-- The number with its width; a width below 0 counts as 0.
abbrev pub number : List ℕ → ℕ → ℕ → Spec → ℕ → ℕ → Run Next
number front num base s fmt ap = do
  text ← printnum (num + 1) num base (if is_neg s.width then 0 else s.width) s.padc
  ok (printed (front ++ text) fmt ap)

abbrev pub unsigned : List ℕ → ℕ → ℕ × ℕ → Spec → ℕ → Run Next
unsigned front base (num, ap) s fmt = number front num base s fmt ap

-- `%d` of a 64-bit pattern.
abbrev pub decimal : ℕ × ℕ → Spec → ℕ → Run Next
decimal (num, ap) s fmt =
    if leb (2 ^ 63) num
    then number (45 ∷ []) (2 ^ 64 - num) 10 s fmt ap
    else number [] num 10 s fmt ap

-- The characters of a string, at most as many as the precision says if it is not below 0.
unfoldable pub shown : ℕ → ℕ → Bool → ℕ → Bytes → Run (List ℕ)
shown zero precision alt p m = stop out_of_fuel
shown (suc fuel) precision alt p m =
    let rest = shown fuel (if is_neg precision then precision else precision - 1) alt (p + 1) m in
    let ch = if alt && (ltb (m p) 32 || ltb 126 (m p)) then 63 else m p in
    if (m p == 0) || (precision == 0) then ok [] else (do more ← rest; ok (ch ∷ more))

-- "(null)"
abbrev pub null_text : Bytes
null_text a = get_or (40 ∷ 110 ∷ 117 ∷ 108 ∷ 108 ∷ 41 ∷ []) a 0

-- A string with its padding: on the left, unless the flag asks for the right.
unfoldable pub padded : ℕ → Spec → ℕ → Bytes → Run (List ℕ)
unfolding shown
padded fuel s p m =
    let room = if is_neg s.width then 0 else s.width in
    let left = if s.padc == 45 then 0 else room - strnlen p s.precision m in
    do
      text ← shown fuel s.precision s.altflag p m
      let right = if s.padc == 45 then room - length text else 0
      ok (replicate left s.padc ++ text ++ replicate right 32)

abbrev pub string_arg : ℕ → Spec → ℕ → Bytes → Run (List ℕ)
string_arg fuel s p m = if p == 0 then padded fuel s 0 null_text else padded fuel s p m

-- The messages of `error_string`, from index 1 on.
abbrev pub error_string : List (List ℕ)
error_string =
    (117 ∷ 110 ∷ 115 ∷ 112 ∷ 101 ∷ 99 ∷ 105 ∷ 102 ∷ 105 ∷ 101 ∷ 100 ∷ 32 ∷ 101 ∷ 114 ∷ 114 ∷ 111
      ∷ 114 ∷ [])
    ∷ (98 ∷ 97 ∷ 100 ∷ 32 ∷ 101 ∷ 110 ∷ 118 ∷ 105 ∷ 114 ∷ 111 ∷ 110 ∷ 109 ∷ 101 ∷ 110 ∷ 116 ∷ [])
    ∷ (105 ∷ 110 ∷ 118 ∷ 97 ∷ 108 ∷ 105 ∷ 100 ∷ 32 ∷ 112 ∷ 97 ∷ 114 ∷ 97 ∷ 109 ∷ 101 ∷ 116 ∷ 101
        ∷ 114 ∷ [])
    ∷ (111 ∷ 117 ∷ 116 ∷ 32 ∷ 111 ∷ 102 ∷ 32 ∷ 109 ∷ 101 ∷ 109 ∷ 111 ∷ 114 ∷ 121 ∷ [])
    ∷ (111 ∷ 117 ∷ 116 ∷ 32 ∷ 111 ∷ 102 ∷ 32 ∷ 101 ∷ 110 ∷ 118 ∷ 105 ∷ 114 ∷ 111 ∷ 110 ∷ 109 ∷ 101
        ∷ 110 ∷ 116 ∷ 115 ∷ [])
    ∷ (115 ∷ 101 ∷ 103 ∷ 109 ∷ 101 ∷ 110 ∷ 116 ∷ 97 ∷ 116 ∷ 105 ∷ 111 ∷ 110 ∷ 32 ∷ 102 ∷ 97 ∷ 117
        ∷ 108 ∷ 116 ∷ [])
    ∷ (101 ∷ 110 ∷ 118 ∷ 32 ∷ 105 ∷ 115 ∷ 32 ∷ 110 ∷ 111 ∷ 116 ∷ 32 ∷ 114 ∷ 101 ∷ 99 ∷ 118 ∷ 105
        ∷ 110 ∷ 103 ∷ [])
    ∷ (117 ∷ 110 ∷ 101 ∷ 120 ∷ 112 ∷ 101 ∷ 99 ∷ 116 ∷ 101 ∷ 100 ∷ 32 ∷ 101 ∷ 110 ∷ 100 ∷ 32 ∷ 111
        ∷ 102 ∷ 32 ∷ 102 ∷ 105 ∷ 108 ∷ 101 ∷ [])
    ∷ []

-- "error "
abbrev pub error_word : List ℕ
error_word = 101 ∷ 114 ∷ 114 ∷ 111 ∷ 114 ∷ 32 ∷ []

-- The enumeration of errors ends at 8.
abbrev pub maxerror : ℕ
maxerror = 9

-- `%e`: the message of the error, or "error " and its number. The pattern of the least `int`, whose
-- negation is itself, reads outside of the table.
abbrev pub error_text : ℕ → Run (List ℕ)
error_text arg =
    let e = if is_neg arg then 2 ^ 32 - arg else arg in
    if is_neg e
    then stop fault
    else if leb maxerror e || (e == 0)
    then (do text ← printnum (e + 1) e 10 0 32; ok (error_word ++ text))
    else ok (get_or error_string (e - 1) [])

-- The place behind the last '%' before `at`.
unfoldable pub rewind : ℕ → Bytes → ℕ
rewind zero m = zero
rewind (suc at) m = let earlier = rewind at m in if m at == 37 then suc at else earlier

-- One character of an escape: `fmt` is the place behind it.
unfoldable pub conv : ℕ → Spec → ℕ → ℕ → Bytes → (ℕ → ℕ) → Run Next
unfolding padded rewind field
conv fuel s fmt ap m stack =
    let ch = m (fmt - 1) in
    if ch == 45
    then ok (again (record s { padc = 45 }) fmt ap)
    else if ch == 48
    then ok (again (record s { padc = 48 }) fmt ap)
    else if is_figure ch
    then (do
      (value, next) ← field fuel 0 ch fmt m
      ok (again (process_precision (record s { precision = value })) next ap))
    else if ch == 42
    then ok (again (process_precision (record s { precision = stack ap })) fmt (ap + 1))
    else if ch == 46
    then ok (again (if is_neg s.width then record s { width = 0 } else s) fmt ap)
    else if ch == 35
    then ok (again (record s { altflag = true }) fmt ap)
    else if ch == 108
    then ok (again (record s { lflag = s.lflag + 1 }) fmt ap)
    else if ch == 99
    then ok (printed (stack ap ∷ []) fmt (ap + 1))
    else if ch == 101
    then (do text ← error_text (stack ap); ok (printed text fmt (ap + 1)))
    else if ch == 115
    then (do text ← string_arg fuel s (stack ap) m; ok (printed text fmt (ap + 1)))
    else if ch == 100
    then decimal (getint s.lflag ap stack) s fmt
    else if ch == 117
    then unsigned [] 10 (getuint s.lflag ap stack) s fmt
    else if ch == 111
    then ok (printed (88 ∷ 88 ∷ 88 ∷ []) fmt ap)
    else if ch == 112
    then unsigned (48 ∷ 120 ∷ []) 16 (stack ap, ap + 1) s fmt
    else if ch == 120
    then unsigned [] 16 (getuint s.lflag ap stack) s fmt
    else if ch == 37
    then ok (printed (37 ∷ []) fmt ap)
    else ok (printed (37 ∷ []) (rewind (fmt - 1) m) ap)

-- Where the loop is: in plain text, or behind the '%' of an escape.
pub data Place : Type 0 where
  plain : Place
  escape : Spec → Place

-- What follows one character of an escape, where `loop` is the rest of the loop.
abbrev pub proceed : (Place → ℕ → ℕ → Run (List ℕ)) → Next → Run (List ℕ)
proceed loop (again s fmt ap) = loop (escape s) fmt ap
proceed loop (printed text fmt ap) = do rest ← loop plain fmt ap; ok (text ++ rest)

-- What is printed from a place of the loop on.
unfoldable pub vprintfmt_from : ℕ → Bytes → (ℕ → ℕ) → Place → ℕ → ℕ → Run (List ℕ)
unfolding conv
vprintfmt_from zero m stack place fmt ap = stop out_of_fuel
vprintfmt_from (suc fuel) m stack plain fmt ap =
    let rest =
      vprintfmt_from fuel m stack (if m fmt == 37 then escape fresh else plain) (fmt + 1) ap in
    if m fmt == 37 then rest else if m fmt == 0 then ok [] else (do more ← rest; ok (m fmt ∷ more))
vprintfmt_from (suc fuel) m stack (escape s) fmt ap = do
  next ← conv fuel s (fmt + 1) ap m stack
  proceed (vprintfmt_from fuel m stack) next

unfoldable pub vprintfmt : ℕ → ℕ → ℕ → Bytes → (ℕ → ℕ) → Run (List ℕ)
unfolding vprintfmt_from
vprintfmt fuel fmt ap m stack = vprintfmt_from fuel m stack plain fmt ap
