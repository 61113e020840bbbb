-- ===== src/Strings/Number.antt =====
-- `strtol` of lib/string.c, and `strtol` after `printnum` of lib/printfmt.c. A `long` is its 32-bit
-- pattern, and wraps where the C code overflows. The loops take the rounds that they may do.
use jos_lab.Base.{
  ℕ, zero, suc, ◌+◌, ◌-◌, ◌*◌, ◌%◌, ◌^◌, Bool, true, false, ◌&&◌, ◌||◌, Option, none, some, ◌==◌,
  leb, if◌then◌else◌, Run, ok, stop, out_of_fuel, ◌>>=◌,
}
use jos_lab.Strings.{Bytes}

unfoldable pub skip_blanks : ℕ → ℕ → Bytes → Run ℕ
skip_blanks zero s m = stop out_of_fuel
skip_blanks (suc fuel) s m =
    let rest = skip_blanks fuel (s + 1) m in if (m s == 32) || (m s == 9) then rest else ok s

-- What a character counts as a digit, in any base.
unfoldable pub digit_of : ℕ → Option ℕ
digit_of c =
    if leb 48 c && leb c 57
    then some (c - 48)
    else if leb 97 c && leb c 122
    then some (c - 97 + 10)
    else if leb 65 c && leb c 90
    then some (c - 65 + 10)
    else none

-- The digit, if it is one of the base.
abbrev pub usable : ℕ → Option ℕ → Option ℕ
usable base none = none
usable base (some dig) = if leb base dig then none else some dig

abbrev pub is_digit : Option ℕ → Bool
is_digit none = false
is_digit (some dig) = true

abbrev pub number : Option ℕ → ℕ
number none = 0
number (some dig) = dig

-- The value and where the digits end.
unfoldable pub digits_from : ℕ → ℕ → ℕ → ℕ → Bytes → Run (ℕ × ℕ)
digits_from zero base val s m = stop out_of_fuel
digits_from (suc fuel) base val s m =
    let dig = usable base (digit_of (m s)) in
    let rest = digits_from fuel base ((val * base + number dig) % 2 ^ 32) (s + 1) m in
    if is_digit dig then rest else ok (val, s)

-- Behind the sign: the base and where the digits begin.
unfoldable pub prefix : ℕ → ℕ → Bytes → ℕ × ℕ
prefix base s m =
    if ((base == 0) || (base == 16)) && ((m s == 48) && (m (s + 1) == 120))
    then (16, s + 2)
    else if (base == 0) && (m s == 48)
    then (8, s + 1)
    else if base == 0
    then (10, s)
    else (base, s)

abbrev pub signed : Bool → ℕ × ℕ → ℕ × ℕ
signed neg (val, s) = (if neg then (2 ^ 32 - val) % 2 ^ 32 else val, s)

unfoldable pub unsigned_part : ℕ → Bool → ℕ × ℕ → Bytes → Run (ℕ × ℕ)
unfolding digits_from
unsigned_part fuel neg (base, s) m = do read ← digits_from fuel base 0 s m; ok (signed neg read)

-- The result, and what is stored through `endptr`.
unfoldable pub strtol : ℕ → ℕ → ℕ → Bytes → Run (ℕ × ℕ)
unfolding skip_blanks prefix unsigned_part
strtol fuel s base m = do
  start ← skip_blanks fuel s m
  (if m start == 43
      then unsigned_part fuel false (prefix base (start + 1) m) m
      else if m start == 45
      then unsigned_part fuel true (prefix base (start + 1) m) m
      else unsigned_part fuel false (prefix base start m) m)
