-- ===== src/Strings.antt =====
-- lib/string.c: strings and blocks of bytes in a memory of bytes. An `int` result is its 32-bit
-- pattern. A loop that looks for the end of a string takes the rounds that it may do.
pub mod Length
pub mod Compare
pub mod Move
pub mod Number
use jos_lab.Base.{
  ℕ, zero, suc, ◌+◌, ◌-◌, ◌*◌, ◌/◌, ◌%◌, ◌^◌, Bool, true, false, not, ◌&&◌, ◌||◌, Option, none,
  some, ◌==◌, ltb, leb, if◌then◌else◌, update, Run, ok, stop, out_of_fuel, ◌>>=◌,
}

abbrev pub Bytes : Type 0
Bytes = ℕ → ℕ

unfoldable pub strlen : ℕ → ℕ → Bytes → Run ℕ
strlen zero s m = stop out_of_fuel
strlen (suc fuel) s m =
    let rest = strlen fuel (s + 1) m in if m s == 0 then ok 0 else (do n ← rest; ok (n + 1))

unfoldable pub strnlen : ℕ → ℕ → Bytes → ℕ
strnlen s zero m = 0
strnlen s (suc size) m = let rest = strnlen (s + 1) size m in if m s == 0 then 0 else rest + 1

-- The memory after the loop.
unfoldable pub strcpy : ℕ → ℕ → ℕ → Bytes → Run Bytes
strcpy zero dst src m = stop out_of_fuel
strcpy (suc fuel) dst src m =
    let copied = update m dst (m src) in
    let rest = strcpy fuel (dst + 1) (src + 1) copied in if m src == 0 then ok copied else rest

unfoldable pub strcat : ℕ → ℕ → ℕ → Bytes → Run Bytes
unfolding strlen strcpy
strcat fuel dst src m = do len ← strlen fuel dst m; strcpy fuel (dst + len) src m

unfoldable pub strncpy : ℕ → ℕ → ℕ → Bytes → Bytes
strncpy dst src zero m = m
strncpy dst src (suc size) m =
    strncpy (dst + 1) (if m src == 0 then src else src + 1) size (update m dst (m src))

-- The inner loop of `strlcpy`, `--size` done: the memory and where `dst` ends up.
unfoldable pub copy_some : ℕ → ℕ → ℕ → Bytes → Bytes × ℕ
copy_some dst src zero m = (m, dst)
copy_some dst src (suc size) m =
    let rest = copy_some (dst + 1) (src + 1) size (update m dst (m src)) in
    if m src == 0 then (m, dst) else rest

unfoldable pub strlcpy : ℕ → ℕ → ℕ → Bytes → Bytes × ℕ
unfolding copy_some
strlcpy dst src zero m = (m, 0)
strlcpy dst src (suc size) m =
    let (copied, end) = copy_some dst src size m in (update copied end 0, end - dst)

-- `(int) (p - q)` of two bytes.
abbrev pub byte_diff : ℕ → ℕ → ℕ
byte_diff p q = (p + 2 ^ 32 - q) % 2 ^ 32

unfoldable pub strcmp : ℕ → ℕ → ℕ → Bytes → Run ℕ
strcmp zero p q m = stop out_of_fuel
strcmp (suc fuel) p q m =
    let rest = strcmp fuel (p + 1) (q + 1) m in
    if not (m p == 0) && (m p == m q) then rest else ok (byte_diff (m p) (m q))

unfoldable pub strncmp : ℕ → ℕ → ℕ → Bytes → ℕ
strncmp p q zero m = 0
strncmp p q (suc n) m =
    let rest = strncmp (p + 1) (q + 1) n m in
    if not (m p == 0) && (m p == m q) then rest else byte_diff (m p) (m q)

-- `none` is the null pointer.
unfoldable pub strchr : ℕ → ℕ → ℕ → Bytes → Run (Option ℕ)
strchr zero s c m = stop out_of_fuel
strchr (suc fuel) s c m =
    let rest = strchr fuel (s + 1) c m in
    if m s == 0 then ok none else if m s == c then ok (some s) else rest

unfoldable pub strfind : ℕ → ℕ → ℕ → Bytes → Run ℕ
strfind zero s c m = stop out_of_fuel
strfind (suc fuel) s c m =
    let rest = strfind fuel (s + 1) c m in
    if m s == 0 then ok s else if m s == c then ok s else rest

-- `rep stos` of `n` units of `size` bytes, each byte `c`.
unfoldable pub rep_stos : ℕ → ℕ → ℕ → ℕ → Bytes → Bytes
rep_stos size zero v c m = m
rep_stos size (suc n) v c m =
    rep_stos size n (v + size) c (λ a. if leb v a && ltb a (v + size) then c else m a)

unfoldable pub memset : ℕ → ℕ → ℕ → Bytes → Bytes
unfolding rep_stos
memset v c n m =
    if n == 0
    then m
    else if (v % 4 == 0) && (n % 4 == 0)
    then rep_stos 4 (n / 4) v (c % 256) m
    else rep_stos 1 n v (c % 256) m

-- One unit of `size` bytes from `s` to `d`, read before it is written.
abbrev pub move_unit : ℕ → ℕ → ℕ → Bytes → Bytes
move_unit size s d m = λ a. if leb d a && ltb a (d + size) then m (s + (a - d)) else m a

-- `rep movs` with the direction flag clear: `n` units from `s` and `d` upwards.
unfoldable pub movs_up : ℕ → ℕ → ℕ → ℕ → Bytes → Bytes
movs_up size zero s d m = m
movs_up size (suc n) s d m = movs_up size n (s + size) (d + size) (move_unit size s d m)

-- And with it set: `n` units downwards, of which the last begin at `s` and `d`.
unfoldable pub movs_down : ℕ → ℕ → ℕ → ℕ → Bytes → Bytes
movs_down size zero s d m = m
movs_down size (suc n) s d m = movs_down size n s d (move_unit size (s + n * size) (d + n * size) m)

abbrev pub whole_words : ℕ → ℕ → ℕ → Bool
whole_words s d n = ((s % 4 == 0) && (d % 4 == 0)) && (n % 4 == 0)

unfoldable pub memmove : ℕ → ℕ → ℕ → Bytes → Bytes
unfolding movs_up movs_down
memmove d s n m =
    if ltb s d && ltb d (s + n)
    then (if whole_words (s + n) (d + n) n then movs_down 4 (n / 4) s d m else movs_down 1 n s d m)
    else if whole_words s d n
    then movs_up 4 (n / 4) s d m
    else movs_up 1 n s d m

abbrev pub memcpy : ℕ → ℕ → ℕ → Bytes → Bytes
memcpy = memmove

unfoldable pub memcmp : ℕ → ℕ → ℕ → Bytes → ℕ
memcmp s1 s2 zero m = 0
memcmp s1 s2 (suc n) m =
    let rest = memcmp (s1 + 1) (s2 + 1) n m in
    if m s1 == m s2 then rest else byte_diff (m s1) (m s2)

unfoldable pub memfind : ℕ → ℕ → ℕ → Bytes → ℕ
memfind s c zero m = s
memfind s c (suc n) m = let rest = memfind (s + 1) c n m in if m s == c % 256 then s else rest
