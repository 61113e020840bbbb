-- ===== src/Monitor/Command.antt =====
-- `runcmd` of kern/monitor.c. `m` is the memory with the line, which stands at `buf`; `names` are
-- the addresses of the names in `commands`. What the command prints and returns is left out.
use jos_lab.Base.{
  ℕ, zero, suc, ◌+◌, ◌-◌, Bool, ◌||◌, Option, none, some, List, [], ◌∷◌, ◌==◌, if◌then◌else◌,
  update, Run, ok, stop, out_of_fuel, ◌>>=◌,
}
use jos_lab.Strings.{Bytes, strcmp}

abbrev pub maxargs : ℕ
maxargs = 16

-- strchr(WHITESPACE, c), for a character other than 0
abbrev pub is_blank : ℕ → Bool
is_blank c = (c == 9) || (c == 13) || (c == 10) || (c == 32)

-- The loop that writes 0 over white space.
unfoldable pub gobble : ℕ → ℕ → Bytes → Run (ℕ × Bytes)
gobble zero buf m = stop out_of_fuel
gobble (suc fuel) buf m =
    let rest = gobble fuel (buf + 1) (update m buf 0) in
    if m buf == 0 then ok (buf, m) else if is_blank (m buf) then rest else ok (buf, m)

-- The loop to the end of an argument.
unfoldable pub scan_word : ℕ → ℕ → Bytes → Run ℕ
scan_word zero buf m = stop out_of_fuel
scan_word (suc fuel) buf m =
    let rest = scan_word fuel (buf + 1) m in
    if m buf == 0 then ok buf else if is_blank (m buf) then ok buf else rest

abbrev pub prepend : ℕ → Option (List ℕ) × Bytes → Option (List ℕ) × Bytes
prepend p (none, m) = (none, m)
prepend p (some ps, m) = (some (p ∷ ps), m)

-- The loop with room for `left` more arguments: their addresses, or none if there are more.
unfoldable pub parse : ℕ → ℕ → ℕ → Bytes → Run (Option (List ℕ) × Bytes)
unfolding gobble scan_word
parse zero fuel buf m = do (p, m1) ← gobble fuel buf m; ok (if m1 p == 0 then some [] else none, m1)
parse (suc left) fuel buf m = do
  (p, m1) ← gobble fuel buf m
  let more = scan_word fuel p m1 >>= λ next. parse left fuel next m1 >>= λ rest. ok (prepend p rest)
  (if m1 p == 0 then ok (some [], m1) else more)

-- What the line asks for.
pub data Request : Type 0 where
  nothing : Request
  too_many : Request
  call : ℕ → List ℕ → Request
  unknown : ℕ → Request

-- The search for the command at index `i` and on.
unfoldable pub find_command : ℕ → List ℕ → ℕ → ℕ → List ℕ → Bytes → Run Request
unfolding strcmp
find_command fuel [] i name argv m = ok (unknown name)
find_command fuel (c ∷ rest) i name argv m =
    let later = find_command fuel rest (i + 1) name argv m in
    strcmp fuel name c m >>= λ differs. if differs == 0 then ok (call i argv) else later

abbrev pub request : ℕ → List ℕ → Option (List ℕ) × Bytes → Run Request
request fuel names (none, m) = ok too_many
request fuel names (some [], m) = ok nothing
request fuel names (some (name ∷ rest), m) = find_command fuel names 0 name (name ∷ rest) m

-- The request, and the memory after the parse.
unfoldable pub runcmd : ℕ → List ℕ → ℕ → Bytes → Run (Request × Bytes)
unfolding parse find_command
runcmd fuel names buf m = do
  parsed ← parse (maxargs - 1) fuel buf m
  r ← request fuel names parsed
  ok (r, parsed.1)
