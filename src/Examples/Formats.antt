-- ===== src/Examples/Formats.antt =====
-- `vprintfmt` of lib/printfmt.c on concrete formats.
use jos_lab.Base.{
  ◌++◌, ◌+◌, ◌≤◌, ◌<◌, length, arith, ℕ, ◌-◌, ◌^◌, ◌≡◌, refl, List, [], ◌∷◌, get_or, ok,
}
use jos_lab.Strings.{Bytes}
use jos_lab.Print.Format.{vprintfmt}
use jos_lab.Print.Plain.{strtol-vprintfmt}
use jos_lab.Print.RoundTrip.{Written}
use jos_lab.Strings.Number.{strtol}

-- A text at address 1.
abbrev at_one : List ℕ → Bytes
at_one text a = get_or text (a - 1) 0

abbrev word : ℕ → ℕ → ℕ
word w i = w

-- "%4d|" of -12
vprintfmt-signed :
    vprintfmt 20 1 0 (at_one (37 ∷ 52 ∷ 100 ∷ 124 ∷ [])) (word (2 ^ 32 - 12))
    ≡ ok (45 ∷ 32 ∷ 32 ∷ 49 ∷ 50 ∷ 124 ∷ [])
unfolding vprintfmt jos_lab.Print.printnum
vprintfmt-signed = refl

-- "%08x" of 2748
vprintfmt-hex :
    vprintfmt 20 1 0 (at_one (37 ∷ 48 ∷ 56 ∷ 120 ∷ [])) (word 2748)
    ≡ ok (48 ∷ 48 ∷ 48 ∷ 48 ∷ 48 ∷ 97 ∷ 98 ∷ 99 ∷ [])
unfolding vprintfmt jos_lab.Print.printnum
vprintfmt-hex = refl

-- "%5q" prints itself.
vprintfmt-unknown :
    vprintfmt 20 1 0 (at_one (37 ∷ 53 ∷ 113 ∷ [])) (word 0) ≡ ok (37 ∷ 53 ∷ 113 ∷ [])
unfolding vprintfmt
vprintfmt-unknown = refl

-- "%e" of -3: "invalid parameter"
vprintfmt-error :
    vprintfmt 20 1 0 (at_one (37 ∷ 101 ∷ [])) (word (2 ^ 32 - 3))
    ≡ ok (
        105 ∷ 110 ∷ 118 ∷ 97 ∷ 108 ∷ 105 ∷ 100 ∷ 32 ∷ 112 ∷ 97 ∷ 114 ∷ 97 ∷ 109 ∷ 101 ∷ 116 ∷ 101
        ∷ 114 ∷ [])
unfolding vprintfmt
vprintfmt-error = refl

-- "n="
abbrev label : List ℕ
label = 110 ∷ 61 ∷ []

-- "n=%x" of 2748
abbrev hex_format : Bytes
hex_format = at_one (110 ∷ 61 ∷ 37 ∷ 120 ∷ 0 ∷ [])

strtol-vprintfmt_example :
    (digits : List ℕ) × ((fuel : ℕ)
      → length label + 3 ≤ fuel
      → vprintfmt fuel 1 0 hex_format (word 2748) ≡ ok (label ++ digits))
    × ((fuel s : ℕ) (out : Bytes)
        → length digits < fuel
        → Written out s (digits ++ (0 ∷ []))
        → strtol fuel s 16 out ≡ ok (2748, s + length digits))
strtol-vprintfmt_example =
    strtol-vprintfmt label 1 0 hex_format (word 2748) ((refl, refl), ((refl, refl), _))
      (refl, (refl, (refl, (refl, (refl, _))))) (omega arith)
