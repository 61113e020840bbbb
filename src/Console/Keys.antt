-- ===== src/Console/Keys.antt =====
-- The key maps of kern/console.c: what a key of the PC keyboard sends, by its scan code. An array
-- is a list of its first elements and a function for the later ones, which are 0 but for a few.
use jos_lab.Base.{ℕ, List, [], ◌∷◌, ◌==◌, ltb, if◌then◌else◌, length, get_or}

-- The element of an array whose first elements are `low`.
abbrev from_list : List ℕ → (ℕ → ℕ) → ℕ → ℕ
from_list low high i = if ltb i (length low) then get_or low i 0 else high i

abbrev normalmap_high : ℕ → ℕ
normalmap_high i =
    if i == 199
    then 224
    else if i == 156
    then 10
    else if i == 181
    then 47
    else if i == 200
    then 226
    else if i == 201
    then 230
    else if i == 203
    then 228
    else if i == 205
    then 229
    else if i == 207
    then 225
    else if i == 208
    then 227
    else if i == 209
    then 231
    else if i == 210
    then 232
    else if i == 211
    then 233
    else 0

unfoldable pub normalmap : ℕ → ℕ
normalmap =
    from_list
      (0 ∷ 27 ∷ 49 ∷ 50 ∷ 51 ∷ 52 ∷ 53 ∷ 54 ∷ 55 ∷ 56 ∷ 57 ∷ 48 ∷ 45 ∷ 61 ∷ 8 ∷ 9 ∷ 113 ∷ 119 ∷ 101
        ∷ 114 ∷ 116 ∷ 121 ∷ 117 ∷ 105 ∷ 111 ∷ 112 ∷ 91 ∷ 93 ∷ 10 ∷ 0 ∷ 97 ∷ 115 ∷ 100 ∷ 102 ∷ 103
        ∷ 104 ∷ 106 ∷ 107 ∷ 108 ∷ 59 ∷ 39 ∷ 96 ∷ 0 ∷ 92 ∷ 122 ∷ 120 ∷ 99 ∷ 118 ∷ 98 ∷ 110 ∷ 109 ∷ 44
        ∷ 46 ∷ 47 ∷ 0 ∷ 42 ∷ 0 ∷ 32 ∷ 0 ∷ 0 ∷ 0 ∷ 0 ∷ 0 ∷ 0 ∷ 0 ∷ 0 ∷ 0 ∷ 0 ∷ 0 ∷ 0 ∷ 0 ∷ 55 ∷ 56
        ∷ 57 ∷ 45 ∷ 52 ∷ 53 ∷ 54 ∷ 43 ∷ 49 ∷ 50 ∷ 51 ∷ 48 ∷ 46 ∷ 0 ∷ 0 ∷ 0 ∷ 0 ∷ [])
      normalmap_high

abbrev shiftmap_high : ℕ → ℕ
shiftmap_high i =
    if i == 199
    then 224
    else if i == 156
    then 10
    else if i == 181
    then 47
    else if i == 200
    then 226
    else if i == 201
    then 230
    else if i == 203
    then 228
    else if i == 205
    then 229
    else if i == 207
    then 225
    else if i == 208
    then 227
    else if i == 209
    then 231
    else if i == 210
    then 232
    else if i == 211
    then 233
    else 0

unfoldable pub shiftmap : ℕ → ℕ
shiftmap =
    from_list
      (0 ∷ 27 ∷ 33 ∷ 64 ∷ 35 ∷ 36 ∷ 37 ∷ 94 ∷ 38 ∷ 42 ∷ 40 ∷ 41 ∷ 95 ∷ 43 ∷ 8 ∷ 9 ∷ 81 ∷ 87 ∷ 69
        ∷ 82 ∷ 84 ∷ 89 ∷ 85 ∷ 73 ∷ 79 ∷ 80 ∷ 123 ∷ 125 ∷ 10 ∷ 0 ∷ 65 ∷ 83 ∷ 68 ∷ 70 ∷ 71 ∷ 72 ∷ 74
        ∷ 75 ∷ 76 ∷ 58 ∷ 34 ∷ 126 ∷ 0 ∷ 124 ∷ 90 ∷ 88 ∷ 67 ∷ 86 ∷ 66 ∷ 78 ∷ 77 ∷ 60 ∷ 62 ∷ 63 ∷ 0
        ∷ 42 ∷ 0 ∷ 32 ∷ 0 ∷ 0 ∷ 0 ∷ 0 ∷ 0 ∷ 0 ∷ 0 ∷ 0 ∷ 0 ∷ 0 ∷ 0 ∷ 0 ∷ 0 ∷ 55 ∷ 56 ∷ 57 ∷ 45 ∷ 52
        ∷ 53 ∷ 54 ∷ 43 ∷ 49 ∷ 50 ∷ 51 ∷ 48 ∷ 46 ∷ 0 ∷ 0 ∷ 0 ∷ 0 ∷ [])
      shiftmap_high

abbrev ctlmap_high : ℕ → ℕ
ctlmap_high i =
    if i == 151
    then 224
    else if i == 181
    then 239
    else if i == 200
    then 226
    else if i == 201
    then 230
    else if i == 203
    then 228
    else if i == 205
    then 229
    else if i == 207
    then 225
    else if i == 208
    then 227
    else if i == 209
    then 231
    else if i == 210
    then 232
    else if i == 211
    then 233
    else 0

unfoldable pub ctlmap : ℕ → ℕ
ctlmap =
    from_list
      (0 ∷ 0 ∷ 0 ∷ 0 ∷ 0 ∷ 0 ∷ 0 ∷ 0 ∷ 0 ∷ 0 ∷ 0 ∷ 0 ∷ 0 ∷ 0 ∷ 0 ∷ 0 ∷ 17 ∷ 23 ∷ 5 ∷ 18 ∷ 20 ∷ 25
        ∷ 21 ∷ 9 ∷ 15 ∷ 16 ∷ 0 ∷ 0 ∷ 13 ∷ 0 ∷ 1 ∷ 19 ∷ 4 ∷ 6 ∷ 7 ∷ 8 ∷ 10 ∷ 11 ∷ 12 ∷ 0 ∷ 0 ∷ 0 ∷ 0
        ∷ 28 ∷ 26 ∷ 24 ∷ 3 ∷ 22 ∷ 2 ∷ 14 ∷ 13 ∷ 0 ∷ 0 ∷ 239 ∷ 0 ∷ 0 ∷ [])
      ctlmap_high

-- CTL, SHIFT, ALT
unfoldable pub shiftcode : ℕ → ℕ
shiftcode i =
    if i == 29
    then 2
    else if i == 42
    then 1
    else if i == 54
    then 1
    else if i == 56
    then 4
    else if i == 157
    then 2
    else if i == 184
    then 4
    else 0

-- CAPSLOCK, NUMLOCK, SCROLLLOCK
unfoldable pub togglecode : ℕ → ℕ
togglecode i = if i == 58 then 8 else if i == 69 then 16 else if i == 70 then 32 else 0
