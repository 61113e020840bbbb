-- ===== src/Examples/Text.antt =====
-- Strings and blocks of bytes: the memory holds its own addresses, modulo 7, from 0 on.
use jos_lab.Base.{◌+◌, ◌-◌, ◌%◌, ◌≡◌, ◌&&◌, if◌then◌else◌, ltb, leb}
use jos_lab.Strings.{Bytes, memmove}
use jos_lab.Strings.Move.{memmove_lem}

abbrev sevens : Bytes
sevens = λ a. a % 7

-- Overlapping blocks.
memmove_lem_example :
    memmove 6 4 8 sevens 9 ≡ (if leb 6 9 && ltb 9 (6 + 8) then sevens (4 + (9 - 6)) else sevens 9)
memmove_lem_example = memmove_lem 6 4 8 9 sevens
