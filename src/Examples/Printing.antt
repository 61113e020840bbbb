-- ===== src/Examples/Printing.antt =====
-- Numbers and text that are printed.
use jos_lab.Base.{ℕ, ◌≡◌, ◌≤◌, All, List, [], ◌∷◌, length, arith}
use jos_lab.Kernel.{ret}
use jos_lab.Print.{vsnprintf}
use jos_lab.Print.Collect.{vcprintf, concat, vcprintf_lem}
use jos_lab.Print.Buffer.{Printed, vsnprintf_lem}

abbrev greeting : List ℕ
greeting = 104 ∷ 101 ∷ 108 ∷ 108 ∷ 111 ∷ []

-- Five characters into a buffer of four bytes.
vsnprintf_lem_example :
    ((vsnprintf 100 4 greeting (λ a. 7)).0 ≡ ret (length greeting))
    × Printed 100 4 greeting (λ a. 7) (vsnprintf 100 4 greeting (λ a. 7)).1
vsnprintf_lem_example = vsnprintf_lem 100 4 greeting (λ a. 7) (omega arith) (omega arith)

vcprintf_lem_example :
    ((vcprintf (λ a. 7) (104 ∷ 105 ∷ [])).0 ≡ 2)
    × (concat (vcprintf (λ a. 7) (104 ∷ 105 ∷ [])).1 ≡ 104 ∷ 105 ∷ [])
    × All (λ c. length c ≤ 255) (vcprintf (λ a. 7) (104 ∷ 105 ∷ [])).1
vcprintf_lem_example = vcprintf_lem (λ a. 7) (104 ∷ 105 ∷ []) (omega arith, (omega arith, _))
