-- ===== src/Pmap/User.antt =====
-- `user_mem_check` of kern/pmap.c: which ranges of user memory it lets through.
-- The loop runs on fuel; each round ends at a page boundary, so the pages of the range and three
-- more rounds are enough.
use jos_lab.Base.{
  ℕ, zero, suc, ◌+◌, ◌-◌, ◌*◌, ◌/◌, ◌%◌, ◌≤◌, ◌<◌, ◌≡◌, ◌⊎◌, refl, inl, inr, Bool, true, false, not,
  Option, some, none, arith, ◌==◌, ltb, leb, eq_of_eqb, if◌then◌else◌, Bool-cases, Run, ok, stop,
  out_of_fuel, bit_and, bit_or, ◌>>=◌,
}
use jos_lab.Mmu.{word_mod, pdx, ptx, ulim, pgsize, rounddown, is_present, pte_addr, pte_p, pte_u}
use jos_lab.Kernel.{Reply, ret, err, e_fault}
use jos_lab.Pmap.{Mem, PtePtr, load, pgdir_walk}
use jos_lab.Pmap.Walk.{kaddr-ok}

-- Whether an entry grants `perm`.
grants : ℕ → Option PtePtr → Mem → Bool
grants perm none m = false
grants perm (some pte) m = bit_and (load pte m) perm == perm

unfoldable pub check_from : ℕ → ℕ → ℕ → ℕ → ℕ → Mem → Run (Reply × Mem)
unfolding grants
check_from zero pgdir perm end start m = stop out_of_fuel
check_from (suc fuel) pgdir perm end start m =
    let rest = check_from fuel pgdir perm end ((rounddown start pgsize + pgsize) % word_mod) m in
    let refused = ok (err e_fault, record m { user_mem_check_addr = start }) in
    if not (ltb start end)
    then ok (ret 0, m)
    else if leb ulim start
    then refused
    else (do (pte, _) ← pgdir_walk pgdir start false m; if grants perm pte m then rest else refused)

unfoldable pub user_mem_check : ℕ → ℕ → ℕ → ℕ → Mem → Run (Reply × Mem)
unfolding check_from
user_mem_check pgdir va len perm m =
    let end = (va + len) % word_mod in
    check_from ((end - va) / 4096 + 3) pgdir (bit_or (bit_or perm pte_u) pte_p) end va m

-- The kernel's tables exist.
abbrev pub TablesExist : Mem → ℕ → Type 0
TablesExist m d = (i : ℕ) → i < 1024 → is_present (m.word d i) ≡ true → m.word d i / 4096 < m.npages

-- A user access to `a` that needs `perm` is allowed: below ULIM, and granted by the page's entry.
pub record Accessible (m : Mem) (d perm a : ℕ) : Type 0 where
  pub below : a < ulim
  pub table : is_present (m.word d (pdx a)) ≡ true
  pub granted : bit_and (m.word (m.word d (pdx a) / 4096) (ptx a)) perm ≡ perm

-- What a check of `[start, end)` comes to: every address of it is accessible, or the address
-- recorded is the first one that is not.
abbrev pub Checked : Mem → ℕ → ℕ → ℕ → ℕ → Run (Reply × Mem) → Type 0
Checked m d perm end start r =
    (r ≡ ok (ret 0, m)) × ((a : ℕ) → start ≤ a → a < end → Accessible m d perm a)
    ⊎ ((b : ℕ) × (r ≡ ok (err e_fault, record m { user_mem_check_addr = b }))
        × (start ≤ b)
        × (b < end)
        × (Accessible m d perm b → ⊥)
        × ((a : ℕ) → start ≤ a → a < b → Accessible m d perm a))

-- Addresses of one page are accessible together.
pub same_page :
    (m : Mem) (d perm a b : ℕ) → a / 4096 ≡ b / 4096 → Accessible m d perm a → Accessible m d perm b
same_page m d perm a b e x =
    let dir : pdx b ≡ pdx a = omega arith in
    let tab : ptx b ≡ ptx a = omega arith in
    record {
      below = omega (arith, x.below);
      table = rw dir x.table;
      granted = rw (dir, tab) x.granted;
    }

extend :
    (m : Mem) (d perm end start next : ℕ) (r : Run (Reply × Mem))
    → next ≡ rounddown start pgsize + pgsize
    → Accessible m d perm start
    → Checked m d perm end next r
    → Checked m d perm end start r
extend m d perm end start next r e x (inl (runs, all)) = inl (
  runs,
  λ a lo hi. elim (Bool-cases (ltb a next)) [
    | inl h ↦ same_page m d perm start a (ground arith) x
    | inr h ↦ all a (ground arith) hi
  ],
)
extend m d perm end start next r e x (inr (b, runs, lo, hi, bad, before)) = inr (
  b,
  runs,
  omega arith,
  hi,
  bad,
  λ a l h. elim (Bool-cases (ltb a next)) [
    | inl h' ↦ same_page m d perm start a (ground arith) x
    | inr h' ↦ before a (ground arith) h
  ],
)

module _ (m : Mem) (d perm end : ℕ) (tables : TablesExist m d) where
  walks :
      (a : ℕ)
      → pgdir_walk d a false m
        ≡ ok (
          if is_present (m.word d (pdx a)) then some (m.word d (pdx a) / 4096, ptx a) else none,
          m,
        )
  unfolding pgdir_walk
  walks a = elim (Bool-cases (is_present (m.word d (pdx a)))) [
    | inr gone ↦ rw gone refl
    | inl here ↦
        let inside = tables (pdx a) (omega arith) here in
        let frame : pte_addr (m.word d (pdx a)) / 4096 ≡ m.word d (pdx a) / 4096 = omega arith in
        rw (here, kaddr-ok m (pte_addr (m.word d (pdx a))) (rw frame inside)) (rw frame refl)
  ]

  refuses :
      (start : ℕ) {r : Run (Reply × Mem)}
      → start < end
      → r ≡ ok (err e_fault, record m { user_mem_check_addr = start })
      → (Accessible m d perm start → ⊥)
      → Checked m d perm end start r
  refuses start lt runs bad = inr (start, runs, omega arith, lt, bad, λ a l h. absurd (omega arith))

  pub check_from-Checked :
      (fuel start : ℕ)
      → end < word_mod
      → end - rounddown start pgsize + 4096 ≤ fuel * 4096
      → Checked m d perm end start (check_from fuel d perm end start m)
  unfolding check_from
  check_from-Checked zero start fits enough = absurd (omega arith)
  check_from-Checked (suc fuel) start fits enough = elim (Bool-cases (ltb start end)) [
    | inr done ↦ rw done (inl (refl, λ a lo hi. absurd (ground arith)))
    | inl more ↦ elim (Bool-cases (leb ulim start)) [
      | inl high ↦
          refuses start (ground arith) (rw (more, high) refl) (λ x. ground (arith, x.below))
      | inr low ↦ elim (Bool-cases (is_present (m.word d (pdx start)))) [
        | inr gone ↦
            refuses start (ground arith) (rw (more, low, walks start, gone) refl)
              (λ x. ground (arith, x.table))
        | inl here ↦
            elim (Bool-cases
              (bit_and (m.word (m.word d (pdx start) / 4096) (ptx start)) perm == perm)) [
                | inr denied ↦
                    refuses start (ground arith) (rw (more, low, walks start, here, denied) refl)
                      (λ x. ground (arith, x.granted))
                | inl granted ↦
                    rw (more, low, walks start, here, granted)
                      (extend m d perm end start _ _ (ground arith)
                        (record {
                          below = ground arith;
                          table = here;
                          granted = eq_of_eqb _ _ granted;
                        })
                        (check_from-Checked fuel _ fits (ground arith)))
              ]
      ]
    ]
  ]

-- Whatever the arguments below 2 ^ 32, when the range does not wrap round the address space and
-- the directory's tables exist: the check of `[va, va + len)` ends, lets the range through only if
-- every address of it is accessible for `perm | PTE_U | PTE_P`, and otherwise refuses with the
-- first inaccessible address recorded.
pub user_mem_check_lem :
    (m : Mem) (d va len perm : ℕ)
    → TablesExist m d
    → va + len < word_mod
    → Checked m d (bit_or (bit_or perm pte_u) pte_p) (va + len) va (user_mem_check d va len perm m)
unfolding user_mem_check
user_mem_check_lem m d va len perm tables fits =
    let e : (va + len) % word_mod ≡ va + len = omega arith in
    rw e (
      check_from-Checked m d (bit_or (bit_or perm pte_u) pte_p) (va + len) tables
        ((va + len - va) / 4096 + 3) va fits (omega arith))

-- A range that wraps round the end of the address space is let through with no look at the page
-- tables, whatever they hold.
pub user_mem_check_wraps :
    (m : Mem) (d va len perm : ℕ)
    → va < word_mod
    → len < word_mod
    → word_mod ≤ va + len
    → user_mem_check d va len perm m ≡ ok (ret 0, m)
unfolding user_mem_check
user_mem_check_wraps m d va len perm hv hl wraps =
    let start_past_end : ltb va ((va + len) % word_mod) ≡ false = ground arith in
    let fuel : ((va + len) % word_mod - va) / 4096 + 3 ≡ suc 2 = omega arith in
    rw (fuel, check_from, start_past_end) refl
