-- ===== src/Sched/Order.antt =====
-- The order in which `sched_yield` serves the environments.
use jos_lab.Base.{
  ◌==◌, eq_of_eqb, ℕ, zero, suc, ◌+◌, ◌-◌, ◌%◌, ◌≤◌, ◌<◌, ◌≡◌, inl, inr, sym, ◌∙◌, ap, Bool, true,
  false, Option, none, some, ltb, leb, if◌then◌else◌, Bool-cases, arith,
}
use jos_lab.Env.{Env, Kernel, is_runnable}
use jos_lab.Sched.{search_from, first_candidate, chosen}

-- The slot looked at `i` rounds after `p`: the slots 1 to 1023 in circular order.
abbrev pub turn : ℕ → ℕ → ℕ
turn p i = (p - 1 + i) % 1023 + 1

abbrev pub waits : (ℕ → Env) → ℕ → Bool
waits envs q = is_runnable (envs q).env_status

-- What `n` rounds from `p` on find: the first slot whose environment waits, or none.
abbrev pub Found : ℕ → ℕ → (ℕ → Env) → Option ℕ → Type 0
Found n p envs none = (i : ℕ) → i < n → waits envs (turn p i) ≡ false
Found n p envs (some q) =
    (i : ℕ) × (i < n)
    × (q ≡ turn p i)
    × (waits envs q ≡ true)
    × ((j : ℕ) → j < i → waits envs (turn p j) ≡ false)

turn_zero : (p : ℕ) → 0 < p → p ≤ 1024 → turn p 0 ≡ (if leb 1024 p then 1 else p)
turn_zero p l h = ground arith

turn-suc :
    (p i : ℕ) → 0 < p → p ≤ 1024 → turn ((if leb 1024 p then 1 else p) + 1) i ≡ turn p (suc i)
turn-suc p i l h = ground arith

below_suc :
    (P : ℕ → Type 0) (n : ℕ) → P 0 → ((i : ℕ) → i < n → P (suc i)) → (i : ℕ) → i < suc n → P i
below_suc P n z s zero lt = z
below_suc P n z s (suc i) lt = s i (omega arith)

later :
    (n p : ℕ) (envs : ℕ → Env) (o : Option ℕ)
    → 0 < p
    → p ≤ 1024
    → waits envs (turn p 0) ≡ false
    → Found n ((if leb 1024 p then 1 else p) + 1) envs o
    → Found (suc n) p envs o
later n p envs none l h not_here f =
    below_suc (λ i. waits envs (turn p i) ≡ false) n not_here
      (λ i lt. rw⁻¹ (turn-suc p i l h) (f i lt))
later n p envs (some q) l h not_here (i, lt, e, w, before) = (
  suc i,
  omega arith,
  e ∙ turn-suc p i l h,
  w,
  below_suc (λ j. waits envs (turn p j) ≡ false) i not_here
      (λ j lt. rw⁻¹ (turn-suc p j l h) (before j lt)),
)

search_from-Found :
    (n p : ℕ) (envs : ℕ → Env) → 0 < p → p ≤ 1024 → Found n p envs (search_from n p envs)
unfolding search_from
search_from-Found zero p envs l h = λ i lt. ground arith
search_from-Found (suc n) p envs l h =
    let q : ℕ = if leb 1024 p then 1 else p in
    elim (Bool-cases (waits envs q)) [
      | inl here ↦ rw here (0, omega arith, sym (turn_zero p l h), here, λ j lt. ground arith)
      | inr away ↦ rw away (
          later n p envs (search_from n (q + 1) envs) l h (rw (turn_zero p l h) away)
            (search_from-Found n (q + 1) envs (omega arith) (ground arith)))
    ]

-- Every slot but 0 has its turn among the first 1023 rounds.
abbrev pub wait : ℕ → ℕ → ℕ
wait p j = if leb p j then j - p else j + 1023 - p

wait_lt : (p j : ℕ) → 0 < p → p ≤ 1024 → 0 < j → j < 1024 → wait p j < 1023
wait_lt p j l h jl jh = ground arith

turn-wait : (p j : ℕ) → 0 < p → p ≤ 1024 → 0 < j → j < 1024 → turn p (wait p j) ≡ j
turn-wait p j l h jl jh = ground arith

-- What `sched_yield` picks when its search starts at `p`: the runnable environment whose turn
-- comes first; `envs[0]` only if no other is runnable; none only if none is.
abbrev pub Picked : ℕ → (ℕ → Env) → Option ℕ → Type 0
Picked p envs none = (j : ℕ) → j < 1024 → waits envs j ≡ false
Picked p envs (some q) =
    (q < 1024)
    × (waits envs q ≡ true)
    × ((j : ℕ) → 0 < j → j < 1024 → waits envs j ≡ true → (0 < q) × (wait p q ≤ wait p j))

wait-turn : (p i : ℕ) → 0 < p → p ≤ 1024 → wait p (turn p i) ≤ i
wait-turn p i l h = ground arith

unserved :
    (p j : ℕ) (envs : ℕ → Env)
    → 0 < p
    → p ≤ 1024
    → Found 1024 p envs none
    → 0 < j
    → j < 1024
    → waits envs j ≡ false
unserved p j envs l h f jl jh =
    let lt = wait_lt p j l h jl jh in
    rw⁻¹ (ap (waits envs) (turn-wait p j l h jl jh)) (f (wait p j) (omega arith))

not-before :
    (p i j : ℕ) (envs : ℕ → Env)
    → 0 < p
    → p ≤ 1024
    → ((j : ℕ) → j < i → waits envs (turn p j) ≡ false)
    → 0 < j
    → j < 1024
    → waits envs j ≡ true
    → i ≤ wait p j
not-before p i j envs l h before jl jh w = elim (Bool-cases (ltb (wait p j) i)) [
  | inl early ↦
      let no : waits envs j ≡ false =
        ap (waits envs) (sym (turn-wait p j l h jl jh)) ∙ before (wait p j) (ground arith) in
      ground arith
  | inr late ↦ ground arith
]

choose_of : (ℕ → Env) → Option ℕ → Option ℕ
choose_of envs o = elim o [ some p ↦ some p | none ↦ if waits envs 0 then some 0 else none ]

pick :
    (p : ℕ) (envs : ℕ → Env) (o : Option ℕ)
    → 0 < p
    → p ≤ 1024
    → Found 1024 p envs o
    → Picked p envs (choose_of envs o)
unfolding choose_of
pick p envs none l h f = elim (Bool-cases (waits envs 0)) [
  | inl zero_waits ↦
      rw zero_waits (
        omega arith,
        zero_waits,
        λ j jl jh w. let no = unserved p j envs l h f jl jh in ground arith,
      )
  | inr none_waits ↦ rw none_waits λ j jh. elim (Bool-cases (j == 0)) [
    | inl z ↦ rw (eq_of_eqb j 0 z) none_waits
    | inr nz ↦ unserved p j envs l h f (ground arith) jh
  ]
]
pick p envs (some q) l h (i, lt, e, w, before) = (
  ground arith,
  w,
  λ j jl jh wj.
      let bound = not-before p i j envs l h before jl jh wj in
      let mine : wait p q ≤ i = rw e (wait-turn p i l h) in
      (ground arith, omega (arith, mine, bound)),
)

-- The search of `sched_yield`, which starts behind `curenv`, in the table, picks the runnable
-- environment whose slot comes first in circular order, slot 0 left out; it picks `envs[0]` only
-- if no other environment is runnable, and none only if none is at all.
pub chosen-Picked :
    (k : Kernel) → first_candidate k ≤ 1024 → Picked (first_candidate k) k.envs (chosen k)
unfolding chosen choose_of
chosen-Picked k h =
    pick (first_candidate k) k.envs (search_from 1024 (first_candidate k) k.envs) (ground arith) h
      (search_from-Found 1024 (first_candidate k) k.envs (ground arith) h)
