-- ===== src/User/Ipc.antt =====
-- lib/ipc.c over the system calls that it uses.
use jos_lab.Base.{
  ℕ, zero, suc, ◌+◌, ◌≤◌, ◌<◌, ◌≡◌, ◌≢◌, ◌⊎◌, inl, inr, refl, Bool, true, false, Option, none, some,
  ◌==◌, Bool-cases, if◌then◌else◌, Run, ok, stop, panic, out_of_fuel, ◌>>=◌, arith,
}
use jos_lab.Kernel.{Error, Reply, ret, err, e_ipc_not_recv}
use jos_lab.Mmu.{utop}
use jos_lab.Env.{Env, nenv, envx}

-- The calls of lib/syscall.c, and `envs` as a program reads it.
pub record IpcCalls (S : Type 0) : Type 0 where
  pub try_send : ℕ → ℕ → ℕ → ℕ → S → Reply × S
  pub recv : ℕ → S → Reply × S
  pub yield : S → S
  pub getenvid : S → ℕ
  pub envs : S → ℕ → Env

abbrev pub is_not_recv : Error → Bool
is_not_recv e_ipc_not_recv = true
is_not_recv _ = false

module _ {S : Type 0} (calls : IpcCalls S) where
  -- What `ipc_recv` passes on for `pg`.
  abbrev pub asked : ℕ → ℕ
  asked pg = if pg == 0 then pg else utop

  -- The result, and what is stored through `from_env_store` and `perm_store`.
  abbrev received : Reply × S → (Reply × ℕ × ℕ) × S
  received (err e, s) = ((err e, 0, 0), s)
  received (ret n, s) =
      let e = calls.envs s (envx (calls.getenvid s)) in
      ((ret e.env_ipc_value, e.env_ipc_from, e.env_ipc_perm), s)

  unfoldable pub ipc_recv : ℕ → S → (Reply × ℕ × ℕ) × S
  ipc_recv pg s = received (calls.recv (asked pg) s)

  -- What one round of `ipc_send` comes to: `none` asks for another.
  abbrev pub tried : Reply × S → Run (Option S × S)
  tried (ret n, s) = ok (some s, s)
  tried (err e, s) = if is_not_recv e then ok (none, calls.yield s) else stop panic

  abbrev pub page_or_none : ℕ → ℕ
  page_or_none pg = if pg == 0 then utop else pg

  abbrev pub go_on : Run S → Option S × S → Run S
  go_on again (none, s) = again
  go_on again (some done, s) = ok done

  -- The loop, on fuel.
  unfoldable pub ipc_send : ℕ → ℕ → ℕ → ℕ → ℕ → S → Run S
  ipc_send zero to_env val pg perm s = stop out_of_fuel
  ipc_send (suc fuel) to_env val pg perm s =
      let sent = calls.try_send to_env val (page_or_none pg) perm s in
      let again = ipc_send fuel to_env val pg perm (calls.yield sent.1) in
      tried sent >>= go_on again

  -- The loop of `ipc_find_env`, with the rounds that are left; 0 if there is none.
  unfoldable pub find_from : ℕ → ℕ → ℕ → S → ℕ
  find_from zero i type s = 0
  find_from (suc n) i type s =
      let rest = find_from n (i + 1) type s in
      if (calls.envs s i).env_type == type then (calls.envs s i).env_id else rest

  unfoldable pub ipc_find_env : ℕ → S → ℕ
  unfolding find_from
  ipc_find_env type s = find_from nenv 0 type s

  -- The state after `k` tries that find the receiver not ready.
  unfoldable pub after : ℕ → ℕ → ℕ → ℕ → ℕ → S → S
  after zero to_env val pg perm s = s
  after (suc k) to_env val pg perm s =
      after k to_env val pg perm
        (calls.yield (calls.try_send to_env val (page_or_none pg) perm s).1)

  abbrev pub not_ready : Reply × S → Bool
  not_ready (ret n, s) = false
  not_ready (err e, s) = is_not_recv e

  -- The try number `k`.
  abbrev pub try : ℕ → ℕ → ℕ → ℕ → ℕ → S → Reply × S
  try k to_env val pg perm s =
      calls.try_send to_env val (page_or_none pg) perm (after k to_env val pg perm s)

  -- `ipc_find_env` returns the id of the first environment of the type in the table, or 0 if the
  -- table has none.
  pub find_from-first :
      (n i type : ℕ) (s : S)
      → ((j : ℕ) × (i ≤ j)
          × (j < i + n)
          × ((calls.envs s j).env_type ≡ type)
          × (find_from n i type s ≡ (calls.envs s j).env_id)
          × ((h : ℕ) → i ≤ h → h < j → (calls.envs s h).env_type ≢ type))
        ⊎ ((find_from n i type s ≡ 0)
            × ((h : ℕ) → i ≤ h → h < i + n → (calls.envs s h).env_type ≢ type))
  unfolding find_from
  find_from-first zero i type s = inr (refl, λ h lo hi. absurd (omega arith))
  find_from-first (suc n) i type s = elim (Bool-cases ((calls.envs s i).env_type == type)) [
    | inl here ↦
        inl
          (i, omega arith, omega arith, ground arith, rw here refl, λ h lo hi. absurd (omega arith))
    | inr no_match ↦ elim (find_from-first n (i + 1) type s) [
      | inl (j, lo, hi, at, found, before) ↦ inl (
        j,
        omega arith,
        omega arith,
        at,
        rw no_match found,
        λ h a b. elim (Bool-cases (h == i)) [
          | inl e ↦ let same : h ≡ i = ground arith in rw same (ground (arith, no_match))
          | inr e ↦ before h (ground arith) b
        ],
      )
      | inr (found, free) ↦ inr (
        rw no_match found,
        λ h a b. elim (Bool-cases (h == i)) [
          | inl e ↦ let same : h ≡ i = ground arith in rw same (ground (arith, no_match))
          | inr e ↦ free h (ground arith) (omega (arith, b))
        ],
      )
    ]
  ]
