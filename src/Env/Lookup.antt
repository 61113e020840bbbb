-- ===== src/Env/Lookup.antt =====
-- `envid2env`: which ids name an environment, and who may handle it.
use jos_lab.Base.{
  ℕ, ◌≡◌, ◌≢◌, ◌⊎◌, refl, inl, inr, Bool, true, false, not, ◌&&◌, ◌||◌, none, some, arith, ◌==◌,
  Bool-cases, ok,
}
use jos_lab.Kernel.{ret, err, e_bad_env}
use jos_lab.Env.{Kernel, envx, is_free, envid2env}

-- An environment that `envid` names, to be handled by environment `c`: `c` itself for 0, and
-- otherwise the one in the slot of `envid`, if it is alive, bears exactly that id, and, where
-- permission is asked for, is `c` or a child of `c`.
abbrev pub Names : Kernel → ℕ → ℕ → Bool → ℕ → Type 0
Names k c envid checkperm e =
    ((envid ≡ 0) × (e ≡ c))
    ⊎ ((envid ≢ 0)
        × (e ≡ envx envid)
        × (is_free (k.envs e).env_status ≡ false)
        × ((k.envs e).env_id ≡ envid)
        × (checkperm ≡ true → (e ≡ c) ⊎ ((k.envs e).env_parent_id ≡ (k.envs c).env_id)))

-- With a current environment `c`, `envid2env` succeeds with the environment that the id names,
-- and fails with -E_BAD_ENV and a cleared pointer exactly when the id names none.
pub envid2env_lem :
    (k : Kernel) (c envid : ℕ) (checkperm : Bool)
    → k.cur ≡ some c
    → ((e : ℕ) × (envid2env envid checkperm k ≡ ok (ret 0, some e)) × Names k c envid checkperm e)
      ⊎ ((envid2env envid checkperm k ≡ ok (err e_bad_env, none))
          × ((e : ℕ) → Names k c envid checkperm e → ⊥))
unfolding envid2env
envid2env_lem k c envid checkperm here = elim (Bool-cases (envid == 0)) [
  | inl self ↦ inl (c, rw (self, here) refl, inl (ground arith, refl))
  | inr other ↦
      elim (Bool-cases
        (is_free (k.envs (envx envid)).env_status || not ((k.envs (envx envid)).env_id == envid))) [
          | inl bad ↦ inr (rw (other, bad) refl, λ e n. ground arith)
          | inr fine ↦ elim (Bool-cases (checkperm && not (envx envid == c))) [
            | inr free_hand ↦ inl (
              envx envid,
              rw (other, fine, here, free_hand) refl,
              inr (ground arith, refl, ground arith, ground arith, λ p. ground arith),
            )
            | inl ask ↦
                elim (Bool-cases ((k.envs (envx envid)).env_parent_id == (k.envs c).env_id)) [
                  | inl child ↦ inl (
                    envx envid,
                    rw (other, fine, here, ask, child) refl,
                    inr (ground arith, refl, ground arith, ground arith, λ p. inr (ground arith)),
                  )
                  | inr stranger ↦
                      inr (rw (other, fine, here, ask, stranger) refl, λ e n. ground arith)
                ]
          ]
        ]
]
