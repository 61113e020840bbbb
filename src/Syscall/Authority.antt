-- ===== src/Syscall/Authority.antt =====
-- Who may do what: the calls that ask `envid2env` for permission, by an environment without
-- authority. `sys_ipc_try_send` asks for none.
use jos_lab.Base.{
  ℕ, ◌≡◌, refl, true, ◌||◌, Option, none, some, if◌then◌else◌, Bool-cases, ok, inl, inr, arith,
}
use jos_lab.Kernel.{err, e_bad_env, e_inval}
use jos_lab.Env.{Status, Kernel, envid2env}
use jos_lab.Env.Lookup.{Names, envid2env_lem}
use jos_lab.Syscall.{
  back, settable, set_status, bad_va, bad_perm, sys_env_destroy, sys_env_set_status,
  sys_env_set_pgfault_upcall, sys_page_unmap, sys_page_map,
}

-- `envid` names no environment that environment `c` may handle.
abbrev pub Barred : Kernel → ℕ → ℕ → Type 0
Barred k c envid = (e : ℕ) → Names k c envid true e → ⊥

envid2env_refused :
    (k : Kernel) (c envid : ℕ)
    → k.cur ≡ some c
    → Barred k c envid
    → envid2env envid true k ≡ ok (err e_bad_env, none)
envid2env_refused k c envid here barred = elim (envid2env_lem k c envid true here) [
  | inl (e, _, n) ↦ absurd (barred e n)
  | inr (fails, _) ↦ fails
]
  where
    absurd : ⊥ → envid2env envid true k ≡ ok (err e_bad_env, none)
    absurd b = ground arith

-- `sys_page_map` into an environment without authority fails whatever its source.
page_map_refused :
    (k : Kernel) (c envid srcenvid srcva dstva perm : ℕ)
    → k.cur ≡ some c
    → Barred k c envid
    → sys_page_map srcenvid srcva envid dstva perm k
      ≡ ok (err (if (bad_va srcva || bad_va dstva) || bad_perm perm then e_inval else e_bad_env), k)
unfolding sys_page_map
page_map_refused k c envid srcenvid srcva dstva perm here barred =
    let target = envid2env_refused k c envid here barred in
    elim (Bool-cases ((bad_va srcva || bad_va dstva) || bad_perm perm)) [
      | inl bad ↦ rw bad refl
      | inr good ↦ elim (envid2env_lem k c srcenvid true here) [
        | inl (s, found, _) ↦ rw (good, found, target) refl
        | inr (fails, _) ↦ rw (good, fails) refl
      ]
    ]

barred_status :
    (o : Option Status) (k : Kernel) (envid : ℕ)
    → envid2env envid true k ≡ ok (err e_bad_env, none)
    → set_status o envid k ≡ ok (err (elim o [ none ↦ e_inval | some s ↦ e_bad_env ]), k)
unfolding set_status
barred_status none k envid e = refl
barred_status (some s) k envid e = rw e refl

-- Environment `c`, which is current, gets nowhere with an id of an environment that is neither
-- itself nor its child, or of none, in the calls that ask for authority: `sys_env_destroy`,
-- `sys_env_set_status`, `sys_env_set_pgfault_upcall`, `sys_page_unmap`, and `sys_page_map` with the
-- id as its source or as its target. Each fails with -E_BAD_ENV, or with -E_INVAL where it looks at
-- another argument first, and leaves the kernel as it is.
pub no_authority :
    (k : Kernel) (c envid : ℕ)
    → k.cur ≡ some c
    → Barred k c envid
    → (sys_env_destroy envid k ≡ ok (back (err e_bad_env) k))
      × ((status : ℕ)
          → sys_env_set_status envid status k
            ≡ ok (err (elim (settable status) [ none ↦ e_inval | some s ↦ e_bad_env ]), k))
      × ((func : ℕ) → sys_env_set_pgfault_upcall envid func k ≡ ok (err e_bad_env, k))
      × ((va : ℕ)
          → sys_page_unmap envid va k ≡ ok (err (if bad_va va then e_inval else e_bad_env), k))
      × ((srcva other dstva perm : ℕ)
          → sys_page_map envid srcva other dstva perm k
            ≡ ok (
              err (if (bad_va srcva || bad_va dstva) || bad_perm perm then e_inval else e_bad_env),
              k,
            ))
      × ((other srcva dstva perm : ℕ)
          → sys_page_map other srcva envid dstva perm k
            ≡ ok (
              err (if (bad_va srcva || bad_va dstva) || bad_perm perm then e_inval else e_bad_env),
              k,
            ))
unfolding sys_env_destroy sys_env_set_status sys_env_set_pgfault_upcall sys_page_unmap sys_page_map
no_authority k c envid here barred =
    let e = envid2env_refused k c envid here barred in
    (
      rw e refl,
      λ status. barred_status (settable status) k envid e,
      λ func. rw e refl,
      λ va. elim (Bool-cases (bad_va va)) [ inl bad ↦ rw bad refl | inr good ↦ rw (good, e) refl ],
      λ srcva other dstva perm.
          elim (Bool-cases ((bad_va srcva || bad_va dstva) || bad_perm perm)) [
            | inl bad ↦ rw bad refl
            | inr good ↦ rw (good, e) refl
          ],
      λ other srcva dstva perm. page_map_refused k c envid other srcva dstva perm here barred,
    )
