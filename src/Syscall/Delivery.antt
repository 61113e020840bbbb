-- ===== src/Syscall/Delivery.antt =====
-- What an IPC send without a page delivers, and what `sys_exofork` makes.
use mathlib.Core.Path.{subst}
use jos_lab.Base.{
  ℕ, ◌^◌, ◌≤◌, ◌<◌, ◌≡◌, ◌≢◌, refl, ◌∙◌, ap, true, false, some, List, ◌∷◌, ok, arith, ltb, ◌==◌,
  eq_self, ne→eqb, update,
}
use jos_lab.Mmu.{utop, pdx}
use jos_lab.Kernel.{ret, err, e_ipc_not_recv}
use jos_lab.Pmap.Free.{FreeList}
use jos_lab.Env.{Trapframe, Env, env_runnable, Kernel, is_free, is_runnable, envid2env, envx}
use jos_lab.Env.Init.{FreeEnvs}
use jos_lab.Env.Alloc.{env_alloc}
use jos_lab.Env.Fresh.{env_alloc_lem}
use jos_lab.Syscall.{forked, fork_by, sys_exofork}
use jos_lab.Syscall.Ipc.{deliver, send_to, sys_ipc_try_send, send_from}

-- `envid2env` finds the environment with the id that it is given.
by_id :
    (k : Kernel) (t envid : ℕ)
    → (envid == 0) ≡ false
    → t ≡ envx envid
    → is_free (k.envs t).env_status ≡ false
    → (k.envs t).env_id ≡ envid
    → envid2env envid false k ≡ ok (ret 0, some t)
unfolding envid2env
by_id k t envid real at alive id =
    let found =
      subst (λ u. (is_free (k.envs u).env_status ≡ false) × ((k.envs u).env_id ≡ envid)) at
        (alive, id) in
    let same : ((k.envs (envx envid)).env_id == envid) ≡ true = ground (arith, found.1) in
    rw (real, found.0, same, at) refl

-- A trap frame with a result of 0, and no other change.
abbrev pub zero_result_frame : Trapframe → Trapframe
zero_result_frame tf = record tf { tf_regs = record (tf.tf_regs) { reg_eax = 0 } }

-- A message for `t` in kernel `k'`, sent by `c` in kernel `k`: what the receiver finds, and that it
-- is otherwise as it was, and so are the other environments and the rest of the kernel.
pub record Message (c t value : ℕ) (k k' : Kernel) : Type 0 where
  pub from : (k'.envs t).env_ipc_from ≡ (k.envs c).env_id
  pub content : (k'.envs t).env_ipc_value ≡ value
  pub awake : is_runnable (k'.envs t).env_status ≡ true
  pub returns_zero : (k'.envs t).env_tf.tf_regs.reg_eax ≡ 0
  pub old_perm : (k'.envs t).env_ipc_perm ≡ (k.envs t).env_ipc_perm
  pub receiver : k'.envs t ≡ record (k.envs t) {
    env_ipc_from = (k.envs c).env_id;
    env_ipc_value = value;
    env_ipc_recving = false;
    env_status = env_runnable;
    env_tf = zero_result_frame (k.envs t).env_tf;
  }
  pub others : (j : ℕ) → j ≢ t → k'.envs j ≡ k.envs j
  pub kernel : k' ≡ record k { envs = k'.envs }

module _ (k : Kernel) (c t envid : ℕ) (here : k.cur ≡ some c) (real : (envid == 0) ≡ false)
    (at : t ≡ envx envid) (alive : is_free (k.envs t).env_status ≡ false)
    (id : (k.envs t).env_id ≡ envid) where
  try_send :
      (value srcva perm : ℕ)
      → sys_ipc_try_send envid value srcva perm k ≡ send_to c t value srcva perm k
  unfolding sys_ipc_try_send send_from
  try_send value srcva perm =
      rw (by_id k t envid real at alive id) (ap (λ o. send_from o t value srcva perm k) here)

-- A send of a value without a page (`srcva` from UTOP on), by the current environment `c` to the
-- environment `t` with id `envid`, which waits for a message and has none: it succeeds, `t` has the
-- message and wakes up, nothing else changes, and a second send to `t` fails with -E_IPC_NOT_RECV
-- and leaves the kernel as it is.
pub send-value :
    (k : Kernel) (c t envid value srcva perm : ℕ)
    → k.cur ≡ some c
    → (envid == 0) ≡ false
    → t ≡ envx envid
    → is_free (k.envs t).env_status ≡ false
    → (k.envs t).env_id ≡ envid
    → utop ≤ srcva
    → (k.envs t).env_ipc_recving ≡ true
    → (k.envs t).env_ipc_from ≡ 0
    → (k' : Kernel) × (sys_ipc_try_send envid value srcva perm k ≡ ok (ret 0, k'))
      × Message c t value k k'
      × ((value2 srcva2 perm2 : ℕ)
          → sys_ipc_try_send envid value2 srcva2 perm2 k' ≡ ok (err e_ipc_not_recv, k'))
unfolding send_to
send-value k c t envid value srcva perm here real at alive id high waiting empty =
    let k' = deliver c t value k in
    let no_page : ltb srcva utop ≡ false = ground arith in
    let no_sender : ((k.envs t).env_ipc_from == 0) ≡ true = ground arith in
    (
      k',
      try_send k c t envid here real at alive id value srcva perm
          ∙ rw (waiting, no_sender, no_page) refl,
      record {
        from = rw (eq_self t) refl;
        content = rw (eq_self t) refl;
        awake = rw (eq_self t) refl;
        returns_zero = rw (eq_self t) refl;
        old_perm = rw (eq_self t) refl;
        receiver = rw (eq_self t) refl;
        kernel = refl;
        others = λ j ne. rw (ne→eqb j t ne) refl;
      },
      λ value2 srcva2 perm2.
          try_send k' c t envid here real at (rw (eq_self t) refl) (rw (eq_self t) id) value2 srcva2
            perm2
          ∙ rw (eq_self t) refl,
    )

-- The child of a fork by environment `c`: slot `e`, with `c` as its parent and `c`'s whole trap
-- frame, but for a result of 0, and not yet runnable; its address space is page `p`, empty below
-- UTOP. No other environment changes.
pub record Child (c e p : ℕ) (k k' : Kernel) : Type 0 where
  pub parent : (k'.envs e).env_parent_id ≡ (k.envs c).env_id
  pub blocked : is_runnable (k'.envs e).env_status ≡ false
  pub alive : is_free (k'.envs e).env_status ≡ false
  pub zero_result : (k'.envs e).env_tf.tf_regs.reg_eax ≡ 0
  pub frame : (k'.envs e).env_tf ≡ zero_result_frame (k.envs c).env_tf
  pub space : (k'.envs e).env_pgdir ≡ some p
  pub empty : (j : ℕ) → j < pdx utop → k'.mem.word p j ≡ 0
  pub slot : envx (k'.envs e).env_id ≡ e
  pub others : (j : ℕ) → j ≢ e → k'.envs j ≡ k.envs j

fork_from :
    (c e : ℕ) (k made : Kernel)
    → k.cur ≡ some c
    → env_alloc (k.envs c).env_id k ≡ ok (ret 0, some e, made)
    → sys_exofork k
      ≡ ok (
        ret (made.envs e).env_id,
        record made { envs = update made.envs e (forked (made.envs c) (made.envs e)) },
      )
unfolding sys_exofork fork_by
fork_from c e k made here runs = ap (λ o. fork_by o k) here ∙ rw runs refl

-- On a kernel with at most 2 ^ 20 pages and well-formed free lists, with a free environment `e`
-- whose last id has 32 bits and a free page that is not the kernel's directory: `sys_exofork` of
-- an environment `c` other than `e` makes a child in slot `e` (see `Child`) and returns its id,
-- which is positive.
pub sys_exofork_lem :
    (k : Kernel) (c e p : ℕ) (es ps : List ℕ)
    → k.cur ≡ some c
    → k.mem.npages ≤ 2 ^ 20
    → (k.envs e).env_id < 2 ^ 32
    → FreeEnvs k (e ∷ es)
    → FreeList k.mem (p ∷ ps)
    → p ≢ k.kern_pgdir
    → c ≢ e
    → (k' : Kernel) × (sys_exofork k ≡ ok (ret (k'.envs e).env_id, k'))
      × (0 < (k'.envs e).env_id)
      × Child c e p k k'
sys_exofork_lem k c e p es ps here small word f v away other =
    let (made, runs, born, _, _) =
      env_alloc_lem (k.envs c).env_id e p k es ps small word f v away in
    let mine = born.others c other in
    (
      record made { envs = update made.envs e (forked (made.envs c) (made.envs e)) },
      fork_from c e k made here runs ∙ rw (eq_self e) refl,
      rw (eq_self e) born.positive.0,
      record {
        parent = rw (eq_self e) born.child;
        blocked = rw (eq_self e) refl;
        alive = rw (eq_self e) refl;
        zero_result = rw (eq_self e) refl;
        frame = rw (eq_self e) (ap (λ (x : Env). zero_result_frame x.env_tf) mine);
        space = rw (eq_self e) born.space;
        empty = born.empty;
        slot = rw (eq_self e) born.slot;
        others = λ j ne. rw (ne→eqb j e ne) (born.others j ne);
      },
    )
