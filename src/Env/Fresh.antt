-- ===== src/Env/Fresh.antt =====
-- What `env_alloc` achieves: a fresh id, a fresh address space, and the free lists after it.
use jos_lab.Base.{
  ℕ, ◌+◌, ◌*◌, ◌/◌, ◌%◌, ◌^◌, ◌≤◌, ◌<◌, ◌≡◌, ◌≢◌, bit_or, bit_or-add, refl, ◌∙◌, ap, true, false,
  ◌||◌, Option, none, some, List, [], ◌∷◌, arith, ◌==◌, leb, if◌then◌else◌, update, All, has, ok,
  eq_self,
}
use jos_lab.Mmu.{pdx, utop, uvpt, pte_p, pte_u}
use jos_lab.Kernel.{ret, err, e_no_mem, e_no_free_env}
use jos_lab.Pmap.{Mem, page2pa, set_ref}
use jos_lab.Pmap.Free.{
  FreeList, taken, page_alloc-cons, page_alloc-pop, taken-FreeList, set_ref-FreeList,
  words-FreeList,
}
use jos_lab.Pmap.Walk.{page2kva-ok}
use jos_lab.Env.{Env, Kernel, envx, set_env, set_mem, is_free, is_runnable}
use jos_lab.Env.Init.{EnvChain, FreeEnvs}
use jos_lab.Env.Alloc.{new_directory, env_setup_vm, next_id, fresh_env, env_alloc, alloc_slot}

-- The generation of an id, by its arithmetic.
next_id_sum :
    (old e : ℕ)
    → e < 1024
    → next_id old e ≡ (
        if ((old + 4096) % 2 ^ 32 / 1024 * 1024 == 0)
          || leb (2 ^ 31) ((old + 4096) % 2 ^ 32 / 1024 * 1024)
        then 4096 + e
        else (old + 4096) % 2 ^ 32 / 1024 * 1024 + e)
unfolding next_id
next_id_sum old e h =
    rw (bit_or-add 12 1 e (omega arith), bit_or-add 10 ((old + 4096) % 2 ^ 32 / 1024) e h) refl

-- The id that `env_alloc` gives the environment in slot `e` is positive as an `int32_t`, leads
-- back to the slot, and is not the one that the slot had before, so an old id is stale.
pub next_id_lem :
    (old e : ℕ)
    → e < 1024
    → old < 2 ^ 32
    → (0 < next_id old e)
      × (next_id old e < 2 ^ 31)
      × (envx (next_id old e) ≡ e)
      × (next_id old e ≢ old)
next_id_lem old e h w = rw (next_id_sum old e h) (ground arith)

-- A change to an environment off the list.
pub EnvChain-update :
    (es : ℕ → Env) (head : Option ℕ) (free : List ℕ) (e : ℕ) (new : Env)
    → has e free ≡ false
    → EnvChain es head free
    → EnvChain (update es e new) head free
EnvChain-update es head [] e new out c = c
EnvChain-update es head (f ∷ rest) e new out (i, c) =
    (i, ground (arith, EnvChain-update es (es f).env_link rest e new))

pub idle-update :
    (es : ℕ → Env) (free : List ℕ) (e : ℕ) (new : Env)
    → has e free ≡ false
    → All (λ f. is_free (es f).env_status ≡ true) free
    → All (λ f. is_free (update es e new f).env_status ≡ true) free
idle-update es [] e new out c = c
idle-update es (f ∷ rest) e new out (i, c) =
    (ground arith, idle-update es rest e new (ground arith) c)

-- The memory once page `p` is the new directory.
abbrev pub housed : ℕ → Kernel → Mem
housed p k =
    let m = taken 1 p k.mem in
    new_directory p k.kern_pgdir (set_ref p (((m.pages p).pp_ref + 1) % 65536) m)

pub env_setup_vm-cons :
    (e p : ℕ) (k : Kernel) (ps : List ℕ)
    → k.mem.npages ≤ 2 ^ 20
    → FreeList k.mem (p ∷ ps)
    → env_setup_vm e k
      ≡ ok (ret 0, set_env e (record (k.envs e) { env_pgdir = some p }) (set_mem (housed p k) k))
unfolding env_setup_vm
env_setup_vm-cons e p k ps small v =
    rw
      (
        page_alloc-cons 1 k.mem p ps small v,
        page2kva-ok (set_ref p ((((taken 1 p k.mem).pages p).pp_ref + 1) % 65536) (taken 1 p k.mem))
            p small v.in_range.0,
      )
      refl

-- The kernel once slot `e` holds the new environment.
abbrev pub born : ℕ → ℕ → ℕ → Kernel → Kernel
born parent e p k = record k {
  mem = housed p k;
  envs =
      update (update k.envs e (record (k.envs e) { env_pgdir = some p })) e
        (fresh_env e parent (record (k.envs e) { env_pgdir = some p }));
  env_free_list = (k.envs e).env_link;
}

pub env_alloc-cons :
    (parent e p : ℕ) (k : Kernel) (es ps : List ℕ)
    → k.mem.npages ≤ 2 ^ 20
    → FreeEnvs k (e ∷ es)
    → FreeList k.mem (p ∷ ps)
    → env_alloc parent k ≡ ok (ret 0, some e, born parent e p k)
unfolding env_alloc alloc_slot
env_alloc-cons parent e p k es ps small f v =
    ap (λ o. alloc_slot o parent k) f.chain.0
    ∙ rw (env_setup_vm-cons e p k ps small v, eq_self e) refl

-- What a new environment is: it waits to run as a child of `parent`, its id is positive, leads to
-- its slot and differs from the slot's last one, and its address space is page `p` with one
-- reference more, empty below UTOP and as the kernel's above, but for UVPT, where it maps itself.
pub record Born (parent e p : ℕ) (k k' : Kernel) : Type 0 where
  pub ready : is_runnable (k'.envs e).env_status ≡ true
  pub child : (k'.envs e).env_parent_id ≡ parent
  pub positive : (0 < (k'.envs e).env_id) × ((k'.envs e).env_id < 2 ^ 31)
  pub slot : envx (k'.envs e).env_id ≡ e
  pub new : (k'.envs e).env_id ≢ (k.envs e).env_id
  pub space : (k'.envs e).env_pgdir ≡ some p
  pub owned : (k'.mem.pages p).pp_ref ≡ 1
  pub empty : (j : ℕ) → j < pdx utop → k'.mem.word p j ≡ 0
  pub kernel_part :
      (j : ℕ) → pdx utop ≤ j → j < 1024 → j ≢ pdx uvpt → k'.mem.word p j ≡ k.mem.word k.kern_pgdir j
  pub self_map : k'.mem.word p (pdx uvpt) ≡ bit_or (bit_or (page2pa p) pte_p) pte_u
  pub size : k'.mem.npages ≡ k.mem.npages
  pub others : (j : ℕ) → j ≢ e → k'.envs j ≡ k.envs j

-- On a kernel with at most 2 ^ 20 pages and well-formed free lists, with a free environment whose
-- last id has 32 bits and a free page that is not the kernel's directory, `env_alloc` makes a new
-- environment of the first of each (see `Born`), and both free lists go on behind them.
pub env_alloc_lem :
    (parent e p : ℕ) (k : Kernel) (es ps : List ℕ)
    → k.mem.npages ≤ 2 ^ 20
    → (k.envs e).env_id < 2 ^ 32
    → FreeEnvs k (e ∷ es)
    → FreeList k.mem (p ∷ ps)
    → p ≢ k.kern_pgdir
    → (k' : Kernel) × (env_alloc parent k ≡ ok (ret 0, some e, k'))
      × Born parent e p k k'
      × FreeEnvs k' es
      × FreeList k'.mem ps
env_alloc_lem parent e p k es ps small word f v away =
    let new = next_id_lem (k.envs e).env_id e f.in_table.0 word in
    (
      born parent e p k,
      env_alloc-cons parent e p k es ps small f v,
      record {
        ready = rw (eq_self e) refl;
        child = rw (eq_self e) refl;
        positive = rw (eq_self e) (new.0, new.1);
        slot = rw (eq_self e) new.2;
        new = rw (eq_self e) new.3;
        space = rw (eq_self e) refl;
        owned = rw (eq_self p) (ap (λ n. (n + 1) % 65536) v.unreferenced.0);
        empty = λ j h. ground arith;
        kernel_part = λ j l h ne. ground arith;
        self_map = rw (eq_self p) refl;
        size = refl;
        others = λ j ne. ground arith;
      },
      record {
        chain =
            EnvChain-update _ _ es e _ f.distinct.0
              (EnvChain-update k.envs _ es e _ f.distinct.0 f.chain.1);
        in_table = f.in_table.1;
        idle = idle-update _ es e _ f.distinct.0 (idle-update k.envs es e _ f.distinct.0 f.idle.1);
        distinct = f.distinct.1;
      },
      words-FreeList _
          (set_ref p ((((taken 1 p k.mem).pages p).pp_ref + 1) % 65536) (taken 1 p k.mem)) ps
          (set_ref-FreeList p _ (taken 1 p k.mem) ps v.distinct.0 (taken-FreeList 1 k.mem p ps v)),
    )

-- On a kernel with at most 2 ^ 20 pages, none of them free, and a well-formed list of free
-- environments, `env_alloc` fails, with -E_NO_FREE_ENV when no environment is free and with
-- -E_NO_MEM when one is; it stores no environment and changes nothing.
pub env_alloc-errors :
    (parent : ℕ) (k : Kernel) (es : List ℕ)
    → k.mem.npages ≤ 2 ^ 20
    → FreeEnvs k es
    → FreeList k.mem []
    → env_alloc parent k ≡ ok (err (elim es [ [] ↦ e_no_free_env | e ∷ _ ↦ e_no_mem ]), none, k)
unfolding env_alloc alloc_slot env_setup_vm
env_alloc-errors parent k [] small f v = ap (λ o. alloc_slot o parent k) f.chain
env_alloc-errors parent k (e ∷ es) small f v =
    ap (λ o. alloc_slot o parent k) f.chain.0 ∙ rw (page_alloc-pop 1 k.mem [] small v) refl
