-- ===== src/Env/Free.antt =====
-- `env_free` and `env_destroy`.
use jos_lab.Kernel.{ret}
use jos_lab.Base.{
  ◌≢◌, ℕ, zero, suc, ◌+◌, ◌^◌, ◌≤◌, ◌<◌, ◌≡◌, refl, ◌∙◌, ap, false, not, ◌&&◌, Option, none, some,
  List, ◌∷◌, arith, if◌then◌else◌, update, has, Run, ok, stop, fault, ◌>>=◌, eq_self,
}
use jos_lab.Mmu.{pdx, utop, pgaddr, nptentries, pte_addr, is_present}
use jos_lab.Pmap.{Mem, store, page2pa, pa2page, kaddr, page_remove, page_decref}
use jos_lab.Pmap.Free.{FreeList, page_decref-FreeList}
use jos_lab.Env.{env_free_status, env_dying, Kernel, set_env, is_running, cur_pgdir, is_cur}
use jos_lab.Env.Init.{FreeEnvs}
use jos_lab.Env.Fresh.{EnvChain-update, idle-update, env_alloc_lem}
use jos_lab.Env.Alloc.{env_alloc}
use jos_lab.Sched.{sched_yield}

-- The inner loop, over the entries of page table `pt`, with the rounds that are left.
unmap_table : ℕ → ℕ → Option ℕ → ℕ → ℕ → ℕ → Mem → Run Mem
unfolding page_remove pgaddr
unmap_table zero pteno cur d pdeno pt m = ok m
unmap_table (suc n) pteno cur d pdeno pt m = do
  unmapped ←
      (if is_present (m.word pt pteno) then page_remove cur d (pgaddr pdeno pteno 0) m else ok m)
  unmap_table n (suc pteno) cur d pdeno pt unmapped

-- One round of the outer loop.
unfoldable free_table : ℕ → Option ℕ → ℕ → Mem → Run Mem
unfolding kaddr pa2page unmap_table page_decref
free_table pdeno cur d m = if not (is_present (m.word d pdeno)) then ok m else do
  pt ← kaddr m (pte_addr (m.word d pdeno))
  unmapped ← unmap_table nptentries 0 cur d pdeno pt m
  p ← pa2page (store (d, pdeno) 0 unmapped) (pte_addr (m.word d pdeno))
  ok (page_decref p (store (d, pdeno) 0 unmapped))

-- The outer loop, with the rounds that are left.
unfoldable free_tables : ℕ → ℕ → Option ℕ → ℕ → Mem → Run Mem
unfolding free_table
free_tables zero pdeno cur d m = ok m
free_tables (suc n) pdeno cur d m = do
  rest ← free_table pdeno cur d m
  free_tables n (suc pdeno) cur d rest

-- `env_free` with the page directory that it read from `e`.
unfoldable free_space : Option ℕ → ℕ → Kernel → Run Kernel
unfolding free_tables pa2page page_decref
free_space none e k = stop fault
free_space (some d) e k = do
  m ← free_tables (pdx utop) 0 (cur_pgdir k) d k.mem
  p ← pa2page m (page2pa d)
  ok (record k {
    mem = page_decref p m;
    envs = update k.envs e (record (k.envs e) {
      env_pgdir = none;
      env_status = env_free_status;
      env_link = k.env_free_list;
    });
    env_free_list = some e;
  })

unfoldable pub env_free : ℕ → Kernel → Run Kernel
unfolding free_space
env_free e k =
    free_space (k.envs e).env_pgdir e
      (record k { cr3 = if is_cur e k then some k.kern_pgdir else k.cr3 })

-- What `env_destroy` comes to: a return to the caller, or the end of `sched_yield`.
pub data Destroyed : Type 0 where
  returned : Kernel → Destroyed
  yielded : Option Kernel → Destroyed

unfoldable pub env_destroy : ℕ → Kernel → Run Destroyed
unfolding env_free sched_yield
env_destroy e k =
    if is_running (k.envs e).env_status && not (is_cur e k)
    then ok (returned (set_env e (record (k.envs e) { env_status = env_dying }) k))
    else do
      freed ← env_free e k
      (if is_cur e k
          then (do next ← sched_yield (record freed { cur = none }); ok (yielded next))
          else ok (returned freed))

free_tables_empty :
    (n pdeno : ℕ) (cur : Option ℕ) (d : ℕ) (m : Mem)
    → ((j : ℕ) → j < pdeno + n → is_present (m.word d j) ≡ false)
    → free_tables n pdeno cur d m ≡ ok m
unfolding free_tables free_table
free_tables_empty zero pdeno cur d m h = refl
free_tables_empty (suc n) pdeno cur d m h =
    rw (h pdeno (omega arith)) (free_tables_empty n (suc pdeno) cur d m (λ j lt. h j (omega arith)))

pa2page-page2pa :
    (m : Mem) (p : ℕ) → m.npages ≤ 2 ^ 20 → p < m.npages → pa2page m (page2pa p) ≡ ok p
unfolding pa2page
pa2page-page2pa m p small h = ground arith

-- The kernel once `e`, whose directory was page `p`, is free.
abbrev gone : ℕ → ℕ → Kernel → Kernel
gone e p k = record k {
  mem = page_decref p k.mem;
  envs = update k.envs e (record (k.envs e) {
    env_pgdir = none;
    env_status = env_free_status;
    env_link = k.env_free_list;
  });
  env_free_list = some e;
  cr3 = if is_cur e k then some k.kern_pgdir else k.cr3;
}

-- `env_free` of an environment with nothing mapped below UTOP.
env_free-bare :
    (e p : ℕ) (k : Kernel)
    → k.mem.npages ≤ 2 ^ 20
    → p < k.mem.npages
    → (k.envs e).env_pgdir ≡ some p
    → ((j : ℕ) → j < pdx utop → is_present (k.mem.word p j) ≡ false)
    → env_free e k ≡ ok (gone e p k)
unfolding env_free free_space
env_free-bare e p k small inside at bare =
    ap (λ o. free_space o e (record k { cr3 = if is_cur e k then some k.kern_pgdir else k.cr3 })) at
    ∙ rw
        (
          free_tables_empty (pdx utop) 0 (cur_pgdir k) p k.mem bare,
          pa2page-page2pa k.mem p small inside,
        )
        refl

gone-FreeEnvs :
    (e p : ℕ) (k : Kernel) (es : List ℕ)
    → e < 1024
    → has e es ≡ false
    → FreeEnvs k es
    → FreeEnvs (gone e p k) (e ∷ es)
gone-FreeEnvs e p k es lt out f = record {
  chain = (refl, rw (eq_self e) (EnvChain-update k.envs k.env_free_list es e _ out f.chain));
  in_table = (lt, f.in_table);
  idle = (rw (eq_self e) refl, idle-update k.envs es e _ out f.idle);
  distinct = (out, f.distinct);
}

-- On a kernel with at most 2 ^ 20 pages and well-formed free lists, with a free environment whose
-- last id has 32 bits and a free page that is not the kernel's directory: an environment that is
-- freed right after it was allocated, before anything is mapped in it, gives its slot and the
-- page of its directory back, and both free lists are as they were before.
pub env_free-env_alloc :
    (parent e p : ℕ) (k : Kernel) (es ps : List ℕ)
    → k.mem.npages ≤ 2 ^ 20
    → (k.envs e).env_id < 2 ^ 32
    → FreeEnvs k (e ∷ es)
    → FreeList k.mem (p ∷ ps)
    → p ≢ k.kern_pgdir
    → (k' : Kernel) × (env_alloc parent k ≡ ok (ret 0, some e, k'))
      × ((k2 : Kernel) × (env_free e k' ≡ ok k2) × FreeEnvs k2 (e ∷ es) × FreeList k2.mem (p ∷ ps))
env_free-env_alloc parent e p k es ps small word f v away =
    let (k', runs, made, f', v') = env_alloc_lem parent e p k es ps small word f v away in
    (
      k',
      runs,
      (
        gone e p k',
        env_free-bare e p k' (rw made.size small) (rw made.size v.in_range.0) made.space
            (λ j lt. rw (made.empty j lt) refl),
        gone-FreeEnvs e p k' es f.in_table.0 f.distinct.0 f',
        (page_decref-FreeList p 0 k'.mem ps (rw made.size v.in_range.0) (omega arith) made.owned
            v').1,
      ),
    )
