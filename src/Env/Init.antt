-- ===== src/Env/Init.antt =====
-- `env_init` and the list of free environments that it builds.
use jos_lab.Base.{
  eq_self, ne→eqb, ap, ℕ, zero, suc, ◌+◌, ◌-◌, ◌<◌, ◌≡◌, refl, ◌∙◌, true, false, Option, none, some,
  List, [], ◌∷◌, arith, ◌==◌, update, All, has, Distinct,
}
use jos_lab.Env.{Env, Kernel, env_free_status, nenv, is_free}

-- `mark i` is what the loop does to `envs[i]`, `link e to` the store to `env_link` of `e`.
mark : ℕ → (ℕ → Env) → ℕ → Env
mark i es = update es i (record (es i) { env_status = env_free_status; env_id = 0 })

link : ℕ → Option ℕ → (ℕ → Env) → ℕ → Env
link e to es = update es e (record (es e) { env_link = to })

-- The loop after its first `n` rounds: `env_free_list`, which it uses to walk, and `envs`.
init_rounds : ℕ → (ℕ → Env) → ℕ × (ℕ → Env)
unfolding mark link
init_rounds zero es = (0, es)
init_rounds (suc n) es =
    let (last, done) = init_rounds n es in (n, link last (some n) (mark n done))

-- The loop, `n` rounds of it, and the end of the list.
unfoldable threaded : ℕ → (ℕ → Env) → ℕ → Env
unfolding init_rounds link
threaded n es = let (last, done) = init_rounds n es in link last none done

unfoldable pub env_init : Kernel → Kernel
unfolding threaded
env_init k = record k { envs = threaded nenv k.envs; env_free_list = some 0 }

-- The links from `head` lead through the environments of the list.
abbrev pub EnvChain : (ℕ → Env) → Option ℕ → List ℕ → Type 0
EnvChain es head [] = head ≡ none
EnvChain es head (e ∷ rest) = (head ≡ some e) × EnvChain es (es e).env_link rest

pub record FreeEnvs (k : Kernel) (free : List ℕ) : Type 0 where
  pub chain : EnvChain k.envs k.env_free_list free
  pub in_table : All (λ e. e < 1024) free
  pub idle : All (λ e. is_free (k.envs e).env_status ≡ true) free
  pub distinct : Distinct free

-- The numbers `i`, `i + 1`, ..., `n` of them.
abbrev pub upto : ℕ → ℕ → List ℕ
upto zero i = []
upto (suc n) i = i ∷ upto n (suc i)

record Marked (n : ℕ) (last : ℕ) (es : ℕ → Env) : Type 0 where
  cursor : last ≡ n - 1
  free : (j : ℕ) → j < n → is_free (es j).env_status ≡ true
  fresh : (j : ℕ) → j < n → (es j).env_id ≡ 0
  linked : (j : ℕ) → j + 1 < n → (es j).env_link ≡ some (j + 1)

init_rounds-Marked : (n : ℕ) (es : ℕ → Env) → Marked n (init_rounds n es).0 (init_rounds n es).1
unfolding init_rounds mark link
init_rounds-Marked zero es = record {
  cursor = omega arith;
  free = λ j h. ground arith;
  fresh = λ j h. ground arith;
  linked = λ j h. ground arith;
}
init_rounds-Marked (suc n) es =
    let ih = init_rounds-Marked n es in
    record {
      cursor = omega arith;
      free = λ j h. grind (arith, ih.free j);
      fresh = λ j h. grind (arith, ih.fresh j);
      linked = λ j h. grind (arith, ih.linked j, ih.cursor);
    }

before-upto : (n i j : ℕ) → j < i → has j (upto n i) ≡ false
before-upto zero i j h = refl
before-upto (suc n) i j h = ground (arith, before-upto n (suc i) j)

Distinct-upto : (n i : ℕ) → Distinct (upto n i)
Distinct-upto zero i = _
Distinct-upto (suc n) i = (before-upto n (suc i) i (omega arith), Distinct-upto n (suc i))

All-upto : (P : ℕ → Type 0) (m n i : ℕ) → i + n ≡ m → ((j : ℕ) → j < m → P j) → All P (upto n i)
All-upto P m zero i e h = _
All-upto P m (suc n) i e h = (h i (omega arith), All-upto P m n (suc i) (omega arith) h)

chain_of_links :
    (es : ℕ → Env) (m n i : ℕ)
    → i + suc n ≡ m
    → ((j : ℕ) → j + 1 < m → (es j).env_link ≡ some (j + 1))
    → ((j : ℕ) → j + 1 ≡ m → (es j).env_link ≡ none)
    → EnvChain es (some i) (upto (suc n) i)
chain_of_links es m zero i e next last = (refl, last i (omega arith))
chain_of_links es m (suc n) i e next last =
    let one : i + 1 ≡ suc i = omega arith in
    let to : (es i).env_link ≡ some (suc i) = next i (omega arith) ∙ ap some one in
    (refl, rw to (chain_of_links es m n (suc i) (omega arith) next last))

module _ (m : ℕ) (es : ℕ → Env) where
  links : (j : ℕ) → j + 1 < m → (threaded m es j).env_link ≡ some (j + 1)
  unfolding threaded link
  links j h =
      let done = init_rounds-Marked m es in
      let away : (j == (init_rounds m es).0) ≡ false =
        ne→eqb j (init_rounds m es).0 (λ e. omega (arith, done.cursor)) in
      rw away (done.linked j h)

  last_link : (j : ℕ) → j + 1 ≡ m → (threaded m es j).env_link ≡ none
  unfolding threaded link
  last_link j h =
      let done = init_rounds-Marked m es in
      let here : j ≡ (init_rounds m es).0 = omega (arith, done.cursor) in
      rw (here, eq_self (init_rounds m es).0) refl

  idle : (j : ℕ) → j < m → is_free (threaded m es j).env_status ≡ true
  unfolding threaded link
  idle j h = let done = init_rounds-Marked m es in ground (arith, done.free j)

  fresh : (j : ℕ) → j < m → (threaded m es j).env_id ≡ 0
  unfolding threaded link
  fresh j h = let done = init_rounds-Marked m es in ground (arith, done.fresh j)

-- After `env_init` all 1024 environments are free with id 0, and the free list runs through them
-- in the order of the table, from `envs[0]` on.
pub env_init_lem :
    (k : Kernel)
    → FreeEnvs (env_init k) (upto 1024 0) × ((j : ℕ) → j < 1024 → ((env_init k).envs j).env_id ≡ 0)
unfolding env_init
env_init_lem k = (
  record {
    chain =
        chain_of_links (threaded 1024 k.envs) 1024 1023 0 refl (links 1024 k.envs)
          (last_link 1024 k.envs);
    in_table = All-upto (λ j. j < 1024) 1024 1024 0 refl (λ j h. h);
    idle =
        All-upto (λ j. is_free (threaded 1024 k.envs j).env_status ≡ true) 1024 1024 0 refl
          (idle 1024 k.envs);
    distinct = Distinct-upto 1024 0;
  },
  fresh 1024 k.envs,
)
