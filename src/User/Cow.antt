-- ===== src/User/Cow.antt =====
-- Copy on write: what `fork` leaves in the two address spaces, and what the handler of lib/fork.c
-- does at a write.
use jos_lab.Base.{
  ℕ, ◌+◌, ◌*◌, ◌/◌, ◌≡◌, ◌≢◌, ◌⊎◌, inl, inr, refl, Bool, true, ◌||◌, if◌then◌else◌, Run, ok, stop,
  panic,
}
use jos_lab.Kernel.{Error, Reply, ret, err}
use jos_lab.Mmu.{pgsize, is_present, is_writeable}
use jos_lab.User.{Calls, is_cow, upcow, up}

-- What `sys_page_map` of a page of the caller's promises when it succeeds for the caller (0) and its
-- new child: `view s e` is the page table of environment `e` by page number. The page is mapped in
-- the same frame with the permission; no other entry changes. It may fail; nothing is asked of it
-- then.
pub record MapsPages (S : Type 0) (calls : Calls S) (view : S → ℕ → ℕ → ℕ) (child : ℕ)
    : Type 0 where
  pub own : (s : S) (pn : ℕ) → calls.vpt s pn ≡ view s 0 pn
  pub maps :
      (s s' : S) (e pn perm n : ℕ)
      → (e ≡ 0) ⊎ (e ≡ child)
      → is_present (view s 0 pn) ≡ true
      → calls.page_map 0 (pn * pgsize) e (pn * pgsize) perm s ≡ (ret n, s')
      → (view s' e pn ≡ view s 0 pn / 4096 * 4096 + perm)
        × ((e' p : ℕ) → (e' ≢ e) ⊎ (p ≢ pn) → view s' e' p ≡ view s e' p)
        × ((i : ℕ) → calls.vpd s' i ≡ calls.vpd s i)

-- A call of `sys_page_map` for page `pn` that failed.
abbrev pub RefusedAt : (S : Type 0) → Calls S → ℕ → Type 0
RefusedAt S calls pn =
    (s : S) × (s' : S) × (e : ℕ) × (perm : ℕ) × (x : Error) × (calls.page_map 0 (pn * pgsize) e
        (pn * pgsize) perm s
      ≡ (err x, s'))

-- A call has succeeded or failed.
pub answers :
    (S : Type 0) (r : Reply × S)
    → ((n : ℕ) × (s : S) × (r ≡ (ret n, s))) ⊎ ((x : Error) × (s : S) × (r ≡ (err x, s)))
answers S (ret n, s) = inl (n, s, refl)
answers S (err x, s) = inr (x, s, refl)

module _ (S : Type 0) (calls : Calls S) (view : S → ℕ → ℕ → ℕ) (child : ℕ)
    (law : MapsPages S calls view child) (other : child ≢ 0) where
  -- A page that may be written or is copy-on-write already.
  abbrev pub private : S → ℕ → Bool
  private s p = is_writeable (view s 0 p) || is_cow (view s 0 p)

  -- How `fork` leaves a page that it copies, and one that it does not.
  abbrev pub Shares : S → S → ℕ → Type 0
  Shares s s' p =
      (view s' child p ≡ view s 0 p / 4096 * 4096 + (if private s p then upcow else up))
      × (view s' 0 p ≡ (if private s p then view s 0 p / 4096 * 4096 + upcow else view s 0 p))

  abbrev pub Keeps : S → S → ℕ → Type 0
  Keeps s s' p = (view s' child p ≡ view s child p) × (view s' 0 p ≡ view s 0 p)

  -- The outcome `q` of a copy of page `pn`: a panic, as a call failed, or the page as `fork` leaves
  -- it, and no other entry changed.
  abbrev Copied : S → ℕ → Run S → Type 0
  Copied s pn q =
      ((q ≡ stop panic) × RefusedAt S calls pn)
      ⊎ ((s' : S) × (q ≡ ok s')
          × Shares s s' pn
          × ((p : ℕ) → p ≢ pn → Keeps s s' p)
          × ((i : ℕ) → calls.vpd s' i ≡ calls.vpd s i))
