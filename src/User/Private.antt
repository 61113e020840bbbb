-- ===== src/User/Private.antt =====
-- The copy-on-write handler of lib/fork.c gives the program a page of its own.
use jos_lab.Base.{
  ℕ, ◌+◌, ◌*◌, ◌/◌, ◌^◌, ◌<◌, ◌≡◌, ◌≢◌, ◌⊎◌, inl, inr, refl, ◌∙◌, ap, true, ok, stop, panic, ◌>>=◌,
  arith,
}
use jos_lab.Kernel.{Error, ret, err}
use jos_lab.Mmu.{pgsize, pftemp, is_present, is_writeable}
use jos_lab.User.{Calls, must, is_cow, is_write, upw, pgfault}
use jos_lab.User.Cow.{answers}

-- What the calls of the handler promise when they succeed: `view s p` is the caller's page table
-- entry of page `p`, `content s f o` byte `o` of frame `f`. `sys_page_alloc` maps a frame that was
-- not mapped; `memmove` of a page copies it; `sys_page_map` maps the page of one address at
-- another. The two system calls may fail; nothing is asked of them then.
pub record Serves (S : Type 0) (calls : Calls S) (view : S → ℕ → ℕ) (content : S → ℕ → ℕ → ℕ)
    : Type 0 where
  pub own : (s : S) (p : ℕ) → calls.vpt s p ≡ view s p
  pub allocates :
      (s s' : S) (n : ℕ)
      → calls.page_alloc 0 pftemp upw s ≡ (ret n, s')
      → (f : ℕ) × (view s' (pftemp / 4096) ≡ f * 4096 + 7)
        × ((p : ℕ) → p ≢ pftemp / 4096 → view s' p ≡ view s p)
        × ((p : ℕ) → view s p / 4096 ≢ f)
        × ((g o : ℕ) → g ≢ f → content s' g o ≡ content s g o)
  pub moves :
      (s : S) (p f g : ℕ)
      → view s (pftemp / 4096) / 4096 ≡ f
      → view s p / 4096 ≡ g
      → g ≢ f
      → let s' = calls.move pftemp (p * 4096) pgsize s in
        ((o : ℕ) → o < 4096 → content s' f o ≡ content s g o)
        × ((h o : ℕ) → h ≢ f → content s' h o ≡ content s h o)
        × ((q : ℕ) → view s' q ≡ view s q)
  pub maps :
      (s s' : S) (p n : ℕ)
      → calls.page_map 0 pftemp 0 (p * 4096) upw s ≡ (ret n, s')
      → (view s' p ≡ view s (pftemp / 4096) / 4096 * 4096 + upw)
        × ((q : ℕ) → q ≢ p → view s' q ≡ view s q)
        × ((h o : ℕ) → content s' h o ≡ content s h o)

module _ (S : Type 0) (calls : Calls S) (view : S → ℕ → ℕ) (content : S → ℕ → ℕ → ℕ)
    (law : Serves S calls view content) where
  -- The handler for a write to a copy-on-write page, as a sequence of its calls.
  handler_calls :
      (va error v : ℕ) (s : S)
      → is_write error ≡ true
      → is_present (calls.vpd s (va / 2 ^ 22)) ≡ true
      → calls.vpt s (va / 4096) ≡ v
      → is_cow v ≡ true
      → pgfault calls va error s ≡ (
          must (calls.page_alloc 0 pftemp upw s) >>= λ fresh. must (
            calls.page_map 0 pftemp 0
              (va / 4096 * 4096)
              upw
              (calls.move pftemp (va / 4096 * 4096) pgsize fresh)))
  unfolding pgfault
  handler_calls va error v s w p e c = rw (w, p, e, c) refl

  -- The page of `va` has a frame of its own after the handler, writable, with the bytes of the old
  -- frame, which keeps them; no other page but PFTEMP is mapped differently.
  abbrev pub Separate : ℕ → S → S → Type 0
  Separate va s s' =
      (is_writeable (view s' (va / 4096)) ≡ true)
      × (view s' (va / 4096) / 4096 ≢ view s (va / 4096) / 4096)
      × ((o : ℕ)
          → o < 4096
          → (content s' (view s' (va / 4096) / 4096) o ≡ content s (view s (va / 4096) / 4096) o)
            × (content s' (view s (va / 4096) / 4096) o ≡ content s (view s (va / 4096) / 4096) o))
      × ((q : ℕ) → q ≢ va / 4096 → q ≢ pftemp / 4096 → view s' q ≡ view s q)

  -- A system call of the handler that failed.
  abbrev pub Refused : ℕ → S → Type 0
  Refused va s =
      ((x : Error) × (s1 : S) × (calls.page_alloc 0 pftemp upw s ≡ (err x, s1)))
      ⊎ ((x : Error) × (s2 : S) × (s3 : S) × (calls.page_map 0 pftemp 0 (va / 4096 * 4096) upw s2
            ≡ (err x, s3)))

  all_succeed :
      (va n1 n3 : ℕ) (s s1 s3 : S)
      → va / 4096 ≢ pftemp / 4096
      → calls.page_alloc 0 pftemp upw s ≡ (ret n1, s1)
      → calls.page_map 0 pftemp 0
          (va / 4096 * 4096)
          upw
          (calls.move pftemp (va / 4096 * 4096) pgsize s1)
        ≡ (ret n3, s3)
      → Separate va s s3
  all_succeed va n1 n3 s s1 s3 away r1 r3 =
      let g : ℕ = view s (va / 4096) / 4096 in
      let (f, at1, keep1, fresh, content1) = law.allocates s s1 n1 r1 in
      let s2 : S = calls.move pftemp (va / 4096 * 4096) pgsize s1 in
      let frame1 : view s1 (pftemp / 4096) / 4096 ≡ f = omega (arith, at1) in
      let page1 : view s1 (va / 4096) ≡ view s (va / 4096) = keep1 (va / 4096) away in
      let (copied, kept, same2) =
        law.moves s1 (va / 4096) f g frame1 (ap (λ v. v / 4096) page1) (fresh (va / 4096)) in
      let (at3, keep3, content3) = law.maps s2 s3 (va / 4096) n3 r3 in
      let entry : view s3 (va / 4096) ≡ f * 4096 + 7 =
        at3 ∙ ap (λ v. v / 4096 * 4096 + upw) (same2 (pftemp / 4096) ∙ at1) ∙ omega arith in
      let frame3 : view s3 (va / 4096) / 4096 ≡ f = omega (arith, entry) in
      (
        ap is_writeable entry ∙ ground arith,
        λ e. fresh (va / 4096) (omega (arith, frame3, e)),
        λ o h. (
          ap (λ w. content s3 w o) frame3
              ∙ content3 f o
              ∙ copied o h
              ∙ content1 g o (fresh (va / 4096)),
          content3 g o ∙ kept g o (fresh (va / 4096)) ∙ content1 g o (fresh (va / 4096)),
        ),
        λ q a b. keep3 q a ∙ same2 q ∙ keep1 q b,
      )

  -- With calls that do what `Serves` says where they succeed: at a write to a copy-on-write page,
  -- other than the page at PFTEMP, in a present page table, the handler panics only where
  -- `sys_page_alloc` or `sys_page_map` failed. Else it returns with the page in a frame of its own,
  -- writable, with the bytes of the old frame, which keeps them; no other page of the program but
  -- PFTEMP is mapped differently.
  pub pgfault_lem :
      (va error : ℕ) (s : S)
      → is_write error ≡ true
      → is_present (calls.vpd s (va / 2 ^ 22)) ≡ true
      → is_cow (view s (va / 4096)) ≡ true
      → va / 4096 ≢ pftemp / 4096
      → ((pgfault calls va error s ≡ stop panic) × Refused va s)
        ⊎ ((s' : S) × (pgfault calls va error s ≡ ok s') × Separate va s s')
  pgfault_lem va error s w p c away =
      let addr : ℕ = va / 4096 * 4096 in
      let does = handler_calls va error (view s (va / 4096)) s w p (law.own s (va / 4096)) c in
      elim (answers S (calls.page_alloc 0 pftemp upw s)) [
        | inr (x, s1, r1) ↦ inl (does ∙ rw r1 refl, inl (x, s1, r1))
        | inl (n1, s1, r1) ↦
            let s2 : S = calls.move pftemp addr pgsize s1 in
            elim (answers S (calls.page_map 0 pftemp 0 addr upw s2)) [
              | inr (x, s3, r3) ↦ inl (does ∙ rw r1 (rw r3 refl), inr (x, s2, s3, r3))
              | inl (n3, s3, r3) ↦
                  inr (s3, does ∙ rw r1 (rw r3 refl), all_succeed va n1 n3 s s1 s3 away r1 r3)
            ]
      ]
