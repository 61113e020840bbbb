-- ===== src/Examples/Programs.antt =====
-- Small implementations of the system calls, on which the theorems on the user-level library are
-- applied.
use jos_lab.Base.{
  ℕ, ◌+◌, ◌-◌, ◌*◌, ◌/◌, ◌<◌, ◌≡◌, ◌⊎◌, inl, inr, refl, sym, ◌∙◌, ap, leb, true, false, ◌&&◌, ◌==◌,
  eq_self, ne→eqb, if◌then◌else◌, Bool-cases, arith, ok, stop, panic,
}
use jos_lab.Kernel.{Reply, ret, err, e_no_mem, e_ipc_not_recv}
use jos_lab.Mmu.{pftemp}
use jos_lab.User.{Calls, upw, dup_pages, duppage, pgfault}
use jos_lab.User.Private.{Serves, Refused, Separate, pgfault_lem}
use jos_lab.User.Ipc.{IpcCalls}
use jos_lab.Examples.Machine.{some_envs}

-- Page tables by environment and page, and how many pages may still be mapped.
abbrev Tables : Type 0
Tables = ℕ × (ℕ → ℕ → ℕ)

abbrev mapped_in : ℕ → ℕ → ℕ → ℕ → ℕ → Tables → Tables
mapped_in src p dst p' perm (left, t) =
    (left - 1, λ e q. if (e == dst) && (q == p') then t src p / 4096 * 4096 + perm else t e q)

-- `sys_page_map` fails when no page is left.
abbrev map_or_fail : ℕ → ℕ → ℕ → ℕ → ℕ → Tables → Reply × Tables
map_or_fail src va dst va' perm s =
    if s.0 == 0
    then (err e_no_mem, s)
    else (ret 0, mapped_in src (va / 4096) dst (va' / 4096) perm s)

abbrev table_calls : Calls Tables
table_calls = record {
  page_alloc = λ e va perm s. (ret 0, s);
  page_map = map_or_fail;
  exofork = λ s. (ret 4097, s);
  set_pgfault_upcall = λ e f s. (ret 0, s);
  set_status = λ e status s. (ret 0, s);
  vpd = λ s i. 7;
  vpt = λ s p. s.1 0 p;
  move = λ d a n s. s;
}

-- Page 2048 of the parent is writable, the next one is not, and the others are not there; five
-- pages may be mapped.
abbrev some_tables : Tables
some_tables = (
  5,
  λ e p.
      if (e == 0) && (p == 2048)
      then 5 * 4096 + 7
      else if (e == 0) && (p == 2049)
      then 6 * 4096 + 5
      else 0,
)

-- The loop returns with five pages to map, and panics with one.
dup_pages_run :
    ((s' : Tables) × (dup_pages table_calls 3 4097 2048 some_tables ≡ ok s'))
    × (dup_pages table_calls 3 4097 2048 (1, some_tables.1) ≡ stop panic)
unfolding dup_pages duppage
dup_pages_run = ((_, refl), refl)

-- One page table, the bytes of the frames, and the first frame that was never mapped.
record Space : Type 0 where
  table : ℕ → ℕ
  bytes : ℕ → ℕ → ℕ
  next : ℕ
  bound : (p : ℕ) → table p / 4096 < next

abbrev map_at : ℕ → ℕ → Space → Space
map_at p q s = record s {
  table = λ r. if r == q then s.table p / 4096 * 4096 + 7 else s.table r;
  bound = λ r. elim (Bool-cases (r == q)) [
    | inl e ↦ rw e (omega (arith, s.bound p))
    | inr e ↦ rw e (s.bound r)
  ];
}

abbrev take_frame : ℕ → Space → Space
take_frame q s = record {
  table = λ r. if r == q then s.next * 4096 + 7 else s.table r;
  bytes = s.bytes;
  next = s.next + 1;
  bound = λ r. elim (Bool-cases (r == q)) [
    | inl e ↦ rw e (omega arith)
    | inr e ↦ rw e (omega (arith, s.bound r))
  ];
}

-- There are 100 frames.
abbrev take_or_fail : ℕ → ℕ → ℕ → Space → Reply × Space
take_or_fail e va perm s =
    if leb 100 s.next then (err e_no_mem, s) else (ret 0, take_frame (va / 4096) s)

take_or_fail-ret :
    (e va perm n : ℕ) (s s' : Space)
    → take_or_fail e va perm s ≡ (ret n, s')
    → take_frame (va / 4096) s ≡ s'
take_or_fail-ret e va perm n s s' r = elim (Bool-cases (leb 100 s.next)) [
  | inl full ↦ absurd (ground (arith, ap (λ x. x.0) (sym (failing full) ∙ r)))
  | inr room ↦ ap (λ x. x.1) (sym (passing room) ∙ r)
]
  where
    failing : leb 100 s.next ≡ true → take_or_fail e va perm s ≡ (err e_no_mem, s)
    failing h = rw h refl

    passing : leb 100 s.next ≡ false → take_or_fail e va perm s ≡ (ret 0, take_frame (va / 4096) s)
    passing h = rw h refl

abbrev space_calls : Calls Space
space_calls = record {
  page_alloc = take_or_fail;
  page_map = λ src va dst va' perm s. (ret 0, map_at (va / 4096) (va' / 4096) s);
  exofork = λ s. (ret 4097, s);
  set_pgfault_upcall = λ e f s. (ret 0, s);
  set_status = λ e status s. (ret 0, s);
  vpd = λ s i. 7;
  vpt = λ s p. s.table p;
  move = λ d a n s. record s {
    bytes = λ f o.
        if f == s.table (d / 4096) / 4096
        then s.bytes (s.table (a / 4096) / 4096) o
        else s.bytes f o;
  };
}

space-Serves : Serves Space space_calls (λ s. s.table) (λ s. s.bytes)
space-Serves = record {
  own = λ s p. refl;
  allocates = λ s s' n r. rw (← take_or_fail-ret 0 pftemp upw n s s' r) (
    s.next,
    refl,
    λ p away. rw (ne→eqb p (pftemp / 4096) away) refl,
    λ p e. ground (arith, s.bound p, e),
    λ g o away. refl,
  );
  moves = λ s p f g at from apart.
      let page : p * 4096 / 4096 ≡ p = omega arith in
      (
        λ o lt. rw (page, at, from, eq_self f) refl,
        λ h o away. rw (at, ne→eqb h f away) refl,
        λ q. refl,
      );
  maps = λ s s' p n r.
      let page : p * 4096 / 4096 ≡ p = omega arith in
      let same : map_at (pftemp / 4096) (p * 4096 / 4096) s ≡ s' = ap (λ x. x.1) r in
      rw (← same)
        (rw (page, eq_self p) refl, λ q away. rw (page, ne→eqb q p away) refl, λ h o. refl);
}

some_bound : (p : ℕ) → (if p == 2048 then 5 * 4096 + 0x805 else 0) / 4096 < 6
some_bound p = ground arith

-- Page 2048 is copy-on-write, in frame 5.
abbrev some_space : Space
some_space = record {
  table = λ p. if p == 2048 then 5 * 4096 + 0x805 else 0;
  bytes = λ f o. f + o;
  next = 6;
  bound = some_bound;
}

abbrev full_space : Space
full_space = record some_space { next = 100; bound = λ p. omega (arith, some_bound p) }

pgfault_lem_example :
    ((pgfault space_calls (2048 * 4096 + 12) 7 some_space ≡ stop panic)
      × Refused Space space_calls
          (λ s. s.table)
          (λ s. s.bytes)
          space-Serves
          (2048 * 4096 + 12)
          some_space)
    ⊎ ((s' : Space) × (pgfault space_calls (2048 * 4096 + 12) 7 some_space ≡ ok s')
        × Separate Space space_calls
            (λ s. s.table)
            (λ s. s.bytes)
            space-Serves
            (2048 * 4096 + 12)
            some_space
            s')
pgfault_lem_example =
    pgfault_lem Space space_calls (λ s. s.table) (λ s. s.bytes) space-Serves (2048 * 4096 + 12) 7
      some_space refl refl refl (omega arith)

-- The handler returns, and panics when no frame is left.
pgfault_run :
    ((s' : Space) × (pgfault space_calls (2048 * 4096 + 12) 7 some_space ≡ ok s'))
    × (pgfault space_calls (2048 * 4096 + 12) 7 full_space ≡ stop panic)
unfolding pgfault
pgfault_run = ((_, refl), refl)

-- A receiver that is ready after as many yields as the state says.
abbrev counting_calls : IpcCalls ℕ
counting_calls = record {
  try_send = λ e val va perm s. if s == 0 then (ret 0, s) else (err e_ipc_not_recv, s);
  recv = λ va s. (ret 0, s);
  yield = λ s. s - 1;
  getenvid = λ s. 4096;
  envs = λ s. some_envs;
}
