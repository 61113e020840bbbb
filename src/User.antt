-- ===== src/User.antt =====
-- The user-level library: lib/pgfault.c, lib/fork.c and lib/ipc.c. The system calls and what a
-- program sees of its page tables are an interface; their state `S` is the kernel's and the
-- memory's. An environment id of 0 is the caller.
pub mod Cow
pub mod Private
pub mod Ipc
pub mod Stubs
use jos_lab.Base.{
  ℕ, zero, suc, ◌+◌, ◌-◌, ◌*◌, ◌/◌, ◌%◌, ◌^◌, bit_or, Bool, true, false, not, ◌&&◌, ◌||◌, ◌==◌,
  if◌then◌else◌, Run, ok, stop, panic, ◌>>=◌,
}
use jos_lab.Kernel.{Reply, ret, err}
use jos_lab.Mmu.{pgsize, utext, uxstacktop, pftemp, pte_p, pte_w, pte_u, is_present, is_writeable}

-- The calls of lib/syscall.c that the library uses, the page directory and the page tables at
-- UVPT by page number, and `memmove` between virtual addresses.
pub record Calls (S : Type 0) : Type 0 where
  pub page_alloc : ℕ → ℕ → ℕ → S → Reply × S
  pub page_map : ℕ → ℕ → ℕ → ℕ → ℕ → S → Reply × S
  pub exofork : S → Reply × S
  pub set_pgfault_upcall : ℕ → ℕ → S → Reply × S
  pub set_status : ℕ → ℕ → S → Reply × S
  pub vpd : S → ℕ → ℕ
  pub vpt : S → ℕ → ℕ
  pub move : ℕ → ℕ → ℕ → S → S

-- A call whose failure the library panics at.
abbrev pub must : {S : Type 0} → Reply × S → Run S
must (ret n, s) = ok s
must (err e, s) = stop panic

-- A program: what the calls act on, and the variable `_pgfault_handler`.
pub record Program (S : Type 0) : Type 0 where
  pub sys : S
  pub pgfault_handler : ℕ

abbrev pub pte_cow : ℕ
pte_cow = 0x800

abbrev pub is_cow : ℕ → Bool
is_cow pte = pte / 0x800 % 2 == 1

abbrev pub is_user : ℕ → Bool
is_user pte = pte / 4 % 2 == 1

-- FEC_WR, as a test
abbrev pub is_write : ℕ → Bool
is_write e = e / 2 % 2 == 1

abbrev pub upw : ℕ
upw = bit_or (bit_or pte_u pte_p) pte_w

abbrev pub upcow : ℕ
upcow = bit_or (bit_or pte_u pte_p) pte_cow

abbrev pub up : ℕ
up = bit_or pte_u pte_p

module _ {S : Type 0} (calls : Calls S) where
  -- The first part of `set_pgfault_handler`; `_pgfault_upcall` stands at `upcall`.
  unfoldable pub first_time : ℕ → Program S → Run (Program S)
  first_time upcall p =
      if p.pgfault_handler == 0
      then (do
        s ← must (calls.page_alloc 0 (uxstacktop - pgsize) upw p.sys)
        ok (record p { sys = (calls.set_pgfault_upcall 0 upcall s).1 }))
      else ok p

  unfoldable pub set_pgfault_handler : ℕ → ℕ → Program S → Run (Program S)
  unfolding first_time
  set_pgfault_handler upcall handler p = do
    ready ← first_time upcall p
    ok (record ready { pgfault_handler = handler })

  -- The copy-on-write handler: `fault_va` and `error` are fields of the `UTrapframe`.
  unfoldable pub pgfault : ℕ → ℕ → S → Run S
  pgfault fault_va error s =
      if (not (is_write error) || not (is_present (calls.vpd s (fault_va / 2 ^ 22))))
        || not (is_cow (calls.vpt s (fault_va / 4096)))
      then stop panic
      else (do
        fresh ← must (calls.page_alloc 0 pftemp upw s)
        let addr = fault_va / 4096 * 4096
        must (calls.page_map 0 pftemp 0 addr upw (calls.move pftemp addr pgsize fresh)))

  unfoldable pub duppage : ℕ → ℕ → S → Run S
  duppage envid pn s =
      let pte = calls.vpt s pn in
      if is_writeable pte || is_cow pte
      then (do
        given ← must (calls.page_map 0 (pn * pgsize) envid (pn * pgsize) upcow s)
        must (calls.page_map 0 (pn * pgsize) 0 (pn * pgsize) upcow given))
      else must (calls.page_map 0 (pn * pgsize) envid (pn * pgsize) up s)

  -- Whether the loop of `fork` copies page `pn`.
  abbrev pub visible : ℕ → S → Bool
  visible pn s =
      (is_present (calls.vpd s (pn / 1024)) && is_present (calls.vpt s pn))
      && is_user (calls.vpt s pn)

  -- The loop, with the rounds that are left, from page `pn` on.
  unfoldable pub dup_pages : ℕ → ℕ → ℕ → S → Run S
  unfolding duppage
  dup_pages zero envid pn s = ok s
  dup_pages (suc n) envid pn s = do
    done ← (if visible pn s then duppage envid pn s else ok s)
    dup_pages n envid (pn + 1) done

  -- What the parent does once it has the child's id.
  unfoldable pub parent : ℕ → ℕ → S → Run S
  unfolding dup_pages
  parent upcall envid s = do
    shared ← dup_pages ((uxstacktop - pgsize - utext) / pgsize) envid (utext / pgsize) s
    stacked ← must (calls.page_alloc envid (uxstacktop - pgsize) upw shared)
    must (calls.set_status envid 2 (calls.set_pgfault_upcall envid upcall stacked).1)

  -- The end of `fork`, for what `sys_exofork` answers: 0 is the child.
  abbrev pub forked : ℕ → Program S → Reply × S → Run (ℕ × Program S)
  forked upcall p (err e, s) = stop panic
  forked upcall p (ret zero, s) = ok (0, record p { sys = s })
  forked upcall p (ret (suc id), s) = do
    done ← parent upcall (suc id) s
    ok (suc id, record p { sys = done })

  -- `handler` is the address of `pgfault`.
  unfoldable pub fork : ℕ → ℕ → Program S → Run (ℕ × Program S)
  unfolding set_pgfault_handler parent
  fork upcall handler p = do
    ready ← set_pgfault_handler upcall handler p
    forked upcall ready (calls.exofork ready.sys)
