-- ===== src/Env/Alloc.antt =====
-- `env_setup_vm`, `env_alloc` and `region_alloc`.
use jos_lab.Base.{
  ℕ, zero, suc, ◌+◌, ◌-◌, ◌*◌, ◌/◌, ◌%◌, ◌^◌, bit_or, false, ◌||◌, Option, none, some, ◌==◌, ltb,
  leb, if◌then◌else◌, Run, ok, stop, panic, ◌>>=◌,
}
use jos_lab.Mmu.{
  word_mod, pdx, utop, uvpt, ustacktop, pte_p, pte_u, pte_w, pgsize, rounddown, roundup, npdentries,
}
use jos_lab.Kernel.{Reply, ret, err, e_no_mem, e_no_free_env}
use jos_lab.Pmap.{Mem, page_alloc, page_insert, page2pa, page2kva, set_ref, alloc_zero}
use jos_lab.Pmap.Free.{taken}
use jos_lab.Env.{PushRegs, Trapframe, env_runnable, Env, Kernel, nenv, set_env, set_mem, cur_pgdir}

-- What the three writes to the new directory leave in it: `memset` clears the entries below
-- PDX(UTOP), the loop copies the rest from `kern_pgdir`, and the entry at UVPT is the directory's.
abbrev pub new_directory : ℕ → ℕ → Mem → Mem
new_directory dir kern_pgdir m = record m {
  word = λ g j.
      if g == dir
      then (if j == pdx uvpt
          then bit_or (bit_or (page2pa dir) pte_p) pte_u
          else if ltb j (pdx utop)
          then 0
          else if ltb j npdentries
          then m.word kern_pgdir j
          else m.word g j)
      else m.word g j;
}

unfoldable pub env_setup_vm : ℕ → Kernel → Run (Reply × Kernel)
unfolding page_alloc page2kva
env_setup_vm e k = do
  (got, m) ← page_alloc alloc_zero k.mem
  elim got [
    | none ↦ ok (err e_no_mem, set_mem m k)
    | some p ↦ do
      dir ← page2kva (set_ref p (((m.pages p).pp_ref + 1) % 65536) m) p
      ok (
        ret 0,
        set_env e (record (k.envs e) { env_pgdir = some dir })
            (set_mem
              (new_directory dir k.kern_pgdir (set_ref p (((m.pages p).pp_ref + 1) % 65536) m)) k),
      )
  ]

-- The new id for the slot `e` that had the id `old`.
unfoldable pub next_id : ℕ → ℕ → ℕ
next_id old e =
    let generation = (old + 2 ^ 12) % word_mod / nenv * nenv in
    if (generation == 0) || leb (2 ^ 31) generation then bit_or (2 ^ 12) e else bit_or generation e

abbrev zero_regs : PushRegs
zero_regs = record {
  reg_edi = 0;
  reg_esi = 0;
  reg_ebp = 0;
  reg_oesp = 0;
  reg_ebx = 0;
  reg_edx = 0;
  reg_ecx = 0;
  reg_eax = 0;
}

-- GD_UD | 3, GD_UT | 3 and FL_IF
abbrev pub user_frame : Trapframe
user_frame = record {
  tf_regs = zero_regs;
  tf_es = bit_or 0x20 3;
  tf_ds = bit_or 0x20 3;
  tf_trapno = 0;
  tf_err = 0;
  tf_eip = 0;
  tf_cs = bit_or 0x18 3;
  tf_eflags = bit_or 0 0x200;
  tf_esp = ustacktop;
  tf_ss = bit_or 0x20 3;
}

abbrev pub fresh_env : ℕ → ℕ → Env → Env
fresh_env e parent_id old = record old {
  env_id = next_id old.env_id e;
  env_parent_id = parent_id;
  env_type = 0;
  env_status = env_runnable;
  env_runs = 0;
  env_tf = user_frame;
  env_pgfault_upcall = 0;
  env_ipc_recving = false;
}

-- `env_alloc` with what it read from `env_free_list`.
unfoldable pub alloc_slot : Option ℕ → ℕ → Kernel → Run (Reply × Option ℕ × Kernel)
unfolding env_setup_vm
alloc_slot none parent_id k = ok (err e_no_free_env, none, k)
alloc_slot (some e) parent_id k = do
  (r, k) ← env_setup_vm e k
  elim r [
    | err x ↦ ok (err x, none, k)
    | ret n ↦ ok (
      ret 0,
      some e,
      record (set_env e (fresh_env e parent_id (k.envs e)) k) {
        env_free_list = (k.envs e).env_link;
      },
    )
  ]

-- The result, what is stored through `newenv_store`, and the kernel after the call.
unfoldable pub env_alloc : ℕ → Kernel → Run (Reply × Option ℕ × Kernel)
unfolding alloc_slot
env_alloc parent_id k = alloc_slot k.env_free_list parent_id k

-- The loop of `region_alloc` from address `i` on, with the rounds that are left.
unfoldable pub alloc_pages : ℕ → ℕ → Option ℕ → ℕ → Mem → Run Mem
unfolding page_alloc page_insert
alloc_pages zero i cur d m = ok m
alloc_pages (suc n) i cur d m = do
  (got, taken) ← page_alloc alloc_zero m
  elim got [
    | none ↦ stop panic
    | some p ↦ do
      (_, mapped) ← page_insert cur d p i (bit_or pte_w pte_u) taken
      alloc_pages n (i + pgsize) cur d mapped
  ]

unfoldable pub alloc_in : Option ℕ → ℕ → ℕ → Kernel → Run Kernel
unfolding alloc_pages
alloc_in none va len k = stop panic
alloc_in (some d) va len k = do
  m ←
      alloc_pages ((roundup (va + len) pgsize - rounddown va pgsize) / pgsize) (rounddown va pgsize)
        (cur_pgdir k) d k.mem
  ok (set_mem m k)

-- `va` and `len` add up to at most 2 ^ 32 - PGSIZE, beyond which the addresses wrap around.
unfoldable pub region_alloc : ℕ → ℕ → ℕ → Kernel → Run Kernel
unfolding alloc_in
region_alloc e va len k = alloc_in (k.envs e).env_pgdir va len k
