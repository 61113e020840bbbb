-- ===== src/Examples/Machine.antt =====
-- The states that the examples share.
use jos_lab.Base.{ℕ, ◌*◌, ◌+◌, refl, true, Option, none, some, [], ◌∷◌, arith, ◌==◌, if◌then◌else◌}
use jos_lab.Pmap.{PageInfo, Mem}
use jos_lab.Pmap.Free.{FreeList}
use jos_lab.Pmap.Space.{IsSpace}
use jos_lab.Pmap.Lookup.{IsData}
use jos_lab.Env.{
  PushRegs, Trapframe, Status, env_free_status, env_runnable, env_running, env_not_runnable, Env,
  Kernel,
}
use jos_lab.Env.Init.{FreeEnvs}
use jos_lab.Env.Switch.{OnlyCurrent}
use jos_lab.Sched.Progress.{Housed}

-- Pages 2 and 3 are free; page 1 is a directory, page 5 is used once.
abbrev pub some_pages : ℕ → PageInfo
some_pages p = record {
  pp_link = if p == 2 then some 3 else none;
  pp_ref = if p == 1 then 1 else if p == 4 then 1 else if p == 5 then 1 else 0;
}

abbrev pub empty_mem : Mem
empty_mem = record {
  npages = 16;
  pages = some_pages;
  page_free_list = some 2;
  word = λ f j. 0;
  invlpg = [];
  nextfree = 0;
  mmio_base = 0;
  user_mem_check_addr = 0;
}

-- Page 4 is the table for the lowest addresses, and page 5 is mapped at 0x1000.
abbrev pub mapped_mem : Mem
mapped_mem = record empty_mem {
  word = λ f j.
      if f == 1
      then (if j == 0 then 4 * 4096 + 7 else 0)
      else if f == 4
      then (if j == 1 then 5 * 4096 + 5 else 0)
      else 0;
}

pub empty-FreeList : FreeList empty_mem (2 ∷ 3 ∷ [])
empty-FreeList = record {
  chain = (refl, (refl, refl));
  in_range = (omega arith, (omega arith, _));
  unreferenced = (refl, (refl, _));
  distinct = (refl, (refl, _));
}

pub empty-IsSpace : IsSpace empty_mem 1 (2 ∷ 3 ∷ [])
empty-IsSpace = record {
  small = omega arith;
  free = empty-FreeList;
  root = refl;
  exists = λ i h p. ground arith;
  off_root = λ i h p. ground arith;
  in_use = λ i h p. ground arith;
  separate = λ i j h g p q e. ground arith;
}

pub mapped-IsSpace : IsSpace mapped_mem 1 (2 ∷ 3 ∷ [])
mapped-IsSpace = record {
  small = omega arith;
  free = record {
    chain = (refl, (refl, refl));
    in_range = (omega arith, (omega arith, _));
    unreferenced = (refl, (refl, _));
    distinct = (refl, (refl, _));
  };
  root = refl;
  exists = λ i h p. ground arith;
  off_root = λ i h p. ground arith;
  in_use = λ i h p. ground arith;
  separate = λ i j h g p q e. ground arith;
}

pub five-IsData : IsData mapped_mem 1 5
five-IsData = record {
  exists = omega arith;
  counted = omega arith;
  small = omega arith;
  off_root = λ e. ground arith;
  off_tables = λ i h p. ground arith;
}

abbrev pub blank_regs : PushRegs
blank_regs = record {
  reg_edi = 0;
  reg_esi = 0;
  reg_ebp = 0;
  reg_oesp = 0;
  reg_ebx = 0;
  reg_edx = 0;
  reg_ecx = 0;
  reg_eax = 9;
}

abbrev pub blank_frame : Trapframe
blank_frame = record {
  tf_regs = blank_regs;
  tf_es = 0;
  tf_ds = 0;
  tf_trapno = 0;
  tf_err = 0;
  tf_eip = 0x800020;
  tf_cs = 0;
  tf_eflags = 0;
  tf_esp = 0;
  tf_ss = 0;
}

-- An environment with the given status, id, parent and link.
abbrev pub some_env : Status → ℕ → ℕ → Option ℕ → Env
some_env status id parent next = record {
  env_tf = blank_frame;
  env_link = next;
  env_id = id;
  env_parent_id = parent;
  env_type = 0;
  env_status = status;
  env_runs = 0;
  env_cpunum = 0;
  env_pgdir = some 1;
  env_pgfault_upcall = 0;
  env_ipc_recving = true;
  env_ipc_dstva = 0;
  env_ipc_value = 0;
  env_ipc_from = 0;
  env_ipc_perm = 0;
}

-- Environment 0 is running, 2 is its child and waits, 3 and 4 are free, the others are blocked.
abbrev pub some_envs : ℕ → Env
some_envs i =
    if i == 0
    then some_env env_running 4096 0 none
    else if i == 2
    then some_env env_runnable 4098 4096 none
    else if i == 3
    then some_env env_free_status 0 0 (some 4)
    else if i == 4
    then some_env env_free_status 0 0 none
    else some_env env_not_runnable (8192 + i) 77 none

abbrev pub some_kernel : Kernel
some_kernel = record {
  mem = empty_mem;
  envs = some_envs;
  env_free_list = some 3;
  cur = some 0;
  kern_pgdir = 1;
  cr3 = some 1;
  cpunum = 0;
}

pub some-FreeEnvs : FreeEnvs some_kernel (3 ∷ 4 ∷ [])
some-FreeEnvs = record {
  chain = (refl, (refl, refl));
  in_table = (omega arith, (omega arith, _));
  idle = (refl, (refl, _));
  distinct = (refl, (refl, _));
}

pub some-OnlyCurrent : OnlyCurrent some_kernel
some-OnlyCurrent j r on = ground arith

pub some-Housed : Housed some_kernel
some-Housed j h w = (1, ground arith)
