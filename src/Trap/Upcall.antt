-- ===== src/Trap/Upcall.antt =====
-- What an environment with a page fault upcall finds when `page_fault_handler` enters it again.
use jos_lab.Base.{ℕ, ◌+◌, ◌%◌, ◌≤◌, ◌<◌, ◌≡◌, ◌≢◌, ◌⊎◌, some}
use jos_lab.Mmu.{word_mod}
use jos_lab.Env.{Trapframe, Env, Kernel, env_running}
use jos_lab.Trap.Fault.{user_frame_of}
use jos_lab.Trap.Bytes.{byte}
use jos_lab.Trap.Frame.{Pushed}

-- What the upcall of environment `c`, which runs in space `d`, is entered with: the registers at
-- the time of the fault and its address on the exception stack, at `a` in frame `f`; no other byte
-- and nothing else of the memory's state has changed; `c` goes on at its upcall with the stack
-- pointer at the frame and is otherwise as it was, but for one run more; no other environment has
-- changed, and of the rest of the kernel only that the CPU is in `c` and its space is new.
pub record Entered (c d a f fault_va : ℕ) (tf : Trapframe) (k k' : Kernel) : Type 0 where
  pub frame : Pushed (user_frame_of fault_va tf) f (a % 4096) k'.mem
  pub rest :
      (g p : ℕ) → (g ≢ f) ⊎ (p < a % 4096) ⊎ (a % 4096 + 52 ≤ p) → byte g p k'.mem ≡ byte g p k.mem
  pub env : k'.envs c ≡ record (k.envs c) {
    env_tf = record ((k.envs c).env_tf) { tf_eip = (k.envs c).env_pgfault_upcall; tf_esp = a };
    env_status = env_running;
    env_runs = ((k.envs c).env_runs + 1) % word_mod;
    env_cpunum = k.cpunum;
  }
  pub memory : k'.mem ≡ record (k.mem) { word = k'.mem.word }
  pub kernel : k' ≡ record k { mem = k'.mem; envs = k'.envs; cur = some c; cr3 = some d }
  pub others : (j : ℕ) → j ≢ c → k'.envs j ≡ k.envs j
