-- ===== src/Env/Load.antt =====
-- `load_icode` and `env_create` of kern/env.c, with the headers of inc/elf.h. The ELF image is an
-- array of bytes in the kernel's memory; what is stored to the new environment goes byte by byte
-- through its page tables. The fields that are read are those of the two headers.
use jos_lab.Base.{
  ℕ, zero, suc, ◌+◌, ◌-◌, ◌*◌, ◌%◌, not, Option, none, some, ◌==◌, if◌then◌else◌, Run, ok, stop,
  panic, fault, ◌>>=◌,
}
use jos_lab.Mmu.{word_mod, pgsize, ustacktop}
use jos_lab.Pmap.{Mem}
use jos_lab.Strings.{Bytes}
use jos_lab.Trap.Fault.{put_byte}
use jos_lab.Env.{Kernel, set_env, set_mem}
use jos_lab.Env.Alloc.{region_alloc, env_alloc}

abbrev pub elf_magic : ℕ
elf_magic = 0x464C457F

abbrev pub elf_prog_load : ℕ
elf_prog_load = 1

-- The little-endian fields of a structure in the image.
abbrev pub half_word : Bytes → ℕ → ℕ
half_word b o = b o + b (o + 1) * 256

abbrev pub word : Bytes → ℕ → ℕ
word b o = half_word b o + half_word b (o + 2) * 65536

pub record Elf : Type 0 where
  pub e_magic : ℕ
  pub e_entry : ℕ
  pub e_phoff : ℕ
  pub e_phnum : ℕ

pub record Proghdr : Type 0 where
  pub p_type : ℕ
  pub p_offset : ℕ
  pub p_va : ℕ
  pub p_pa : ℕ
  pub p_filesz : ℕ
  pub p_memsz : ℕ

abbrev pub elf_at : Bytes → Elf
elf_at b = record {
  e_magic = word b 0;
  e_entry = word b 24;
  e_phoff = word b 28;
  e_phnum = half_word b 44;
}

abbrev pub proghdr_at : Bytes → ℕ → Proghdr
proghdr_at b o = record {
  p_type = word b o;
  p_offset = word b (o + 4);
  p_va = word b (o + 8);
  p_pa = word b (o + 12);
  p_filesz = word b (o + 16);
  p_memsz = word b (o + 20);
}

-- The stores of the bytes `src i`, for `i` from 0 to `n - 1`, at `va` in the address space `d`.
unfoldable pub put_bytes : ℕ → ℕ → Bytes → ℕ → Mem → Run Mem
unfolding put_byte
put_bytes d va src zero m = ok m
put_bytes d va src (suc n) m = do
  before ← put_bytes d va src n m
  put_byte d ((va + n) % word_mod) (src n) before

-- One round of the loop: `memset` clears the region, and `memmove` copies the file's part.
unfoldable pub load_segment : ℕ → ℕ → Bytes → Proghdr → Kernel → Run Kernel
unfolding region_alloc put_bytes
load_segment e d binary ph k = do
  backed ← region_alloc e ph.p_va ph.p_memsz k
  cleared ← put_bytes d ph.p_va (λ i. 0) ph.p_memsz backed.mem
  copied ← put_bytes d ph.p_va (λ i. binary (ph.p_offset + i)) ph.p_filesz cleared
  ok (set_mem copied backed)

-- The loop over `n` program headers from offset `ph` on.
unfoldable pub load_segments : ℕ → ℕ → ℕ → ℕ → Bytes → Kernel → Run Kernel
unfolding load_segment
load_segments zero ph e d binary k = ok k
load_segments (suc n) ph e d binary k = do
  loaded ←
      if (proghdr_at binary ph).p_type == elf_prog_load
      then load_segment e d binary (proghdr_at binary ph) k
      else ok k
  load_segments n (ph + 32) e d binary loaded

-- The last two steps: the entry point and the stack.
unfoldable pub load_stack : ℕ → Bytes → Kernel → Run Kernel
unfolding region_alloc
load_stack e binary k =
    let entered = record ((k.envs e).env_tf) { tf_eip = (elf_at binary).e_entry } in
    region_alloc e (ustacktop - pgsize) pgsize
      (set_env e (record (k.envs e) { env_tf = entered }) (record k { cr3 = some k.kern_pgdir }))

-- `load_icode` for the page directory that it loads into `cr3`; PADDR panics at a null pointer.
unfoldable pub load_in : Option ℕ → ℕ → Bytes → Kernel → Run Kernel
unfolding load_segments load_stack
load_in none e binary k = stop panic
load_in (some d) e binary k = do
  loaded ←
      load_segments (elf_at binary).e_phnum (elf_at binary).e_phoff e d binary
        (record k { cr3 = some d })
  load_stack e binary loaded

unfoldable pub load_icode : ℕ → Bytes → Kernel → Run Kernel
unfolding load_in
load_icode e binary k =
    if not ((elf_at binary).e_magic == elf_magic)
    then stop panic
    else load_in (k.envs e).env_pgdir e binary k

-- If `env_alloc` fails, the pointer that it should have set is not initialized.
unfoldable pub env_create : Bytes → ℕ → Kernel → Run Kernel
unfolding env_alloc load_icode
env_create binary type k = do
  (_, got, k) ← env_alloc 0 k
  elim got [
    | none ↦ stop fault
    | some e ↦ load_icode e binary (set_env e (record (k.envs e) { env_type = type }) k)
  ]
