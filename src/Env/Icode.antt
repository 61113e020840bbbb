-- ===== src/Env/Icode.antt =====
-- `load_icode` of kern/env.c as a whole: the segments, the entry point and the stack.
use jos_lab.Base.{
  ℕ, ◌+◌, ◌-◌, ◌/◌, ◌≤◌, ◌<◌, ◌≡◌, ◌⊎◌, refl, ap, ◌∙◌, inl, inr, true, some, none, List, [], ◌∷◌,
  length, ◌==◌, eq_self, bit_or, ok, arith,
}
use jos_lab.Mmu.{utop, ustacktop, pgsize, pte_w, pte_u}
use jos_lab.Pmap.{Mem}
use jos_lab.Pmap.Space.{translate, IsSpace}
use jos_lab.Pmap.Insert.{pte_of}
use jos_lab.Strings.{Bytes}
use jos_lab.Env.{Env, Kernel, set_env, set_mem}
use jos_lab.Env.Alloc.{region_alloc}
use jos_lab.Env.Region.{Allocated, region_alloc_lem}
use jos_lab.Env.Load.{Proghdr, elf_at, elf_magic, load_segments, load_stack, load_in, load_icode}
use jos_lab.Env.Segment.{Shows-kept, Allocated-Keeps, content}
use jos_lab.Env.Program.{headers, Layout, needed, OutOf, Present, load_segments-Loaded}

abbrev pub stack_page : ℕ
stack_page = ustacktop - pgsize

-- The environment with its entry point.
abbrev pub with_entry : Bytes → Env → Env
with_entry binary x = record x { env_tf = record (x.env_tf) { tf_eip = (elf_at binary).e_entry } }

-- The kernel before the stack is allocated.
abbrev pub started : ℕ → Bytes → Mem → Kernel → Kernel
started e binary m k =
    set_env e (with_entry binary (k.envs e)) (record k { mem = m; cr3 = some k.kern_pgdir })

-- The segments are still there once the page of the stack, which is in none of them, is allocated.
Present-stack :
    (d : ℕ) (binary : Bytes) (m m1 : Mem) (ps1 : List ℕ) (m' : Mem)
    → (a : Allocated d (stack_page / 4096) 1 m1 ps1 m') → (xs : List Proghdr) → OutOf stack_page xs
    → Layout d m xs
    → Present d binary m1 ps1 xs
    → Present d binary m' a.left xs
Present-stack d binary m m1 ps1 m' a [] out layout present = _
Present-stack d binary m m1 ps1 m' a (x ∷ xs) (here, out) (first, layout) (shows, present) = (
  λ load i lt.
      let fits = (first load).0 in
      Shows-kept d m1 ps1 m' a.left (x.p_va + i) (content binary x i)
        (Allocated-Keeps d (stack_page / 4096) 1 m1 ps1 m' a)
        (a.others (x.p_va + i) (omega (arith, fits.low, lt)) (elim (here load) [
          | inl h ↦ inr (omega (arith, h))
          | inr h ↦ inl (omega (arith, h, lt))
        ]))
        (shows load i lt),
  Present-stack d binary m m1 ps1 m' a xs out layout present,
)

load_icode-runs :
    (e d : ℕ) (binary : Bytes) (k : Kernel) (m1 m' : Mem)
    → (k.envs e).env_pgdir ≡ some d
    → (elf_at binary).e_magic ≡ elf_magic
    → load_segments
        (elf_at binary).e_phnum
        (elf_at binary).e_phoff
        e
        d
        binary
        (record k { cr3 = some d })
      ≡ ok (set_mem m1 (record k { cr3 = some d }))
    → region_alloc e stack_page pgsize (started e binary m1 k)
      ≡ ok (set_mem m' (started e binary m1 k))
    → load_icode e binary k ≡ ok (started e binary m' k)
unfolding load_icode load_in load_stack
load_icode-runs e d binary k m1 m' root magic run1 run2 =
    let valid : ((elf_at binary).e_magic == elf_magic) ≡ true = rw magic refl in
    let first : load_icode e binary k ≡ load_in (k.envs e).env_pgdir e binary k = rw valid refl in
    let second : load_in (some d) e binary k ≡ ok (started e binary m' k) = rw run1 run2 in
    first ∙ ap (λ o. load_in o e binary k) root ∙ second

-- In a well-formed space, for an image of bytes with the magic number of ELF, whose segments fit
-- below UTOP on unmapped pages that no two of them share and that are not the page of the stack,
-- with two free pages for each page of the segments and of the stack: `load_icode` returns, with
-- the entry point of the image in `tf_eip` and the kernel's directory in CR3; the user finds every
-- byte of every segment at its address, zeros behind the part that is in the file, and a page to
-- read and write below USTACKTOP; no other page below UTOP translates to anything else than
-- before, and the space is well formed beside the pages that are left.
pub load_icode_lem :
    (e d : ℕ) (binary : Bytes) (k : Kernel) (ps : List ℕ)
    → (k.envs e).env_pgdir ≡ some d
    → IsSpace k.mem d ps
    → ((i : ℕ) → binary i < 256)
    → (elf_at binary).e_magic ≡ elf_magic
    → Layout d k.mem (headers binary (elf_at binary).e_phnum (elf_at binary).e_phoff)
    → OutOf stack_page (headers binary (elf_at binary).e_phnum (elf_at binary).e_phoff)
    → translate k.mem d stack_page ≡ none
    → needed (headers binary (elf_at binary).e_phnum (elf_at binary).e_phoff) + 2 ≤ length ps
    → (m' : Mem) × (left : List ℕ) × (load_icode e binary k ≡ ok (started e binary m' k))
      × IsSpace m' d left
      × Present d binary m' left (headers binary (elf_at binary).e_phnum (elf_at binary).e_phoff)
      × ((f : ℕ) × (translate m' d stack_page ≡ some (pte_of f (bit_or pte_w pte_u))))
      × ((a : ℕ)
          → a < utop
          → (a / 4096 < stack_page / 4096) ⊎ (stack_page / 4096 + 1 ≤ a / 4096)
          → OutOf a (headers binary (elf_at binary).e_phnum (elf_at binary).e_phoff)
          → translate m' d a ≡ translate k.mem d a)
load_icode_lem e d binary k ps root s bytes magic layout out gone enough =
    let header = elf_at binary in
    let xs = headers binary header.e_phnum header.e_phoff in
    let (m1, run1, r) =
      load_segments-Loaded header.e_phnum header.e_phoff e d binary (record k { cr3 = some d }) ps
        root s bytes layout (omega (arith, enough)) in
    let self : (e == e) ≡ true = eq_self e in
    let (m', run2, a) =
      region_alloc_lem e stack_page pgsize d (started e binary m1 k) r.left (rw self root) r.space
        (omega arith)
        (λ p lo hi.
          let here : p ≡ 977917 = omega (arith, lo, hi) in
          rw here (r.others stack_page (omega arith) out ∙ gone))
        (omega (arith, r.spare, enough)) in
    (
      m',
      a.left,
      load_icode-runs e d binary k m1 m' root magic run1 run2,
      a.space,
      Present-stack d binary k.mem m1 r.left m' a xs out layout r.shown,
      (a.frame (stack_page / 4096), a.entries (stack_page / 4096) (omega arith) (omega arith)),
      λ x low away free. a.others x low away ∙ r.others x low free,
    )
