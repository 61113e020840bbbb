-- ===== src/Mmu.antt =====
-- inc/mmu.h, inc/memlayout.h and inc/types.h: how a linear address is taken apart, the flags of a
-- page table entry, the memory layout, rounding, and the descriptors of segments and gates.
-- A `uint32_t` is a number below 2 ^ 32; `>> k` is `/ 2 ^ k`, `& (2 ^ k - 1)` is `% 2 ^ k`.
pub mod Address
pub mod Descriptor
use jos_lab.Base.{ℕ, ◌+◌, ◌-◌, ◌*◌, ◌/◌, ◌%◌, ◌^◌, bit_or, Bool, ◌==◌}

abbrev pub word_mod : ℕ
word_mod = 2 ^ 32

-- inc/mmu.h, part 1

abbrev pub pgnum : ℕ → ℕ
pgnum la = la / 2 ^ 12

abbrev pub pdx : ℕ → ℕ
pdx la = la / 2 ^ 22 % 1024

abbrev pub ptx : ℕ → ℕ
ptx la = la / 2 ^ 12 % 1024

abbrev pub pgoff : ℕ → ℕ
pgoff la = la % 4096

unfoldable pub pgaddr : ℕ → ℕ → ℕ → ℕ
pgaddr d t o = bit_or (bit_or (d * 2 ^ 22 % word_mod) (t * 2 ^ 12 % word_mod)) o

abbrev pub npdentries : ℕ
npdentries = 1024

abbrev pub nptentries : ℕ
nptentries = 1024

abbrev pub pgsize : ℕ
pgsize = 4096

abbrev pub ptsize : ℕ
ptsize = pgsize * nptentries

abbrev pub pte_p : ℕ
pte_p = 0x001

abbrev pub pte_w : ℕ
pte_w = 0x002

abbrev pub pte_u : ℕ
pte_u = 0x004

abbrev pub pte_pwt : ℕ
pte_pwt = 0x008

abbrev pub pte_pcd : ℕ
pte_pcd = 0x010

abbrev pub pte_avail : ℕ
pte_avail = 0xE00

abbrev pub pte_syscall : ℕ
pte_syscall = bit_or (bit_or (bit_or pte_avail pte_p) pte_w) pte_u

abbrev pub pte_addr : ℕ → ℕ
pte_addr pte = pte / 4096 * 4096

-- `*pte & PTE_P`, as a test
abbrev pub is_present : ℕ → Bool
is_present pte = pte % 2 == 1

-- `*pte & PTE_W`, as a test
abbrev pub is_writeable : ℕ → Bool
is_writeable pte = pte / 2 % 2 == 1

-- inc/memlayout.h

abbrev pub kernbase : ℕ
kernbase = 0xF0000000

abbrev pub iophysmem : ℕ
iophysmem = 0x0A0000

abbrev pub extphysmem : ℕ
extphysmem = 0x100000

abbrev pub kstacktop : ℕ
kstacktop = kernbase

abbrev pub kstksize : ℕ
kstksize = 8 * pgsize

abbrev pub kstkgap : ℕ
kstkgap = 8 * pgsize

abbrev pub mmiolim : ℕ
mmiolim = kstacktop - ptsize

abbrev pub mmiobase : ℕ
mmiobase = mmiolim - ptsize

abbrev pub ulim : ℕ
ulim = mmiobase

abbrev pub uvpt : ℕ
uvpt = ulim - ptsize

abbrev pub upages : ℕ
upages = uvpt - ptsize

abbrev pub uenvs : ℕ
uenvs = upages - ptsize

abbrev pub utop : ℕ
utop = uenvs

abbrev pub uxstacktop : ℕ
uxstacktop = utop

abbrev pub ustacktop : ℕ
ustacktop = utop - 2 * pgsize

abbrev pub utext : ℕ
utext = 2 * ptsize

abbrev pub utemp : ℕ
utemp = ptsize

abbrev pub pftemp : ℕ
pftemp = utemp + ptsize - pgsize

abbrev pub mpentry_paddr : ℕ
mpentry_paddr = 0x7000

-- inc/types.h

abbrev pub rounddown : ℕ → ℕ → ℕ
rounddown a n = a - a % n

abbrev pub roundup : ℕ → ℕ → ℕ
roundup a n = rounddown ((a + n + word_mod - 1) % word_mod) n
