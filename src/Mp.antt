-- ===== src/Mp.antt =====
-- kern/mpconfig.c and kern/cpu.h: the search for the MP tables of the BIOS and the table of CPUs.
-- Physical memory is a memory of bytes; `KADDR` panics for a page that does not exist.
pub mod Scan
use jos_lab.Base.{
  ℕ, zero, suc, ◌+◌, ◌-◌, ◌*◌, ◌/◌, ◌%◌, ◌^◌, Bool, true, false, not, ◌&&◌, ◌||◌, Option, none,
  some, ◌==◌, ltb, leb, if◌then◌else◌, update, Run, ok, stop, panic, ◌>>=◌,
}
use jos_lab.Strings.{Bytes}

abbrev pub ncpu_limit : ℕ
ncpu_limit = 8

abbrev pub half : Bytes → ℕ → ℕ
half m a = m a + m (a + 1) * 256

abbrev pub full : Bytes → ℕ → ℕ
full m a = half m a + half m (a + 2) * 65536

-- The MP floating pointer, by the fields that are read.
pub record MpPointer : Type 0 where
  pub physaddr : ℕ
  pub type : ℕ
  pub imcrp : ℕ

abbrev pub pointer_at : Bytes → ℕ → MpPointer
pointer_at m a = record { physaddr = full m (a + 4); type = m (a + 11); imcrp = m (a + 12) }

-- The header of the MP configuration table, by the fields that are read.
pub record MpConf : Type 0 where
  pub length : ℕ
  pub version : ℕ
  pub entry : ℕ
  pub lapicaddr : ℕ
  pub xlength : ℕ
  pub xchecksum : ℕ

abbrev pub conf_at : Bytes → ℕ → MpConf
conf_at m a = record {
  length = half m (a + 4);
  version = m (a + 6);
  entry = half m (a + 34);
  lapicaddr = full m (a + 36);
  xlength = half m (a + 40);
  xchecksum = m (a + 42);
}

-- `sum`, with the bytes that are left and the sum so far.
unfoldable pub sum_from : ℕ → ℕ → ℕ → Bytes → ℕ
sum_from zero a acc m = acc % 256
sum_from (suc len) a acc m = sum_from len (a + 1) (acc + m a) m

abbrev pub sum : ℕ → ℕ → Bytes → ℕ
sum a len m = sum_from len a 0 m

abbrev pub is_text : ℕ → ℕ → ℕ → ℕ → ℕ → Bytes → Bool
is_text a b c d at m =
    ((m at == a) && (m (at + 1) == b)) && ((m (at + 2) == c) && (m (at + 3) == d))

-- "_MP_" with a checksum of 0
abbrev pub is_pointer : ℕ → Bytes → Bool
is_pointer a m = is_text 95 77 80 95 a m && (sum a 16 m == 0)

-- The loop of `mpsearch1`, with the 16-byte steps that are left.
unfoldable pub scan : ℕ → ℕ → Bytes → Option ℕ
unfolding sum_from
scan zero a m = none
scan (suc n) a m = let rest = scan n (a + 16) m in if is_pointer a m then some a else rest

abbrev pub mapped : ℕ → ℕ → Bool
mapped npages a = ltb (a / 4096) npages

unfoldable pub mpsearch1 : ℕ → ℕ → ℕ → Bytes → Run (Option ℕ)
unfolding scan
mpsearch1 npages a len m =
    if mapped npages a && mapped npages (a + len)
    then ok (scan ((len + 15) / 16) a m)
    else stop panic

-- The second place that is looked at, if the first holds nothing.
abbrev pub or_bios : ℕ → Bytes → Option ℕ → Run (Option ℕ)
or_bios npages m (some mp) = ok (some mp)
or_bios npages m none = mpsearch1 npages 0xF0000 0x10000 m

unfoldable pub mpsearch : ℕ → Bytes → Run (Option ℕ)
unfolding mpsearch1
mpsearch npages m =
    let ebda = half m (0x400 + 0x0E) * 16 in
    let base = half m (0x400 + 0x13) * 1024 in
    mpsearch1 npages (if half m (0x400 + 0x0E) == 0 then (base + 2 ^ 32 - 1024) % 2 ^ 32 else ebda)
      1024 m
    >>= or_bios npages m

-- The checks of the table at `conf` that `mpconfig` makes.
abbrev pub is_conf : ℕ → Bytes → Bool
is_conf conf m =
    let c = conf_at m conf in
    (is_text 80 67 77 80 conf m && (sum conf c.length m == 0))
    && (((c.version == 1) || (c.version == 4))
        && (sum (conf + c.length) c.xlength m == c.xchecksum))

-- `mpconfig` with the pointer that was found: the pointer and the table.
abbrev pub table_of : ℕ → Bytes → Option ℕ → Run (Option (ℕ × ℕ))
table_of npages m none = ok none
table_of npages m (some mp) =
    let p = pointer_at m mp in
    if (p.physaddr == 0) || not (p.type == 0)
    then ok none
    else if not (mapped npages p.physaddr)
    then stop panic
    else if is_conf p.physaddr m
    then ok (some (mp, p.physaddr))
    else ok none

unfoldable pub mpconfig : ℕ → Bytes → Run (Option (ℕ × ℕ))
unfolding mpsearch
mpconfig npages m = mpsearch npages m >>= table_of npages m

-- The variables: `cpu_id` and `started` are fields of `cpus`; `bootcpu` is an index into it.
-- `overrun` says that a store hit the memory behind `cpus`.
pub record Cpus : Type 0 where
  pub cpu_id : ℕ → ℕ
  pub started : ℕ → Bool
  pub bootcpu : ℕ
  pub ismp : Bool
  pub ncpu : ℕ
  pub lapicaddr : ℕ
  pub overrun : Bool

-- MPPROC: 20 bytes, with the flags at 3.
abbrev pub processor : ℕ → Bytes → Cpus → Cpus
processor p m c =
    let boot = if m (p + 3) / 2 % 2 == 1 then c.ncpu else c.bootcpu in
    if ltb c.ncpu ncpu_limit
    then record c { bootcpu = boot; cpu_id = update c.cpu_id c.ncpu c.ncpu; ncpu = c.ncpu + 1 }
    else record c { bootcpu = boot }

-- The loop over the entries, with those that are left; another type of entry ends it.
unfoldable pub entries : ℕ → ℕ → Bytes → Cpus → Cpus
entries zero p m c = c
entries (suc n) p m c =
    let after_cpu = entries n (p + 20) m (processor p m c) in
    let after_other = entries n (p + 8) m c in
    if m p == 0 then after_cpu else if leb (m p) 4 then after_other else record c { ismp = false }

-- The end of `mp_init`, less the switch of the IMCR, which is port output. A `bootcpu` behind the
-- table is written to all the same; what stands there is not known.
abbrev pub settle : Cpus → Cpus
settle c =
    let s = record c {
      started = λ i. if (i == c.bootcpu) && ltb i ncpu_limit then true else c.started i;
      overrun = c.overrun || leb ncpu_limit c.bootcpu;
    } in
    if c.ismp then s else record s { ncpu = 1; lapicaddr = 0 }

abbrev pub init_with : Bytes → Cpus → Option (ℕ × ℕ) → Cpus
init_with m c none = c
init_with m c (some (mp, conf)) = settle (
    entries (conf_at m conf).entry (conf + 44) m
      (record c { ismp = true; lapicaddr = (conf_at m conf).lapicaddr }))

unfoldable pub mp_init : ℕ → Bytes → Cpus → Run Cpus
unfolding mpconfig entries
mp_init npages m c = do table ← mpconfig npages m; ok (init_with m (record c { bootcpu = 0 }) table)
