-- ===== src/Kdebug/Eip.antt =====
-- `debuginfo_eip` of kern/kdebug.c. `view` is what the kernel reads at an address, the four symbols
-- of the linker are parameters, and `d` is the page directory of `curenv`. As in `Kdebug`, a right
-- end of the source is the number behind it here.
use jos_lab.Base.{
  ℕ, zero, suc, ◌+◌, ◌-◌, ◌*◌, ◌/◌, ◌%◌, Bool, not, ◌&&◌, ◌||◌, Option, none, some, ◌==◌, ltb, leb,
  if◌then◌else◌, Run, ok, stop, fault, ◌>>=◌,
}
use jos_lab.Mmu.{word_mod, ulim, pte_u}
use jos_lab.Kernel.{Reply, ret, err, e_unspecified}
use jos_lab.Strings.{Bytes, strfind}
use jos_lab.Pmap.{Mem}
use jos_lab.Pmap.User.{user_mem_check}
use jos_lab.Env.Load.{half_word, word}
use jos_lab.Kdebug.{Stab, stab_binsearch}

abbrev pub n_fun : ℕ
n_fun = 0x24

abbrev pub n_so : ℕ
n_so = 0x64

abbrev pub n_sol : ℕ
n_sol = 0x84

abbrev pub n_psym : ℕ
n_psym = 0xa0

-- inc/memlayout.h
abbrev pub ustabdata : ℕ
ustabdata = 0x200000

-- The symbols __STAB_BEGIN__, __STAB_END__, __STABSTR_BEGIN__ and __STABSTR_END__, or a
-- `struct UserStabData`.
pub record StabData : Type 0 where
  pub stabs : ℕ
  pub stab_end : ℕ
  pub stabstr : ℕ
  pub stabstr_end : ℕ

-- A string: "<unknown>", or the one at an address.
pub data Name : Type 0 where
  unknown : Name
  at : ℕ → Name

pub record Eipdebuginfo : Type 0 where
  pub eip_file : Name
  pub eip_line : ℕ
  pub eip_fn_name : Name
  pub eip_fn_namelen : ℕ
  pub eip_fn_addr : ℕ
  pub eip_fn_narg : ℕ

abbrev pub start_info : ℕ → Eipdebuginfo
start_info addr = record {
  eip_file = unknown;
  eip_line = 0;
  eip_fn_name = unknown;
  eip_fn_namelen = 9;
  eip_fn_addr = addr;
  eip_fn_narg = 0;
}

-- The table at an address; a stab has 12 bytes.
abbrev pub stab_at : Bytes → ℕ → ℕ → Stab
stab_at view base i =
    let p = base + i * 12 in
    record {
      n_strx = word view p;
      n_type = view (p + 4);
      n_other = view (p + 5);
      n_desc = half_word view (p + 6);
      n_value = word view (p + 8);
    }

-- `stab_end - stabs`, as a `size_t`.
abbrev pub elements : StabData → ℕ
elements t =
    if leb t.stabs t.stab_end
    then (t.stab_end - t.stabs) / 12
    else (word_mod - (t.stabs - t.stab_end) / 12) % word_mod

abbrev pub refused : Reply → Bool
refused (err e) = Bool.true
refused (ret n) = Bool.false

-- `next` if the check let its range through.
abbrev pub unless_refused :
    Run (Reply × Mem) → (Mem → Run (Option StabData × Mem)) → Run (Option StabData × Mem)
unless_refused check next = do (r, m) ← check; (if refused r then ok (none, m) else next m)

abbrev pub user_stab_data : Bytes → StabData
user_stab_data view = record {
  stabs = word view ustabdata;
  stab_end = word view (ustabdata + 4);
  stabstr = word view (ustabdata + 8);
  stabstr_end = word view (ustabdata + 12);
}

-- The tables for an address, or none if user memory is not accessible.
unfoldable pub find_tables : StabData → ℕ → Bytes → ℕ → Mem → Run (Option StabData × Mem)
unfolding user_mem_check
find_tables linked d view addr m =
    let usd = user_stab_data view in
    let size = (usd.stabstr_end + word_mod - usd.stabstr) % word_mod in
    if leb ulim addr
    then ok (some linked, m)
    else unless_refused (user_mem_check d ustabdata 16 pte_u m) λ m1.
      unless_refused (user_mem_check d usd.stabs (elements usd) pte_u m1)
        λ m2. unless_refused (user_mem_check d usd.stabstr size pte_u m2) λ m3. ok (some usd, m3)

-- The number of stabs from `lline` on, `k` at most, that are parameters.
unfoldable pub count_args : (ℕ → Stab) → ℕ → ℕ → ℕ
count_args stabs lline zero = 0
count_args stabs lline (suc k) =
    let rest = count_args stabs (lline + 1) k in
    if (stabs lline).n_type == n_psym then rest + 1 else 0

-- The loop back to a file name; `n` is `lline + 1`.
unfoldable pub back_to_file : (ℕ → Stab) → ℕ → ℕ → ℕ
back_to_file stabs lfile zero = zero
back_to_file stabs lfile (suc n) =
    let rest = back_to_file stabs lfile n in
    if leb lfile n
      && not ((stabs n).n_type == n_sol)
      && (not ((stabs n).n_type == n_so) || (stabs n).n_value == 0)
    then rest
    else suc n

abbrev pub string_at : StabData → (ℕ → Stab) → ℕ → Name → Name
string_at t stabs i old =
    if ltb (stabs i).n_strx (t.stabstr_end - t.stabstr)
    then at (t.stabstr + (stabs i).n_strx)
    else old

-- `strfind(name, ':') - name`.
unfoldable pub namelen : StabData → Bytes → Name → Run ℕ
unfolding strfind
namelen t view unknown = ok 9
namelen t view (at p) = do colon ← strfind (t.stabstr_end - p) p 58 view; ok (colon - p)

-- The name of the function, for the ends that the search for it left; `lfun` is one more than the
-- source's.
abbrev pub fn_name : StabData → (ℕ → Stab) → ℕ → ℕ → Name
fn_name t stabs lfun rfun = if leb lfun rfun then string_at t stabs (lfun - 1) unknown else unknown

unfoldable pub located : StabData → (ℕ → Stab) → ℕ → ℕ → ℕ → ℕ → ℕ → Eipdebuginfo
unfolding count_args back_to_file
located t stabs lfile lfun rfun addr length =
    let known = leb lfun rfun in
    let line = back_to_file stabs lfile (if known then lfun else lfile + 1) in
    record {
      eip_file = if ltb lfile line then string_at t stabs (line - 1) unknown else unknown;
      eip_line = 0;
      eip_fn_name = fn_name t stabs lfun rfun;
      eip_fn_namelen = length;
      eip_fn_addr = if known then (stabs (lfun - 1)).n_value else addr;
      eip_fn_narg = if ltb lfun rfun then count_args stabs lfun (rfun - 1 - lfun) else 0;
    }

-- From the search for the function on: the file is stab `lfile`, and its stabs end before `rfile`.
unfoldable pub in_file : StabData → Bytes → ℕ → ℕ → ℕ → Run Eipdebuginfo
unfolding located namelen stab_binsearch
in_file t view lfile rfile addr = do
  (lfun, rfun) ← stab_binsearch (stab_at view t.stabs) lfile rfile n_fun addr
  length ← namelen t view (fn_name t (stab_at view t.stabs) lfun rfun)
  ok (located t (stab_at view t.stabs) lfile lfun rfun addr length)

-- What follows the search for the file: `lfile` is one more than the source's, and `start` is what
-- `*info` holds. A file at index -1 makes the second search read in front of the table.
unfoldable pub from_file : StabData → Bytes → ℕ → ℕ → ℕ → Eipdebuginfo → Run (Reply × Eipdebuginfo)
unfolding in_file
from_file t view lfile rfile addr start =
    if lfile == 1
    then ok (err e_unspecified, start)
    else if lfile == 0
    then stop fault
    else (do info ← in_file t view (lfile - 1) rfile addr; ok (ret 0, info))

unfoldable pub in_tables : StabData → Bytes → ℕ → Run (Reply × Eipdebuginfo)
unfolding from_file stab_binsearch
in_tables t view addr =
    if leb t.stabstr_end t.stabstr || not (view (t.stabstr_end - 1) == 0)
    then ok (err e_unspecified, start_info addr)
    else (do
      (lfile, rfile) ←
          stab_binsearch (stab_at view t.stabs) 0 ((t.stab_end - t.stabs) / 12) n_so addr
      from_file t view lfile rfile addr (start_info addr))

abbrev pub tables_or_none : Option StabData → Bytes → ℕ → Run (Reply × Eipdebuginfo)
tables_or_none none view addr = ok (err e_unspecified, start_info addr)
tables_or_none (some t) view addr = in_tables t view addr

-- The result, `*info`, and the memory after the call.
unfoldable pub debuginfo_eip : StabData → ℕ → Bytes → ℕ → Mem → Run ((Reply × Eipdebuginfo) × Mem)
unfolding find_tables in_tables
debuginfo_eip linked d view addr m = do
  (found, after) ← find_tables linked d view addr m
  r ← tables_or_none found view addr
  ok (r, after)
