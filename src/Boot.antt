-- ===== src/Boot.antt =====
-- boot/main.c: the boot loader. The disk is a parameter, which gives the 512 bytes of the sector
-- that the five address ports select; physical memory is an array of bytes. Waiting for the disk is
-- left out.
pub mod Segments
use jos_lab.Base.{
  ℕ, zero, suc, ◌+◌, ◌-◌, ◌*◌, ◌/◌, ◌%◌, ◌^◌, ◌&&◌, not, bit_or, ◌==◌, ltb, leb, if◌then◌else◌, Run,
  ok, stop, out_of_fuel, ◌>>=◌,
}
use jos_lab.Mmu.{word_mod}
use jos_lab.Strings.{Bytes}
use jos_lab.Env.Load.{elf_magic, Elf, Proghdr, elf_at, proghdr_at}

abbrev pub sectsize : ℕ
sectsize = 512

-- The scratch space for the header.
abbrev pub elfhdr : ℕ
elfhdr = 0x10000

-- The sector that the drive finds in its registers: three bytes, and four bits of the fourth.
abbrev pub selected : ℕ → ℕ → ℕ → ℕ → ℕ
selected low mid high top = low + mid * 256 + high * 65536 + top % 16 * 16777216

unfoldable pub readsect : (ℕ → Bytes) → ℕ → ℕ → Bytes → Bytes
readsect disk dst offset m =
    let sector =
      selected (offset % 256) (offset / 256 % 256) (offset / 65536 % 256)
        (bit_or (offset / 16777216 % 256) 0xE0) in
    λ a. if leb dst a && ltb a (dst + sectsize) then disk sector (a - dst) else m a

-- The loop of `readseg`.
unfoldable pub read_sectors : ℕ → (ℕ → Bytes) → ℕ → ℕ → ℕ → Bytes → Run Bytes
unfolding readsect
read_sectors zero disk pa end_pa offset m = stop out_of_fuel
read_sectors (suc fuel) disk pa end_pa offset m =
    let rest =
      read_sectors fuel disk ((pa + sectsize) % word_mod) end_pa ((offset + 1) % word_mod)
        (readsect disk pa offset m) in
    if ltb pa end_pa then rest else ok m

-- One round more than the sectors of the range.
unfoldable pub readseg : (ℕ → Bytes) → ℕ → ℕ → ℕ → Bytes → Run Bytes
unfolding read_sectors
readseg disk pa count offset m =
    read_sectors ((pa % sectsize + count + 511) / 512 + 1) disk (pa - pa % sectsize)
      ((pa + count) % word_mod) (offset / sectsize + 1) m

-- The loop over the `n` program headers from address `ph` on.
unfoldable pub read_segments : ℕ → (ℕ → Bytes) → ℕ → Bytes → Run Bytes
unfolding readseg
read_segments zero disk ph m = ok m
read_segments (suc n) disk ph m = do
  loaded ←
      readseg disk (proghdr_at m ph).p_pa (proghdr_at m ph).p_memsz (proghdr_at m ph).p_offset m
  read_segments n disk (ph + 32) loaded

-- How `bootmain` ends: a jump to the entry point, or a halt at `bad`.
pub data Booted : Type 0 where
  jump : ℕ → Bytes → Booted
  bad : Bytes → Booted

-- What follows the read of the first page.
unfoldable pub enter : (ℕ → Bytes) → Bytes → Run Booted
unfolding read_segments
enter disk m =
    let header = elf_at (λ i. m (elfhdr + i)) in
    if not (header.e_magic == elf_magic) then ok (bad m) else (do
      loaded ← read_segments header.e_phnum disk (elfhdr + header.e_phoff) m
      ok (jump (elf_at (λ i. loaded (elfhdr + i))).e_entry loaded))

unfoldable pub bootmain : (ℕ → Bytes) → Bytes → Run Booted
unfolding readseg enter
bootmain disk m = do first ← readseg disk elfhdr (sectsize * 8) 0 m; enter disk first
