-- ===== src/Mmu/Descriptor.antt =====
-- Segment and gate descriptors: the `SEG`, `SEG16`, `SETGATE` and `SETCALLGATE` macros of
-- inc/mmu.h. The bit-fields are the record's fields, each cut to its width.
use jos_lab.Base.{ℕ, ◌+◌, ◌*◌, ◌/◌, ◌%◌, ◌^◌, ◌<◌, ◌≡◌, arith, Bool, ◌==◌, if◌then◌else◌}

pub record Segdesc : Type 0 where
  pub sd_lim_15_0 : ℕ
  pub sd_base_15_0 : ℕ
  pub sd_base_23_16 : ℕ
  pub sd_type : ℕ
  pub sd_s : ℕ
  pub sd_dpl : ℕ
  pub sd_p : ℕ
  pub sd_lim_19_16 : ℕ
  pub sd_avl : ℕ
  pub sd_rsv1 : ℕ
  pub sd_db : ℕ
  pub sd_g : ℕ
  pub sd_base_31_24 : ℕ

unfoldable pub seg : ℕ → ℕ → ℕ → ℕ → Segdesc
seg type base lim dpl = record {
  sd_lim_15_0 = lim / 2 ^ 12 % 2 ^ 16;
  sd_base_15_0 = base % 2 ^ 16;
  sd_base_23_16 = base / 2 ^ 16 % 2 ^ 8;
  sd_type = type % 2 ^ 4;
  sd_s = 1;
  sd_dpl = dpl % 2 ^ 2;
  sd_p = 1;
  sd_lim_19_16 = lim / 2 ^ 28 % 2 ^ 4;
  sd_avl = 0;
  sd_rsv1 = 0;
  sd_db = 1;
  sd_g = 1;
  sd_base_31_24 = base / 2 ^ 24 % 2 ^ 8;
}

unfoldable pub seg16 : ℕ → ℕ → ℕ → ℕ → Segdesc
seg16 type base lim dpl = record {
  sd_lim_15_0 = lim % 2 ^ 16;
  sd_base_15_0 = base % 2 ^ 16;
  sd_base_23_16 = base / 2 ^ 16 % 2 ^ 8;
  sd_type = type % 2 ^ 4;
  sd_s = 1;
  sd_dpl = dpl % 2 ^ 2;
  sd_p = 1;
  sd_lim_19_16 = lim / 2 ^ 16 % 2 ^ 4;
  sd_avl = 0;
  sd_rsv1 = 0;
  sd_db = 1;
  sd_g = 0;
  sd_base_31_24 = base / 2 ^ 24 % 2 ^ 8;
}

-- What the processor reads: the base, and the limit in bytes.
unfoldable pub base_of : Segdesc → ℕ
base_of s = s.sd_base_15_0 + s.sd_base_23_16 * 2 ^ 16 + s.sd_base_31_24 * 2 ^ 24

unfoldable pub limit_of : Segdesc → ℕ
limit_of s =
    let raw = s.sd_lim_15_0 + s.sd_lim_19_16 * 2 ^ 16 in
    if s.sd_g == 1 then raw * 4096 + 4095 else raw

pub record Gatedesc : Type 0 where
  pub gd_off_15_0 : ℕ
  pub gd_sel : ℕ
  pub gd_args : ℕ
  pub gd_rsv1 : ℕ
  pub gd_type : ℕ
  pub gd_s : ℕ
  pub gd_dpl : ℕ
  pub gd_p : ℕ
  pub gd_off_31_16 : ℕ

abbrev pub sts_cg32 : ℕ
sts_cg32 = 0xC

abbrev pub sts_ig32 : ℕ
sts_ig32 = 0xE

abbrev pub sts_tg32 : ℕ
sts_tg32 = 0xF

unfoldable pub setgate : Bool → ℕ → ℕ → ℕ → Gatedesc
setgate istrap sel off dpl = record {
  gd_off_15_0 = off % 2 ^ 16;
  gd_sel = sel % 2 ^ 16;
  gd_args = 0;
  gd_rsv1 = 0;
  gd_type = if istrap then sts_tg32 else sts_ig32;
  gd_s = 0;
  gd_dpl = dpl % 2 ^ 2;
  gd_p = 1;
  gd_off_31_16 = off / 2 ^ 16 % 2 ^ 16;
}

pub setcallgate : ℕ → ℕ → ℕ → Gatedesc
setcallgate sel off dpl = record {
  gd_off_15_0 = off % 2 ^ 16;
  gd_sel = sel % 2 ^ 16;
  gd_args = 0;
  gd_rsv1 = 0;
  gd_type = sts_cg32;
  gd_s = 0;
  gd_dpl = dpl % 2 ^ 2;
  gd_p = 1;
  gd_off_31_16 = off / 2 ^ 16 % 2 ^ 16;
}

-- Where the processor jumps.
unfoldable pub offset_of : Gatedesc → ℕ
offset_of g = g.gd_off_15_0 + g.gd_off_31_16 * 2 ^ 16

-- For a 32-bit base and limit, the processor reads back from a `SEG` descriptor the base and the
-- limit rounded up to the end of its page, and from a `SEG16` descriptor the base and the limit
-- modulo 2 ^ 20; for a 32-bit handler address, it reads that address back from the
-- gates of `SETGATE` and of `SETCALLGATE`.
pub descriptors_read_back :
    (istrap : Bool) (type base lim dpl sel off : ℕ)
    → base < 2 ^ 32
    → lim < 2 ^ 32
    → off < 2 ^ 32
    → (base_of (seg type base lim dpl) ≡ base)
      × (limit_of (seg type base lim dpl) ≡ lim / 4096 * 4096 + 4095)
      × (base_of (seg16 type base lim dpl) ≡ base)
      × (limit_of (seg16 type base lim dpl) ≡ lim % 2 ^ 20)
      × (offset_of (setgate istrap sel off dpl) ≡ off)
      × (offset_of (setcallgate sel off dpl) ≡ off)
unfolding base_of limit_of offset_of seg seg16 setgate setcallgate
descriptors_read_back istrap type base lim dpl sel off hb hl ho =
    (omega arith, omega arith, omega arith, omega arith, omega arith, omega arith)
