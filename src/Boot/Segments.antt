-- ===== src/Boot/Segments.antt =====
-- `readseg` of boot/main.c: what it reads, and what it leaves alone.
use jos_lab.Base.{
  ℕ, zero, suc, ◌+◌, ◌-◌, ◌*◌, ◌/◌, ◌%◌, ◌^◌, ◌≤◌, ◌<◌, ◌≡◌, ◌⊎◌, refl, ap, ◌∙◌, inl, inr, true,
  false, ◌&&◌, bit_or, ltb, leb, lt→ltb, if◌then◌else◌, Bool-cases, ok, arith,
}
use jos_lab.Mmu.{word_mod}
use jos_lab.Strings.{Bytes}
use jos_lab.Boot.{readsect, selected, read_sectors, readseg}

module _ (disk : ℕ → Bytes) where
  readsect-lem :
      (dst offset : ℕ) (m : Bytes) (a : ℕ)
      → offset < 2 ^ 24
      → readsect disk dst offset m a
        ≡ (if leb dst a && ltb a (dst + 512) then disk offset (a - dst) else m a)
  unfolding readsect
  readsect-lem dst offset m a small =
      let top : offset / 16777216 % 256 ≡ 0 = omega arith in
      let sector : selected (offset % 256) (offset / 256 % 256) (offset / 65536 % 256)
            (bit_or (offset / 16777216 % 256) 0xE0)
          ≡ offset =
        rw top (omega arith) in
      ap (λ f. if leb dst a && ltb a (dst + 512) then disk f (a - dst) else m a) sector

  -- The bytes of `n` sectors, from sector `s` on, at address `pa`.
  abbrev image : ℕ → ℕ → ℕ → Bytes → Bytes
  image pa s n m a =
      if leb pa a && ltb a (pa + n * 512) then disk (s + (a - pa) / 512) ((a - pa) % 512) else m a

  -- A sector and the sectors behind it.
  image_join :
      (pa s n a : ℕ) (m : Bytes)
      → (if leb (pa + 512) a && ltb a (pa + 512 + n * 512)
          then disk (s + 1 + (a - (pa + 512)) / 512) ((a - (pa + 512)) % 512)
          else if leb pa a && ltb a (pa + 512)
          then disk s (a - pa)
          else m a)
        ≡ image pa s (suc n) m a
  image_join pa s n a m = elim (Bool-cases (ltb a (pa + 512))) [
    | inl first ↦
        let before : leb (pa + 512) a ≡ false = ground arith in
        elim (Bool-cases (leb pa a)) [
          | inl here ↦
              let within : ltb a (pa + suc n * 512) ≡ true = ground arith in
              let sector : (a - pa) / 512 ≡ 0 = ground arith in
              let byte : (a - pa) % 512 ≡ a - pa = ground arith in
              let same : s + 0 ≡ s = omega arith in
              rw (before, here, first, within, sector, byte, same) refl
          | inr low ↦ rw (before, low) refl
        ]
    | inr later ↦
        let behind : leb (pa + 512) a ≡ true = ground arith in
        let above : leb pa a ≡ true = ground arith in
        let test : ltb a (pa + 512 + n * 512) ≡ ltb a (pa + suc n * 512) =
          ap (λ x. ltb a x) (omega arith) in
        let sector : s + (a - pa) / 512 ≡ s + 1 + (a - (pa + 512)) / 512 = ground arith in
        let byte : (a - pa) % 512 ≡ (a - (pa + 512)) % 512 = ground arith in
        rw (behind, above, later, test, sector, byte) refl
  ]

  read_sectors-step :
      (fuel pa end_pa s : ℕ) (m : Bytes)
      → ltb pa end_pa ≡ true
      → pa + 512 < 2 ^ 32
      → s + 1 < 2 ^ 32
      → read_sectors (suc fuel) disk pa end_pa s m
        ≡ read_sectors fuel disk (pa + 512) end_pa (s + 1) (readsect disk pa s m)
  unfolding read_sectors
  read_sectors-step fuel pa end_pa s m more low small =
      let next : (pa + 512) % word_mod ≡ pa + 512 = omega (arith, low) in
      let sector : (s + 1) % word_mod ≡ s + 1 = omega (arith, small) in rw (more, next, sector) refl

  read_sectors-image :
      (fuel n pa end_pa s : ℕ) (m : Bytes)
      → n < fuel
      → pa + n * 512 < 2 ^ 32
      → s + n < 2 ^ 24
      → end_pa ≤ pa + n * 512
      → pa + n * 512 < end_pa + 512
      → (m' : Bytes) × (read_sectors fuel disk pa end_pa s m ≡ ok m')
        × ((a : ℕ) → m' a ≡ image pa s n m a)
  unfolding read_sectors
  read_sectors-image zero n pa end_pa s m enough low small above near = absurd (omega arith)
  read_sectors-image (suc fuel) zero pa end_pa s m enough low small above near =
      let done : ltb pa end_pa ≡ false = ground arith in (m, rw done refl, λ a. ground arith)
  read_sectors-image (suc fuel) (suc n) pa end_pa s m enough low small above near =
      let more : ltb pa end_pa ≡ true = ground arith in
      let (m', runs, reads) =
        read_sectors-image fuel n (pa + 512) end_pa (s + 1) (readsect disk pa s m)
          (omega (arith, enough)) (omega (arith, low)) (omega (arith, small)) (omega (arith, above))
          (omega (arith, near)) in
      (
        m',
        read_sectors-step fuel pa end_pa s m more (omega (arith, low)) (omega (arith, small))
            ∙ runs,
        λ a.
            reads a
            ∙ ap
                (λ x.
                  if leb (pa + 512) a && ltb a (pa + 512 + n * 512)
                  then disk (s + 1 + (a - (pa + 512)) / 512) ((a - (pa + 512)) % 512)
                  else x)
                (readsect-lem pa s m a (omega (arith, small)))
            ∙ image_join pa s n a m,
      )

not-ltb : (a b : ℕ) → b ≤ a → ltb a b ≡ false
not-ltb a b h = ground arith

readseg_runs :
    (disk : ℕ → Bytes) (pa count offset : ℕ) (m : Bytes)
    → pa + count + 511 < 2 ^ 32
    → offset / 512 + (count + 1022) / 512 + 1 < 2 ^ 24
    → (m' : Bytes) × (readseg disk pa count offset m ≡ ok m')
      × ((a : ℕ)
          → m' a
            ≡ image disk (pa - pa % 512) (offset / 512 + 1) ((pa % 512 + count + 511) / 512) m a)
unfolding readseg
readseg_runs disk pa count offset m low small =
    let end : (pa + count) % word_mod ≡ pa + count = omega (arith, low) in
    let n : ℕ = (pa % 512 + count + 511) / 512 in
    let (m', runs, reads) =
      read_sectors-image disk (n + 1) n (pa - pa % 512) (pa + count) (offset / 512 + 1) m
        (omega arith) (omega (arith, low)) (omega (arith, small)) (omega arith) (omega arith) in
    (
      m',
      ap (λ e. read_sectors (n + 1) disk (pa - pa % 512) e (offset / 512 + 1) m) end ∙ runs,
      reads,
    )

-- For a range below 2 ^ 32 and sectors below 2 ^ 24, at an address that lies as far into its
-- sector as the offset does: `readseg` returns, every byte of the range holds the byte of the
-- kernel image at that distance from the offset, where the image starts at sector 1, and no byte
-- outside of the sectors of the range is changed.
pub readseg_lem :
    (disk : ℕ → Bytes) (pa count offset : ℕ) (m : Bytes)
    → pa + count + 511 < 2 ^ 32
    → offset / 512 + (count + 1022) / 512 + 1 < 2 ^ 24
    → pa % 512 ≡ offset % 512
    → (m' : Bytes) × (readseg disk pa count offset m ≡ ok m')
      × ((i : ℕ) → i < count → m' (pa + i) ≡ disk ((offset + i) / 512 + 1) ((offset + i) % 512))
      × ((a : ℕ) → (a < pa / 512 * 512) ⊎ ((pa + count + 511) / 512 * 512 ≤ a) → m' a ≡ m a)
readseg_lem disk pa count offset m low small aligned =
    let (m', runs, reads) = readseg_runs disk pa count offset m low small in
    (
      m',
      runs,
      λ i lt.
          let from : leb (pa - pa % 512) (pa + i) ≡ true = ground arith in
          let to : ltb (pa + i) (pa - pa % 512 + (pa % 512 + count + 511) / 512 * 512) ≡ true =
            lt→ltb (pa + i) _ (omega (arith, lt)) in
          let sector : offset / 512 + 1 + (pa + i - (pa - pa % 512)) / 512
              ≡ (offset + i) / 512 + 1 =
            omega (arith, aligned) in
          let byte : (pa + i - (pa - pa % 512)) % 512 ≡ (offset + i) % 512 =
            omega (arith, aligned) in
          reads (pa + i) ∙ rw (from, to, sector, byte) refl,
      λ a out. reads a ∙ elim out [
        | inl before ↦ let miss : leb (pa - pa % 512) a ≡ false = ground arith in rw miss refl
        | inr behind ↦
            let from : leb (pa - pa % 512) a ≡ true = ground arith in
            let miss : ltb a (pa - pa % 512 + (pa % 512 + count + 511) / 512 * 512) ≡ false =
              not-ltb a _ (omega (arith, behind)) in
            rw (from, miss) refl
      ],
    )
