-- ===== src/Mmu/Address.antt =====
-- The parts of a linear address, and rounding to pages.
use jos_lab.Base.{ℕ, ◌+◌, ◌*◌, ◌%◌, ◌^◌, ◌≤◌, ◌<◌, ◌≡◌, arith, bit_or, bit_or-add}
use jos_lab.Mmu.{word_mod, pdx, ptx, pgoff, pgaddr, pgsize, rounddown, roundup}

pub pgaddr_sum :
    (d t o : ℕ) → d < 1024 → t < 1024 → o < 4096 → pgaddr d t o ≡ d * 2 ^ 22 + t * 2 ^ 12 + o
unfolding pgaddr
pgaddr_sum d t o hd ht ho =
    let ed : d * 2 ^ 22 % word_mod ≡ d * 2 ^ 22 = omega arith in
    let et : t * 2 ^ 12 % word_mod ≡ t * 2 ^ 12 = omega arith in
    let inner : bit_or (d * 2 ^ 22) (t * 2 ^ 12) ≡ (d * 1024 + t) * 2 ^ 12 =
      omega (arith, bit_or-add 22 d (t * 2 ^ 12) (omega arith)) in
    rw (ed, et, inner) (omega (arith, bit_or-add 12 (d * 1024 + t) o ho))

-- `PGADDR` undoes `PDX`, `PTX` and `PGOFF` on every linear address, and they undo it on every
-- choice of two table indices and an offset.
pub pgaddr-parts :
    (la d t o : ℕ)
    → la < word_mod
    → d < 1024
    → t < 1024
    → o < 4096
    → (pgaddr (pdx la) (ptx la) (pgoff la) ≡ la)
      × (pdx (pgaddr d t o) ≡ d)
      × (ptx (pgaddr d t o) ≡ t)
      × (pgoff (pgaddr d t o) ≡ o)
pgaddr-parts la d t o hla hd ht ho =
    let e = pgaddr_sum (pdx la) (ptx la) (pgoff la) (omega arith) (omega arith) (omega arith) in
    let s = pgaddr_sum d t o hd ht ho in (omega arith, omega arith, omega arith, omega arith)

-- Away from the top page, `ROUNDDOWN` and `ROUNDUP` to the page size give the nearest multiples
-- of it below and above.
pub round_bounds :
    (a : ℕ)
    → a + pgsize ≤ word_mod
    → (rounddown a pgsize ≤ a)
      × (a < rounddown a pgsize + pgsize)
      × (rounddown a pgsize % pgsize ≡ 0)
      × (a ≤ roundup a pgsize)
      × (roundup a pgsize < a + pgsize)
      × (roundup a pgsize % pgsize ≡ 0)
round_bounds a h = omega arith
