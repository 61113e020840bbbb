-- ===== src/Base/Runs.antt =====
-- Runs that may stop: a kernel panic, or a fault (a store through a null pointer).
pub data Halt : Type 0 where
  panic : Halt
  fault : Halt
  out_of_fuel : Halt

pub data Run {ℓ} (A : Type ℓ) : Type ℓ where
  ok : A → Run A
  stop : Halt → Run A

infixl 5 ◌>>=◌
abbrev pub ◌>>=◌ {ℓ κ} : {A : Type ℓ} {B : Type κ} → Run A → (A → Run B) → Run B
ok a >>= f = f a
stop h >>= f = stop h

infixl 5 ◌>>◌
abbrev pub ◌>>◌ {ℓ} : {B : Type ℓ} → Run (Unit {0}) → Run B → Run B
m >> k = m >>= λ _. k
