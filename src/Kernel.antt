-- ===== src/Kernel.antt =====
-- What the parts of the kernel share: the error codes of inc/error.h and what a function returns.
use jos_lab.Base.{ℕ, ◌-◌, ◌%◌, ◌^◌}

pub data Error : Type 0 where
  e_unspecified : Error
  e_bad_env : Error
  e_inval : Error
  e_no_mem : Error
  e_no_free_env : Error
  e_fault : Error
  e_ipc_not_recv : Error
  e_eof : Error

-- An `int` result: a number from 0 on, or the negative of an error code.
pub data Reply : Type 0 where
  ret : ℕ → Reply
  err : Error → Reply

-- The numbers of inc/error.h.
abbrev pub code : Error → ℕ
code e_unspecified = 1
code e_bad_env = 2
code e_inval = 3
code e_no_mem = 4
code e_no_free_env = 5
code e_fault = 6
code e_ipc_not_recv = 7
code e_eof = 8

-- An `int` result as a 32-bit register holds it.
abbrev pub in_register : Reply → ℕ
in_register (ret n) = n % 2 ^ 32
in_register (err e) = 2 ^ 32 - code e
