-- ===== src/Examples/Library.antt =====
-- The user-level library, start-up, the line editor and the CPU table, on concrete states.
use jos_lab.Base.{
  ◌*◌, ◌≡◌, ◌⊎◌, refl, true, false, some, [], ◌∷◌, arith, ◌==◌, if◌then◌else◌, ok, stop, panic,
}
use jos_lab.Mmu.{is_writeable}
use jos_lab.Pmap.{Mem}
use jos_lab.Pmap.Space.{translate}
use jos_lab.Start.{entry_pgdir, entry_pgtable, entry_of, window, entry_pgdir_lem}
use jos_lab.Mp.{Cpus, mp_init}
use jos_lab.Mp.Scan.{IsTable, mp_init_lem}
use jos_lab.Monitor.{readline}
use jos_lab.Monitor.Line.{Agrees, edited, readline-edited}
use jos_lab.Examples.Machine.{empty_mem}

readline-edited_example :
    Agrees
      (λ a. 7)
      (readline (some 97 ∷ some 98 ∷ some 8 ∷ some 99 ∷ some 10 ∷ []) (λ a. 7))
      (edited (some 97 ∷ some 98 ∷ some 8 ∷ some 99 ∷ some 10 ∷ []) [])
readline-edited_example =
    readline-edited (some 97 ∷ some 98 ∷ some 8 ∷ some 99 ∷ some 10 ∷ []) (λ a. 7)

abbrev no_cpus : Cpus
no_cpus = record {
  cpu_id = λ i. 0;
  started = λ i. false;
  bootcpu = 0;
  ismp = false;
  ncpu = 0;
  lapicaddr = 0;
  overrun = false;
}

mp_init_lem_example :
    (mp_init 16 (λ a. 0) no_cpus ≡ stop panic)
    ⊎ ((c' : Cpus) × (mp_init 16 (λ a. 0) no_cpus ≡ ok c') × IsTable c')
mp_init_lem_example =
    mp_init_lem 16 (λ a. 0) no_cpus
      (record { few = omega arith; ids = λ i h. ground arith; boot = omega arith })

-- Frame 1 holds the directory, frame 4 the table.
abbrev start_mem : Mem
start_mem = record empty_mem {
  word = λ f j. if f == 1 then entry_pgdir (4 * 4096) j else entry_pgtable j;
}

entry_pgdir_lem_example :
    (translate start_mem 1 0xf0100123 ≡ entry_of (window 0xf0100123))
    × (is_writeable (start_mem.word 1 0) ≡ false)
    × (is_writeable (start_mem.word 1 960) ≡ true)
entry_pgdir_lem_example =
    entry_pgdir_lem start_mem 1 4 0xf0100123 (omega arith)
      (record { dir = λ i h. refl; table = λ i h. refl }) (omega arith)
