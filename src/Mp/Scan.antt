-- ===== src/Mp/Scan.antt =====
-- What the search for the MP pointer finds, and the table of CPUs that `mp_init` leaves.
use mathlib.Core.Path.{subst, sym}
use jos_lab.Base.{
  ℕ, zero, suc, ◌+◌, ◌-◌, ◌*◌, ◌/◌, ◌≤◌, ◌<◌, ◌≡◌, ◌⊎◌, inl, inr, refl, true, false, not, ◌&&◌,
  ◌||◌, Option, none, some, ◌==◌, ltb, leb, Bool-cases, Run, ok, stop, panic, ◌>>=◌, arith,
}
use jos_lab.Strings.{Bytes}
use jos_lab.Mp.{
  is_pointer, scan, mapped, mpsearch1, or_bios, mpsearch, is_conf, pointer_at, conf_at, table_of,
  mpconfig, Cpus, ncpu_limit, processor, entries, settle, init_with, mp_init,
}

-- The first place of `n`, 16 bytes apart, from `a` on, that holds a pointer with its signature and
-- checksum, or none of them does.
abbrev pub Found : ℕ → ℕ → Bytes → Option ℕ → Type 0
Found n a m none = (i : ℕ) → i < n → is_pointer (a + 16 * i) m ≡ false
Found n a m (some b) =
    (i : ℕ) × (i < n)
    × (b ≡ a + 16 * i)
    × (is_pointer b m ≡ true)
    × ((j : ℕ) → j < i → is_pointer (a + 16 * j) m ≡ false)

later :
    (n a : ℕ) (m : Bytes) (o : Option ℕ)
    → is_pointer a m ≡ false
    → Found n (a + 16) m o
    → Found (suc n) a m o
later n a m none h f = λ i lt. elim (Bool-cases (i == 0)) [
  | inl e ↦ let z : a + 16 * i ≡ a = ground arith in rw z h
  | inr e ↦
      let s : a + 16 * i ≡ a + 16 + 16 * (i - 1) = ground arith in rw s (f (i - 1) (ground arith))
]
later n a m (some b) h (i, lt, at, good, before) = (
  i + 1,
  omega arith,
  omega arith,
  good,
  λ j l. elim (Bool-cases (j == 0)) [
    | inl e ↦ let z : a + 16 * j ≡ a = ground arith in rw z h
    | inr e ↦
        let s : a + 16 * j ≡ a + 16 + 16 * (j - 1) = ground arith in
        rw s (before (j - 1) (ground arith))
  ],
)

scan-Found : (n a : ℕ) (m : Bytes) → Found n a m (scan n a m)
unfolding scan
scan-Found zero a m = λ i lt. absurd (omega arith)
scan-Found (suc n) a m = elim (Bool-cases (is_pointer a m)) [
  | inl h ↦ rw h (0, omega arith, omega arith, h, λ j l. absurd (omega arith))
  | inr h ↦ rw h (later n a m (scan n (a + 16) m) h (scan-Found n (a + 16) m))
]

-- A table of CPUs: at most eight, each with its index as its id; the boot CPU is named by an index
-- from 0 to 8.
pub record IsTable (c : Cpus) : Type 0 where
  pub few : c.ncpu ≤ ncpu_limit
  pub ids : (i : ℕ) → (i < c.ncpu) ⊎ (i ≡ 0) → c.cpu_id i ≡ i
  pub boot : c.bootcpu ≤ ncpu_limit

processor-IsTable : (p : ℕ) (m : Bytes) (c : Cpus) → IsTable c → IsTable (processor p m c)
processor-IsTable p m c v = elim (Bool-cases (ltb c.ncpu ncpu_limit)) [
  | inl room ↦ rw room (record {
    few = ground arith;
    ids = λ i h. elim (Bool-cases (i == c.ncpu)) [
      | inl e ↦ rw e (ground arith)
      | inr e ↦ rw e (v.ids i (elim h [ inl l ↦ inl (ground arith) | inr z ↦ inr z ]))
    ];
    boot = ground (arith, v.few, v.boot);
  })
  | inr full ↦ rw full (record { few = v.few; ids = v.ids; boot = ground (arith, v.few, v.boot) })
]

entries-IsTable : (n p : ℕ) (m : Bytes) (c : Cpus) → IsTable c → IsTable (entries n p m c)
unfolding entries
entries-IsTable zero p m c v = v
entries-IsTable (suc n) p m c v = elim (Bool-cases (m p == 0)) [
  | inl cpu ↦ rw cpu (entries-IsTable n (p + 20) m (processor p m c) (processor-IsTable p m c v))
  | inr no_cpu ↦ elim (Bool-cases (leb (m p) 4)) [
    | inl other ↦ rw (no_cpu, other) (entries-IsTable n (p + 8) m c v)
    | inr unknown ↦ rw (no_cpu, unknown) (record { few = v.few; ids = v.ids; boot = v.boot })
  ]
]

settle-IsTable : (c : Cpus) → IsTable c → IsTable (settle c)
settle-IsTable c v = elim (Bool-cases (c.ismp)) [
  | inl yes_mp ↦ rw yes_mp (record { few = v.few; ids = v.ids; boot = v.boot })
  | inr no_mp ↦ rw no_mp (record {
    few = omega arith;
    ids = λ i h. v.ids i (inr (elim h [ inl l ↦ omega (arith, l) | inr z ↦ z ]));
    boot = v.boot;
  })
]

init_with-IsTable :
    (m : Bytes) (c : Cpus) (o : Option (ℕ × ℕ)) → IsTable c → IsTable (init_with m c o)
init_with-IsTable m c none v = v
init_with-IsTable m c (some (mp, conf)) v = settle-IsTable _ (
    entries-IsTable (conf_at m conf).entry (conf + 44) m _
      (record { few = v.few; ids = v.ids; boot = v.boot }))

-- A run that comes to a panic or to a result.
abbrev Settles : {A : Type 0} → Run A → Type 0
Settles {A} r = (r ≡ stop panic) ⊎ ((a : A) × (r ≡ ok a))

then-Settles :
    {A B : Type 0} (r : Run A) (f : A → Run B)
    → Settles r
    → ((a : A) → Settles (f a))
    → Settles (r >>= f)
then-Settles r f (inl e) h = inl (rw e refl)
then-Settles r f (inr (a, e)) h = subst (λ x. Settles (x >>= f)) (sym e) (h a)

mpsearch1-Settles : (npages a len : ℕ) (m : Bytes) → Settles (mpsearch1 npages a len m)
unfolding mpsearch1
mpsearch1-Settles npages a len m = elim (Bool-cases (mapped npages a && mapped npages (a + len))) [
  | inl h ↦ inr (scan ((len + 15) / 16) a m, rw h refl)
  | inr h ↦ inl (rw h refl)
]

or_bios-Settles : (npages : ℕ) (m : Bytes) (o : Option ℕ) → Settles (or_bios npages m o)
or_bios-Settles npages m none = mpsearch1-Settles npages 0xF0000 0x10000 m
or_bios-Settles npages m (some mp) = inr (some mp, refl)

table_of-Settles : (npages : ℕ) (m : Bytes) (o : Option ℕ) → Settles (table_of npages m o)
table_of-Settles npages m none = inr (none, refl)
table_of-Settles npages m (some mp) =
    let p = pointer_at m mp in
    elim (Bool-cases ((p.physaddr == 0) || not (p.type == 0))) [
      | inl default ↦ inr (none, rw default refl)
      | inr given ↦ elim (Bool-cases (mapped npages p.physaddr)) [
        | inr away ↦ inl (rw (given, away) refl)
        | inl there ↦ elim (Bool-cases (is_conf p.physaddr m)) [
          | inl good ↦ inr (some (mp, p.physaddr), rw (given, there, good) refl)
          | inr bad ↦ inr (none, rw (given, there, bad) refl)
        ]
      ]
    ]

mpconfig-Settles : (npages : ℕ) (m : Bytes) → Settles (mpconfig npages m)
unfolding mpconfig mpsearch
mpconfig-Settles npages m =
    then-Settles (mpsearch npages m) (table_of npages m)
      (then-Settles _ (or_bios npages m) (mpsearch1-Settles npages _ 1024 m)
        (or_bios-Settles npages m))
      (table_of-Settles npages m)

-- Whatever the BIOS tables hold, `mp_init` on a table of CPUs as it is at the start (no CPU, ids 0)
-- panics, since an address of the tables is in no page, or returns with a table of at most eight
-- CPUs in which the id of each is its index; the boot CPU has an index from 0 to 8.
pub mp_init_lem :
    (npages : ℕ) (m : Bytes) (c : Cpus)
    → IsTable c
    → (mp_init npages m c ≡ stop panic) ⊎ ((c' : Cpus) × (mp_init npages m c ≡ ok c') × IsTable c')
unfolding mp_init
mp_init_lem npages m c v = elim (mpconfig-Settles npages m) [
  | inl e ↦ inl (rw e refl)
  | inr (o, e) ↦ inr (
    init_with m (record c { bootcpu = 0 }) o,
    rw e refl,
    init_with-IsTable m (record c { bootcpu = 0 }) o
        (record { few = v.few; ids = v.ids; boot = omega arith }),
  )
]
