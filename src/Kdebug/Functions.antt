-- ===== src/Kdebug/Functions.antt =====
-- `debuginfo_eip` of kern/kdebug.c in the kernel's own tables: the function that it finds.
use jos_lab.Base.{
  ℕ, zero, suc, ◌+◌, ◌-◌, ◌/◌, ◌≤◌, ◌<◌, ◌≡◌, ◌≢◌, ◌⊎◌, refl, ap, ◌∙◌, inl, inr, true, false, not,
  ◌||◌, ◌==◌, ltb, leb, le→leb, ltb→lt, Bool-cases, ok, arith,
}
use jos_lab.Mmu.{word_mod, ulim}
use jos_lab.Kernel.{ret}
use jos_lab.Strings.{Bytes, strfind}
use jos_lab.Pmap.{Mem}
use jos_lab.Kdebug.{Stab, stab_binsearch}
use jos_lab.Kdebug.Bracket.{Marked}
use jos_lab.Kdebug.Region.{stab_binsearch_lem}
use jos_lab.Kdebug.Eip.{
  StabData, unknown, Eipdebuginfo, stab_at, n_so, n_fun, string_at, namelen, located, in_file,
  from_file, in_tables, find_tables, debuginfo_eip,
}

-- `strfind` ends at the first 0 byte at the latest.
strfind-ends :
    (fuel s c k : ℕ) (m : Bytes) → k < fuel → m (s + k) ≡ 0 → (q : ℕ) × (strfind fuel s c m ≡ ok q)
unfolding strfind
strfind-ends zero s c k m enough end = absurd (omega arith)
strfind-ends (suc fuel) s c zero m enough end =
    let here : m s ≡ 0 = ap m (omega arith) ∙ end in (s, rw here refl)
strfind-ends (suc fuel) s c (suc k) m enough end =
    let (q, runs) =
      strfind-ends fuel (s + 1) c k m (omega (arith, enough)) (ap m (omega arith) ∙ end) in
    elim (Bool-cases (m s == 0)) [
      | inl stops ↦ (s, rw stops refl)
      | inr goes ↦ elim (Bool-cases (m s == c)) [
        | inl found ↦ (s, rw (goes, found) refl)
        | inr on ↦ (q, rw (goes, on) runs)
      ]
    ]

module _ (t : StabData) (view : Bytes) (closed : view (t.stabstr_end - 1) ≡ 0)
    (nonempty : t.stabstr < t.stabstr_end) where
  table : ℕ → Stab
  table = stab_at view t.stabs

  namelen-ends :
      (i : ℕ) → (n : ℕ) × (namelen t view (string_at t (stab_at view t.stabs) i unknown) ≡ ok n)
  unfolding namelen
  namelen-ends i =
      let x : ℕ = (stab_at view t.stabs i).n_strx in
      elim (Bool-cases (ltb x (t.stabstr_end - t.stabstr))) [
        | inr out ↦ (9, rw out refl)
        | inl inside ↦
            let k : ℕ = t.stabstr_end - 1 - (t.stabstr + x) in
            let last : t.stabstr + x + k ≡ t.stabstr_end - 1 = ground arith in
            let (q, runs) =
              strfind-ends (t.stabstr_end - (t.stabstr + x)) (t.stabstr + x) 58 k view
                (ground arith) (ap view last ∙ closed) in
            (q - (t.stabstr + x), rw inside (rw runs refl))
      ]

-- The stabs of a type in a range stand in the order of their addresses, and none one above `addr`.
pub record Ordered (stabs : ℕ → Stab) (type low high addr : ℕ) : Type 0 where
  pub rising :
      (i j : ℕ)
      → Marked stabs type low high i
      → Marked stabs type low high j
      → i < j
      → (stabs i).n_value < (stabs j).n_value
  pub gap : (i : ℕ) → Marked stabs type low high i → (stabs i).n_value ≢ addr + 1

within-Ordered :
    (stabs : ℕ → Stab) (type low high a b addr : ℕ)
    → low ≤ a
    → b ≤ high
    → Ordered stabs type low high addr
    → Ordered stabs type a b addr
within-Ordered stabs type low high a b addr lo hi o = record {
  rising = λ i j p q lt.
      o.rising i j (omega (arith, p.0), omega (arith, p.1), p.2)
        (omega (arith, q.0), omega (arith, q.1), q.2) lt;
  gap = λ i p. o.gap i (omega (arith, p.0), omega (arith, p.1), p.2);
}

-- The stab `m` is the last of the type at or below the address, and its region ends before `r`.
pub record Holds (stabs : ℕ → Stab) (type low high addr m r : ℕ) : Type 0 where
  pub mark : Marked stabs type low high m
  pub below : (stabs m).n_value ≤ addr
  pub proper : m < r
  pub edge : (r ≡ high) ⊎ Marked stabs type low high r
  pub above : (i : ℕ) → Marked stabs type low high i → m < i → (addr < (stabs i).n_value) × (r ≤ i)

-- The search in a range with a stab at or below the address.
search-Holds :
    (stabs : ℕ → Stab) (type low high addr f : ℕ)
    → Ordered stabs type low high addr
    → addr + 1 < word_mod
    → Marked stabs type low high f
    → (stabs f).n_value ≤ addr
    → (m : ℕ) × (r : ℕ) × (stab_binsearch stabs low high type addr ≡ ok (m + 1, r))
      × Holds stabs type low high addr m r
search-Holds stabs type low high addr f o fits mark le =
    let (l, r, runs, region) = stab_binsearch_lem stabs type low high addr o.rising o.gap fits in
    elim region [
      | inl (m, at_m, below, left, proper, edge, above) ↦ (
        m,
        r,
        runs ∙ ap (λ x. ok (x, r)) left,
        record { mark = at_m; below = below; proper = proper; edge = edge; above = above },
      )
      | inr (inl (_, _, above)) ↦ absurd (omega (arith, (above f mark).0, le))
      | inr (inr (_, _, empty)) ↦ absurd (empty f mark)
    ]

-- There is one last stab at or below the address.
Holds-last :
    (stabs : ℕ → Stab) (type low high addr m r f : ℕ)
    → Holds stabs type low high addr m r
    → Marked stabs type low high f
    → (stabs f).n_value ≤ addr
    → ((i : ℕ) → Marked stabs type low high i → f < i → addr < (stabs i).n_value)
    → m ≡ f
Holds-last stabs type low high addr m r f holds mark le later = elim (Bool-cases (ltb m f)) [
  | inl before ↦ absurd (omega (arith, (holds.above f mark (ltb→lt m f before)).0, le))
  | inr not_before ↦ elim (Bool-cases (ltb f m)) [
    | inl behind ↦ absurd (omega (arith, later m holds.mark (ltb→lt f m behind), holds.below))
    | inr not_behind ↦ ground arith
  ]
]

Holds-at :
    (stabs : ℕ → Stab) (type low high addr m r f : ℕ)
    → m ≡ f
    → Holds stabs type low high addr m r
    → Holds stabs type low high addr f r
Holds-at stabs type low high addr m r f same holds = rw (← same) holds

Holds-end :
    (stabs : ℕ → Stab) (type low high addr m r : ℕ) → Holds stabs type low high addr m r → r ≤ high
Holds-end stabs type low high addr m r holds = elim (holds.edge) [
  | inl e ↦ omega arith
  | inr mark ↦ omega (arith, mark.1)
]

module _ (t : StabData) (view : Bytes) (addr : ℕ) (closed : view (t.stabstr_end - 1) ≡ 0)
    (nonempty : t.stabstr < t.stabstr_end) (fits : addr + 1 < word_mod) where
  -- The function found in a file.
  in_file-Holds :
      (f r g : ℕ)
      → Ordered (stab_at view t.stabs) n_fun f r addr
      → Marked (stab_at view t.stabs) n_fun f r g
      → (stab_at view t.stabs g).n_value ≤ addr
      → (info : Eipdebuginfo) × (in_file t view f r addr ≡ ok info)
        × (h : ℕ) × (e : ℕ) × Holds (stab_at view t.stabs) n_fun f r addr h e
        × (info.eip_fn_addr ≡ (stab_at view t.stabs h).n_value)
        × (info.eip_fn_name ≡ string_at t (stab_at view t.stabs) h unknown)
        × (info.eip_line ≡ 0)
  unfolding in_file located
  in_file-Holds f r g o mark le =
      let (h, e, runs, holds) =
        search-Holds (stab_at view t.stabs) n_fun f r addr g o fits mark le in
      let known : leb (h + 1) e ≡ true = le→leb (h + 1) e (omega (arith, holds.proper)) in
      let same : h + 1 - 1 ≡ h = omega arith in
      let (n, named) = namelen-ends t view closed nonempty h in
      (
        located t (stab_at view t.stabs) f (h + 1) e addr n,
        rw (runs, known, same, named) refl,
        h,
        e,
        holds,
        rw (known, same) refl,
        rw (known, same) refl,
        refl,
      )

  -- The file found in the tables, and the function in it.
  in_tables-Holds :
      (f g : ℕ)
      → Ordered (stab_at view t.stabs) n_so 0 ((t.stab_end - t.stabs) / 12) addr
      → Ordered (stab_at view t.stabs) n_fun 0 ((t.stab_end - t.stabs) / 12) addr
      → 0 < f
      → Marked (stab_at view t.stabs) n_so 0 ((t.stab_end - t.stabs) / 12) f
      → (stab_at view t.stabs f).n_value ≤ addr
      → ((i : ℕ)
          → Marked (stab_at view t.stabs) n_so 0 ((t.stab_end - t.stabs) / 12) i
          → f < i
          → (addr < (stab_at view t.stabs i).n_value) × (g < i))
      → Marked (stab_at view t.stabs) n_fun f ((t.stab_end - t.stabs) / 12) g
      → (stab_at view t.stabs g).n_value ≤ addr
      → (info : Eipdebuginfo) × (in_tables t view addr ≡ ok (ret 0, info))
        × (r : ℕ) × (h : ℕ) × (e : ℕ) × Holds
            (stab_at view t.stabs)
            n_so
            0
            ((t.stab_end - t.stabs) / 12)
            addr
            f
            r
        × Holds (stab_at view t.stabs) n_fun f r addr h e
        × (info.eip_fn_addr ≡ (stab_at view t.stabs h).n_value)
        × (info.eip_fn_name ≡ string_at t (stab_at view t.stabs) h unknown)
        × (info.eip_line ≡ 0)
  unfolding in_tables from_file
  in_tables-Holds f g files functions pos mark le later in_it le_g =
      let stabs = stab_at view t.stabs in
      let n : ℕ = (t.stab_end - t.stabs) / 12 in
      let (m, r, runs, holds) = search-Holds stabs n_so 0 n addr f files fits mark le in
      let same : m ≡ f =
        Holds-last stabs n_so 0 n addr m r f holds mark le (λ i k lt. (later i k lt).0) in
      let valid : (leb t.stabstr_end t.stabstr || not (view (t.stabstr_end - 1) == 0)) ≡ false =
        rw closed (ground arith) in
      let found : stab_binsearch stabs 0 n n_so addr ≡ ok (f + 1, r) =
        runs ∙ ap (λ x. ok (x + 1, r)) same in
      let file : Holds stabs n_so 0 n addr f r = Holds-at stabs n_so 0 n addr m r f same holds in
      let inside : g < r = elim (file.edge) [
        | inl e ↦ omega (arith, in_it.1, e)
        | inr next ↦ (later r next file.proper).1
      ] in
      let upto : r ≤ n = Holds-end stabs n_so 0 n addr f r file in
      let (info, located, h, e, function, value, name, line) =
        in_file-Holds f r g (within-Ordered stabs n_fun 0 n f r addr (omega arith) upto functions)
          (in_it.0, inside, in_it.2) le_g in
      let other_file : (f + 1 == 1) ≡ false = ground arith in
      let table_part : (f + 1 == 0) ≡ false = ground arith in
      let back : f + 1 - 1 ≡ f = omega arith in
      (
        info,
        rw (valid, found, other_file, table_part, back, located) refl,
        r,
        h,
        e,
        file,
        function,
        value,
        name,
        line,
      )

-- For a kernel address below 2 ^ 32 - 1, in tables whose strings end with a 0 byte and whose file
-- and function stabs stand in the order of their addresses, none of them one above the address:
-- if stab `f`, not the first, is the last file stab at or below the address, and a function stab of
-- that file stands at or below the address, `debuginfo_eip` returns 0 and leaves memory alone; the
-- address and the name that it reports are those of the last function stab of the file at or
-- below the address, and the line is 0 whatever the tables say.
pub debuginfo_eip_lem :
    (t : StabData) (d : ℕ) (view : Bytes) (addr : ℕ) (k : Mem) (f g : ℕ)
    → ulim ≤ addr
    → addr + 1 < word_mod
    → view (t.stabstr_end - 1) ≡ 0
    → t.stabstr < t.stabstr_end
    → Ordered (stab_at view t.stabs) n_so 0 ((t.stab_end - t.stabs) / 12) addr
    → Ordered (stab_at view t.stabs) n_fun 0 ((t.stab_end - t.stabs) / 12) addr
    → 0 < f
    → Marked (stab_at view t.stabs) n_so 0 ((t.stab_end - t.stabs) / 12) f
    → (stab_at view t.stabs f).n_value ≤ addr
    → ((i : ℕ)
        → Marked (stab_at view t.stabs) n_so 0 ((t.stab_end - t.stabs) / 12) i
        → f < i
        → (addr < (stab_at view t.stabs i).n_value) × (g < i))
    → Marked (stab_at view t.stabs) n_fun f ((t.stab_end - t.stabs) / 12) g
    → (stab_at view t.stabs g).n_value ≤ addr
    → (info : Eipdebuginfo) × (debuginfo_eip t d view addr k ≡ ok ((ret 0, info), k))
      × (r : ℕ) × (h : ℕ) × (e : ℕ) × Holds
          (stab_at view t.stabs)
          n_so
          0
          ((t.stab_end - t.stabs) / 12)
          addr
          f
          r
      × Holds (stab_at view t.stabs) n_fun f r addr h e
      × (info.eip_fn_addr ≡ (stab_at view t.stabs h).n_value)
      × (info.eip_fn_name ≡ string_at t (stab_at view t.stabs) h unknown)
      × (info.eip_line ≡ 0)
unfolding debuginfo_eip find_tables
debuginfo_eip_lem t d view addr k f g high fits closed nonempty files functions pos mark le later
      in_it le_g =
    let (info, runs, r, h, e, file, function, value, name, line) =
      in_tables-Holds t view addr closed nonempty fits f g files functions pos mark le later in_it
        le_g in
    (info, rw (le→leb ulim addr high, runs) refl, r, h, e, file, function, value, name, line)
