-- ===== src/Pmap/Space.antt =====
-- What an address space means, and when it is well formed. `translate` is the walk that the MMU
-- makes, with no reference to the kernel's functions.
use jos_lab.Base.{
  refl, inl, inr, ◌⊎◌, Bool-cases, ℕ, ◌/◌, ◌%◌, ◌^◌, ◌≤◌, ◌<◌, ◌≡◌, ◌≢◌, ap, true, false, Option,
  none, some, List, arith, bit_or, if◌then◌else◌, has, bit_or-div, bit_or-mod_two, bit_or-zero,
}
use jos_lab.Mmu.{pdx, ptx, utop, is_present, pte_p, pte_u, pte_w}
use jos_lab.Pmap.{Mem, page2pa}
use jos_lab.Pmap.Free.{FreeList}

-- The entry that the MMU finds for an address, if the page is present.
unfoldable pub translate : Mem → ℕ → ℕ → Option ℕ
translate m d va =
    if is_present (m.word d (pdx va))
    then (let pte = m.word (m.word d (pdx va) / 4096) (ptx va) in
        if is_present pte then some pte else none)
    else none

module _ (m : Mem) (d va : ℕ) where
  pub translate_no_table : is_present (m.word d (pdx va)) ≡ false → translate m d va ≡ none
  unfolding translate
  translate_no_table e = rw e

  pub translate_no_page :
      (t : ℕ)
      → m.word d (pdx va) / 4096 ≡ t
      → is_present (m.word t (ptx va)) ≡ false
      → translate m d va ≡ none
  unfolding translate
  translate_no_page t e gone =
      rw (e, gone)
        (elim (Bool-cases (is_present (m.word d (pdx va)))) [ inl h ↦ rw h | inr h ↦ rw h ])

  pub translate_page :
      (t : ℕ)
      → is_present (m.word d (pdx va)) ≡ true
      → m.word d (pdx va) / 4096 ≡ t
      → is_present (m.word t (ptx va)) ≡ true
      → translate m d va ≡ some (m.word t (ptx va))
  unfolding translate
  translate_page t h e here = rw (h, e, here)

  pub translate-eq :
      (m' : Mem)
      → m'.word d (pdx va) ≡ m.word d (pdx va)
      → (is_present (m.word d (pdx va)) ≡ true
          → m'.word (m.word d (pdx va) / 4096) (ptx va)
            ≡ m.word (m.word d (pdx va) / 4096) (ptx va))
      → translate m' d va ≡ translate m d va
  unfolding translate
  translate-eq m' e same = elim (Bool-cases (is_present (m.word d (pdx va)))) [
    | inl h ↦ rw (e, h, same h)
    | inr h ↦ rw (e, h)
  ]

-- How an address can fail to translate, or translate.
pub translate-cases :
    (m : Mem) (d va : ℕ)
    → (translate m d va ≡ none)
      ⊎ ((is_present (m.word d (pdx va)) ≡ true)
          × (is_present (m.word (m.word d (pdx va) / 4096) (ptx va)) ≡ true)
          × (translate m d va ≡ some (m.word (m.word d (pdx va) / 4096) (ptx va))))
translate-cases m d va = elim (Bool-cases (is_present (m.word d (pdx va)))) [
  | inl here ↦ elim (Bool-cases (is_present (m.word (m.word d (pdx va) / 4096) (ptx va)))) [
    | inl there ↦ inr (here, there, translate_page m d va _ here refl there)
    | inr gone ↦ inl (translate_no_page m d va _ refl gone)
  ]
  | inr gone ↦ inl (translate_no_table m d va gone)
]

-- A page directory `d` beside the free pages `ps`: the page tables of its entries `In` exist, are
-- not free, are not the directory, and no two entries share one.
pub record DirSpace (In : ℕ → Type 0) (m : Mem) (d : ℕ) (ps : List ℕ) : Type 0 where
  pub small : m.npages ≤ 2 ^ 20
  pub free : FreeList m ps
  pub root : has d ps ≡ false
  pub exists : (i : ℕ) → In i → is_present (m.word d i) ≡ true → m.word d i / 4096 < m.npages
  pub off_root : (i : ℕ) → In i → is_present (m.word d i) ≡ true → m.word d i / 4096 ≢ d
  pub in_use : (i : ℕ) → In i → is_present (m.word d i) ≡ true → has (m.word d i / 4096) ps ≡ false
  pub separate :
      (i j : ℕ)
      → In i
      → In j
      → is_present (m.word d i) ≡ true
      → is_present (m.word d j) ≡ true
      → m.word d i / 4096 ≡ m.word d j / 4096
      → i ≡ j

-- The entries below UTOP.
abbrev pub IsUser : ℕ → Type 0
IsUser i = i < pdx utop

abbrev pub IsSpace : Mem → ℕ → List ℕ → Type 0
IsSpace m d ps = DirSpace IsUser m d ps

pub pdx-lt : (va : ℕ) → va < utop → pdx va < pdx utop
pdx-lt va h = omega arith

-- The fields of a page directory entry for a new table, and of a page table entry.
pub new_pde_fields :
    (p : ℕ)
    → p < 2 ^ 20
    → (bit_or (bit_or (bit_or (page2pa p) pte_p) pte_u) pte_w % 2 ≡ 1)
      × (bit_or (bit_or (bit_or (page2pa p) pte_p) pte_u) pte_w / 4096 ≡ p)
new_pde_fields p h = (
  omega (
    arith,
    bit_or-mod_two (bit_or (bit_or (page2pa p) pte_p) pte_u) pte_w,
    bit_or-mod_two (bit_or (page2pa p) pte_p) pte_u,
    bit_or-mod_two (page2pa p) pte_p,
  ),
  omega (
    arith,
    bit_or-div 12 (bit_or (bit_or (page2pa p) pte_p) pte_u) pte_w,
    bit_or-div 12 (bit_or (page2pa p) pte_p) pte_u,
    bit_or-div 12 (page2pa p) pte_p,
    bit_or-zero (bit_or (bit_or (page2pa p) pte_p) pte_u / 4096),
    bit_or-zero (bit_or (page2pa p) pte_p / 4096),
    bit_or-zero (page2pa p / 4096),
  ),
)

pub pte_fields :
    (pa perm : ℕ)
    → pa < 2 ^ 32
    → perm < 4096
    → (bit_or (bit_or pa perm) pte_p % 2 ≡ 1) × (bit_or (bit_or pa perm) pte_p / 4096 ≡ pa / 4096)
pte_fields pa perm h hp = (
  omega (arith, bit_or-mod_two (bit_or pa perm) pte_p),
  omega (
    arith,
    bit_or-div 12 (bit_or pa perm) pte_p,
    bit_or-zero (bit_or pa perm / 4096),
    bit_or-div 12 pa perm,
    ap (bit_or (pa / 4096)) low,
    bit_or-zero (pa / 4096),
  ),
)
  where
    low : perm / 4096 ≡ 0
    low = omega arith
