-- ===== src/Kdebug.antt =====
-- kern/kdebug.c: the binary search in a table of stabs. A table is a function of the index. A right
-- end that the source writes as the last index is the number behind it here, so that -1 is 0.
pub mod Rounds
pub mod Bracket
pub mod Region
pub mod Eip
pub mod Functions
use jos_lab.Base.{
  ℕ, zero, suc, ◌+◌, ◌-◌, ◌*◌, ◌/◌, ◌%◌, Bool, true, false, not, ◌&&◌, Option, none, some, ◌==◌,
  ltb, if◌then◌else◌, Run, ok, stop, out_of_fuel, ◌>>=◌,
}
use jos_lab.Mmu.{word_mod}

-- inc/stab.h
pub record Stab : Type 0 where
  pub n_strx : ℕ
  pub n_type : ℕ
  pub n_other : ℕ
  pub n_desc : ℕ
  pub n_value : ℕ

-- The variables of `stab_binsearch`: `r_end` is `r + 1`, `right_end` is `*region_right + 1`.
pub record Search : Type 0 where
  pub l : ℕ
  pub r_end : ℕ
  pub any_matches : Bool
  pub region_left : ℕ
  pub right_end : ℕ
  pub addr : ℕ

-- The inner loop: the last of the `k` stabs from `l` on with the type.
unfoldable pub last_match : (ℕ → Stab) → ℕ → ℕ → ℕ → Option ℕ
last_match stabs type l zero = none
last_match stabs type l (suc k) =
    let before = last_match stabs type l k in
    if (stabs (l + k)).n_type == type then some (l + k) else before

abbrev pub true_m : Search → ℕ
true_m s = (s.l + (s.r_end - 1)) / 2

-- The three cases at the stab `m`.
abbrev pub narrow : (ℕ → Stab) → ℕ → Search → Search
narrow stabs m s =
    if ltb (stabs m).n_value s.addr
    then record s { any_matches = true; region_left = m; l = true_m s + 1 }
    else if ltb s.addr (stabs m).n_value
    then record s { any_matches = true; right_end = m; r_end = m }
    else record s { any_matches = true; region_left = m; l = m; addr = (s.addr + 1) % word_mod }

-- One round of the loop, for what the inner loop finds.
unfoldable pub round_at : (ℕ → Stab) → Option ℕ → Search → Search
round_at stabs none s = record s { l = true_m s + 1 }
round_at stabs (some m) s = narrow stabs m s

unfoldable pub round : (ℕ → Stab) → ℕ → Search → Search
unfolding last_match round_at
round stabs type s = round_at stabs (last_match stabs type s.l (true_m s + 1 - s.l)) s

-- The loop, on fuel.
unfoldable pub rounds : ℕ → (ℕ → Stab) → ℕ → Search → Run Search
unfolding round
rounds zero stabs type s = stop out_of_fuel
rounds (suc fuel) stabs type s =
    let rest = rounds fuel stabs type (round stabs type s) in if ltb s.l s.r_end then rest else ok s

-- The last loop, which walks `l` down; `n` is its `l + 1`.
unfoldable pub rightmost : (ℕ → Stab) → ℕ → ℕ → ℕ → ℕ
rightmost stabs type region_left zero = zero
rightmost stabs type region_left (suc n) =
    let rest = rightmost stabs type region_left n in
    if ltb region_left n && not ((stabs n).n_type == type) then rest else suc n

-- `*region_left + 1` and `*region_right + 1`, for the same of the arguments.
unfoldable pub stab_binsearch : (ℕ → Stab) → ℕ → ℕ → ℕ → ℕ → Run (ℕ × ℕ)
unfolding rounds rightmost
stab_binsearch stabs left right_end type addr = do
  s ← rounds (2 * (right_end - left) + 2) stabs type (record {
    l = left;
    r_end = right_end;
    any_matches = false;
    region_left = left;
    right_end = right_end;
    addr = addr;
  })
  ok (
      if not s.any_matches
      then (s.region_left + 1, s.region_left)
      else (rightmost stabs type s.region_left s.right_end, s.right_end))
