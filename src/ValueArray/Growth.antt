-- ===== src/ValueArray/Growth.antt =====
-- The loop of `ocoms_value_array_set_size` that doubles the number of allocated items.
use native.Mathlib.Decide.{dec_lt}
use libocoms.Prelude.{
  ℕ, zero, suc, ◌+◌, ◌*◌, ◌%◌, ◌^◌, ◌≤◌, ◌<◌, ◌≡◌, refl, ◌⊎◌, inl, inr, false, Exec, fault, endless,
  arith, Returns,
}
use libocoms.ValueArray.{Heap, double_until, size_limit, construct, set_size, set_item}

-- From 0 the loop never ends, whatever the fuel.
double_until-endless : (fuel size : ℕ) → 0 < size → double_until fuel 0 size ≡ fault endless
unfolding double_until
double_until-endless zero size h = ground (arith, h)
double_until-endless (suc fuel) size h = ground (arith, h, double_until-endless fuel size h)

-- What the loop is to return: room for `size` items, and less than twice as much unless there was room.
abbrev pub Grown : Exec ℕ → (alloc size : ℕ) → Type 0
Grown run alloc size =
    Returns run (λ n. (size ≤ n) × (alloc ≤ n) × ((n ≡ alloc) ⊎ (n < size + size)))

-- The number doubled as often as there is fuel.
reach : (fuel alloc : ℕ) → ℕ
reach zero alloc = alloc
reach (suc fuel) alloc = reach fuel (alloc * 2)

reach_mono : (fuel a b : ℕ) → a ≤ b → reach fuel a ≤ reach fuel b
unfolding reach
reach_mono zero a b h = h
reach_mono (suc fuel) a b h = reach_mono fuel (a * 2) (b * 2) (omega arith)

reach_one : reach 64 1 ≡ 2 ^ 64
unfolding reach
reach_one = refl

double_until-Grown :
    (fuel alloc size : ℕ)
    → size ≤ 2 ^ 63
    → size ≤ reach fuel alloc
    → Grown (double_until fuel alloc size) alloc size
unfolding double_until reach
double_until-Grown zero alloc size h room =
    (alloc, ground arith, (omega arith, omega arith, inl refl))
double_until-Grown (suc fuel) alloc size h room = elim (dec_lt alloc size) [
  | no enough ↦ (alloc, ground arith, (omega arith, omega arith, inl refl))
  | yes less ↦
      let unwrapped : alloc * 2 % size_limit ≡ alloc * 2 = omega arith in
      let (n, ran, (large, more, bound)) = double_until-Grown fuel (alloc * 2) size h room in
      (
        n,
        ground (arith, less, unwrapped, ran),
        (large, omega arith, inr (ground (arith, less, bound))),
      )
]

-- The loop of `ocoms_value_array_set_size` from at least 1, up to 2 ^ 63 items, ends within 64 rounds
-- with room for the items, and with less than twice as much unless there was room; from 0, as in an
-- array that is only constructed, it never ends.
pub double_until_lem :
    (fuel alloc size : ℕ)
    → 0 < alloc
    → 0 < size
    → size ≤ 2 ^ 63
    → Grown (double_until 64 alloc size) alloc size × (double_until fuel 0 size ≡ fault endless)
double_until_lem fuel alloc size some_room h fits = (
  double_until-Grown 64 alloc size fits
      (omega (arith, reach_mono 64 1 alloc (omega arith), reach_one)),
  double_until-endless fuel size h,
)

-- Without OCOMS_ENABLE_DEBUG, `ocoms_value_array_set_size` to a size above 0 never returns on an array
-- that is constructed and not yet initialised, and neither does storing an item in it.
pub set_size_endless :
    {V : Type 0}
    → (heap : Heap V) (size index : ℕ) (v : V) → 0 < size
    → index + 1 < size_limit
    → (set_size false heap construct size ≡ fault endless)
      × (set_item false heap construct index v ≡ fault endless)
unfolding set_item set_size
set_size_endless heap size index v h small = (
  ground (arith, double_until-endless 64 size h),
  ground (arith, double_until-endless 64 ((index + 1) % size_limit)),
)
