-- ===== src/PointerArray/Items.antt =====
-- `ocoms_pointer_array_set_item` on a valid table.
use native.Mathlib.Decide.{dec_lt}
use libocoms.Prelude.{
  ℕ, ◌+◌, ◌*◌, ◌/◌, ◌%◌, ◌≤◌, ◌<◌, ◌==◌, ◌≡◌, ◌≢◌, refl, ◌∙◌, if◌then◌else◌, true, false, Bool,
  Option, none, some, Returns, arith, Bool-cases, inl, inr, ◌⊎◌, Option-cases,
}
use libocoms.PointerArray.{PointerArray, int_max, pointer_size, table_grow, new_size, grow_table}
use libocoms.PointerArray.Add.{Updated}
use libocoms.PointerArray.Calls.{grow_to, set_item}
use libocoms.PointerArray.Growth.{new_size-eq-some}
use libocoms.PointerArray.Valid.{
  IsValid, item, grow_table-Grown, grow_table-refuses, grow_table-out_of_memory,
}
use libocoms.PointerArray.Write.{write_slot-Updated}
use libocoms.Status.{success, error}

-- the size that is asked for to make room for an index
abbrev pub wanted : ℕ → ℕ
wanted index = (index / table_grow + 1) * table_grow

-- The index as hard limit is one too small for an even index just below the limit.
abbrev pub IsReachable : ℕ → ℕ → Type 0
IsReachable max index = (index + 2 ≤ int_max) × ((index % 2 ≡ 1) ⊎ (index + 1 ≢ max))

new_size-wanted :
    (max index n : ℕ)
    → max ≤ int_max
    → IsReachable max index
    → new_size max (wanted index) index ≡ some n
    → (n ≡ wanted index) × (n < max)
new_size-wanted max index n m r e = ground (arith, new_size-eq-some max (wanted index) index n e)

new_size_stops : (max index : ℕ) → new_size max (wanted index) index ≡ none → max ≤ wanted index
unfolding new_size
new_size_stops max index e = ground arith

module _ {ℓ} {V : Type ℓ} where
  -- the table does not reach to `index`, and cannot: by its limit, or for want of memory
  abbrev pub Refuses : (ℕ → Bool) → PointerArray V → ℕ → Type 0
  Refuses mem t index =
      (t.size ≤ index) × ((t.max_size ≤ wanted index) ⊎ (mem (wanted index * pointer_size) ≡ false))

  pub record Reached (t : PointerArray V) (index : ℕ) (t' : PointerArray V) : Type ℓ where
    pub valid : IsValid t'
    pub inside : index < t'.size
    pub limit : t'.max_size ≡ t.max_size
    pub kept : (j : ℕ) → item t' j ≡ item t j

  pub grow_to-Reached :
      (mem : ℕ → Bool) (t : PointerArray V) (index : ℕ)
      → IsValid t
      → t.max_size ≤ int_max
      → IsReachable t.max_size index
      → Returns (grow_to mem t index) λ r.
        ((r.0 ≡ false) × (r.1 ≡ t) × Refuses mem t index) ⊎ ((r.0 ≡ true) × Reached t index r.1)
  unfolding grow_to
  grow_to-Reached mem t index v m reach = elim (dec_lt index t.size) [
    | yes p ↦ (
      (true, t),
      ground arith,
      inr (refl, record { valid = v; inside = p; limit = refl; kept = λ j. refl }),
    )
    | no p ↦
        let soft = wanted index in
        elim (Option-cases (new_size t.max_size soft index)) [
          | inl stop ↦ (
            (false, t),
            ground (arith, reach.0, grow_table-refuses mem t soft index stop),
            inl (refl, refl, (omega arith, inl (new_size_stops t.max_size index stop))),
          )
          | inr (n, go) ↦
              let (is_soft, below) = new_size-wanted t.max_size index n m reach go in
              elim (Bool-cases (mem (n * pointer_size))) [
                | inl ok ↦
                    let r =
                      grow_table-Grown mem t soft index n v go (omega arith) (omega arith) ok in
                    (
                      grow_table mem t soft index,
                      ground (arith, reach.0),
                      inr (
                        r.0,
                        record {
                          valid = r.1.valid;
                          inside = omega (arith, r.1.sized);
                          limit = r.1.limit;
                          kept = r.1.kept;
                        },
                      ),
                    )
                | inr bad ↦ (
                  (false, t),
                  ground (arith, reach.0, grow_table-out_of_memory mem t soft index n go bad),
                  inl (refl, refl, (omega arith, inr (rw is_soft at bad))),
                )
              ]
        ]
  ]

  -- `t'` is `t`, perhaps grown, with `v` at `index`.
  pub record Holds (t : PointerArray V) (index : ℕ) (v : Option V) (t' : PointerArray V)
      : Type ℓ where
    pub valid : IsValid t'
    pub inside : index < t'.size
    pub limit : t'.max_size ≡ t.max_size
    pub items : (j : ℕ) → item t' j ≡ (if j == index then v else item t j)

  pub Reached-Holds :
      (t t' t'' : PointerArray V) (index : ℕ) (v : Option V)
      → Reached t index t'
      → Updated t' index v t''
      → Holds t index v t''
  Reached-Holds t t' t'' index v r u = record {
    valid = u.valid;
    inside = omega (arith, r.inside, u.sized);
    limit = u.limit ∙ r.limit;
    items = λ j. ground (arith, u.items j, r.kept j);
  }

  -- On a valid table, `ocoms_pointer_array_set_item` at an index that its growth can reach returns
  -- without an access out of range. Either it refuses with OCOMS_ERROR, the table unchanged, because
  -- the index is past the end and the limit or the memory does not allow the size that is asked for;
  -- or it succeeds, the index then holds the value, NULL or not, every other index what it held, and
  -- the table is valid again.
  pub set_item-Holds :
      (mem : ℕ → Bool) (t : PointerArray V) (index : ℕ) (v : Option V)
      → IsValid t
      → t.max_size ≤ int_max
      → IsReachable t.max_size index
      → Returns (set_item mem t index v) λ r.
        ((r.0 ≡ error) × (r.1 ≡ t) × Refuses mem t index) ⊎ ((r.0 ≡ success) × Holds t index v r.1)
  unfolding set_item
  set_item-Holds mem t index v valid m reach =
      let ((room, t'), run, outcome) = grow_to-Reached mem t index valid m reach in
      elim outcome [
        | inl (f, same, why) ↦ ((error, t), ground (arith, run), inl (refl, refl, why))
        | inr (ok, r) ↦
            let (t'', wrote, u) = write_slot-Updated t' index v r.valid r.inside in
            (
              (success, t''),
              ground (arith, run, wrote),
              inr (refl, Reached-Holds t t' t'' index v r u),
            )
      ]
