-- ===== src/Components/Select.antt =====
-- `ocoms_mca_base_select` of ocoms/mca/base/mca_base_components_select.c. The local variables `module`
-- and `priority` live through the loop: a query that does not write one leaves the last value in it.
use libocoms.Prelude.{ℕ, ◌^◌, ◌-◌, if◌then◌else◌, Option, none, some, List, [], ◌∷◌}
use libocoms.Prelude.Int.{ℤ, pos, negsuc, ltb_ℤ}
use libocoms.Components.{Library, components_close}
use libocoms.Status.{Status, success, not_found}

-- INT32_MIN
abbrev pub int32_min : ℤ
int32_min = negsuc (2 ^ 31 - 1)

-- The local variables, with `*best_component` and `*best_module` as one.
pub record Selection : Type 0 where
  pub module_seen : Option ℕ
  pub priority : ℤ
  pub best_priority : ℤ
  pub best : Option (ℕ × ℕ)

abbrev pub start : Selection
start = record { module_seen = none; priority = pos 0; best_priority = int32_min; best = none }

-- what a call leaves in an out parameter
abbrev pub written : {A : Type 0} → Option A → A → A
written none old = old
written (some new) old = new

-- the loop's body behind the query
unfoldable pub compare_best : ℕ → Selection → Selection
compare_best c s = elim s.module_seen [
  | none ↦ s
  | some m ↦
      if ltb_ℤ s.best_priority s.priority
      then record s { best_priority = s.priority; best = some (c, m) }
      else s
]

module _ {W : Type 0} (lib : Library W) where
  open lib use {component}

  unfoldable pub select_loop : List ℕ → Selection → W → Selection × W
  select_loop [] s w = (s, w)
  select_loop (c ∷ cs) s w = elim (component c).mca_query_component [
    | none ↦ select_loop cs s w
    | some query ↦
        let (answer, w') = query w in
        select_loop cs
          (compare_best c (record s {
            module_seen = written answer.module_written s.module_seen;
            priority = written answer.priority_written s.priority;
          }))
          w'
  ]

  -- the status, the component and module selected, the items left in the list, and the world
  unfoldable pub select : List ℕ → W → Status × Option (ℕ × ℕ) × List ℕ × W
  select cs w =
      let (s, w₁) = select_loop cs start w in
      elim s.best [
        | none ↦ let (_, left, w₂) = components_close lib none cs w₁ in (not_found, none, left, w₂)
        | some (c, m) ↦
            let (_, left, w₂) = components_close lib (some c) cs w₁ in
            (success, some (c, m), left, w₂)
      ]
