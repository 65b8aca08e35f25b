-- ===== src/Components.antt =====
-- Lists of components: closing them (ocoms/mca/base/mca_base_components_close.c), keeping those a
-- user asked for (the part of ocoms/mca/base/mca_base_component_find.c that reads no files, in Find),
-- opening them (`open_components` of mca_base_components_open.c, in Open) and selecting one
-- (mca_base_components_select.c, in Select). A component is its address, and a list of components the
-- addresses in the order of the list. The components' own functions, the registry of variables and
-- the repository of loaded files are parameters, which change a world `W` of which nothing is known.
pub mod Find
pub mod Open
pub mod Select
pub mod Requests
pub mod Negations
pub mod Filtering
pub mod Finding
pub mod Opening
pub mod Offers
pub mod Best
mod Tests
use libocoms.Prelude.{ℕ, ◌==◌, Bool, true, false, not, Option, none, some, List, [], ◌∷◌}
use libocoms.Prelude.Int.{ℤ}
use libocoms.Argv.{Str}
use libocoms.Status.{Status, success}

-- What a query writes to `*module` and `*priority`, where it writes them at all.
pub record Answer : Type 0 where
  pub module_written : Option (Option ℕ)
  pub priority_written : Option ℤ

-- `ocoms_mca_base_component_t`: the fields that the functions read; `none` for a NULL function
pub record ComponentHooks (W : Type 0) : Type 0 where
  pub mca_component_name : Str
  pub param_field : ℕ
  pub mca_open_component : Option (W → Status × W)
  pub mca_close_component : Option (W → W)
  pub mca_query_component : Option (W → Answer × W)

-- The components, and what the functions call: `ocoms_mca_base_var_group_find` for the group of a
-- component, with `none` for an error, `ocoms_mca_base_var_group_deregister`, and
-- `ocoms_mca_base_component_repository_release`.
pub record Library (W : Type 0) : Type 0 where
  pub component : ℕ → ComponentHooks W
  pub group_find : ℕ → W → Option ℕ
  pub group_deregister : ℕ → W → W
  pub repository_release : ℕ → W → W

-- skip == cli->cli_component
unfoldable pub is_skip : Option ℕ → ℕ → Bool
is_skip none c = false
is_skip (some s) c = s == c

module _ {W : Type 0} (lib : Library W) where
  open lib use {component, group_find, group_deregister, repository_release}

  unfoldable pub component_unload : ℕ → W → W
  component_unload c w =
      repository_release c
        (elim (group_find c w) [ none ↦ w | some group ↦ group_deregister group w ])

  unfoldable pub component_close : ℕ → W → W
  component_close c w =
      component_unload c
        (elim (component c).mca_close_component [ none ↦ w | some close ↦ close w ])

  -- the loop of `ocoms_mca_base_components_close`: the items left in the list, and the world
  unfoldable pub close_loop : (skip : Option ℕ) → List ℕ → W → List ℕ × W
  close_loop skip [] w = ([], w)
  close_loop skip (c ∷ cs) w = elim (is_skip skip c) [
    | true ↦ let (left, w') = close_loop skip cs w in (c ∷ left, w')
    | false ↦ close_loop skip cs (component_close c w)
  ]

  unfoldable pub components_close : (skip : Option ℕ) → List ℕ → W → Status × List ℕ × W
  components_close skip cs w = let (left, w') = close_loop skip cs w in (success, left, w')

-- The items that pass a test, in their order, and the effects of some items one after the other.
module _ {A : Type 0} where
  unfoldable pub keep : (A → Bool) → List A → List A
  keep test [] = []
  keep test (x ∷ xs) = elim (test x) [ true ↦ x ∷ keep test xs | false ↦ keep test xs ]

  unfoldable pub run_all : {W : Type 0} → (A → W → W) → List A → W → W
  run_all run [] w = w
  run_all run (x ∷ xs) w = run_all run xs (run x w)
