-- ===== src/Components/Open.antt =====
-- `open_components` of ocoms/mca/base/mca_base_components_open.c. The flags that every component must
-- have are an argument: with fault tolerance they may be the checkpoint flag.
use libocoms.Prelude.{ℕ, Option, none, some, List, [], ◌∷◌, Exec, done, ◌>>=◌}
use libocoms.Argv.{Str, Memory}
use libocoms.Components.{Library, component_close}
use libocoms.Components.Find.{components_filter}
use libocoms.Status.{Status, success}

module _ {W : Type 0} (lib : Library W) where
  open lib use {component}

  unfoldable pub open_loop : List ℕ → W → List ℕ × W
  open_loop [] w = ([], w)
  open_loop (c ∷ cs) w = elim (component c).mca_open_component [
    | none ↦ let (left, w') = open_loop cs w in (c ∷ left, w')
    | some opens ↦
        let (ret, w₁) = opens w in
        elim ret [
          | success ↦ let (left, w') = open_loop cs w₁ in (c ∷ left, w')
          | _ ↦ open_loop cs (component_close lib c w₁)
        ]
  ]

  unfoldable pub open_components :
      Memory
      → (framework_selection : Option Str) → (open_only_flags flags : ℕ) → List ℕ
      → W
      → Exec (Status × List ℕ × W)
  open_components mem framework_selection open_only_flags flags cs w =
      components_filter lib mem framework_selection open_only_flags flags cs w
      >>= λ (ret, left, w₁). elim ret [
        | success ↦ let (opened, w') = open_loop left w₁ in done (success, opened, w')
        | failed ↦ done (failed, left, w₁)
      ]
