-- ===== src/Components/Opening.antt =====
-- `open_components`: what it does to the components that pass the filter, and to those that do not.
use libocoms.Prelude.{ℕ, ◌≡◌, Option, none, some, [], true, false, Bool, if◌then◌else◌}
use libocoms.Argv.{Str}
use libocoms.Components.{Library, component_close}
use libocoms.Status.{Status, success}

abbrev pub is_success : Status → Bool
is_success success = true
is_success _ = false

-- Whether an open function is absent or succeeds in a state of the world.
abbrev pub opens : {W : Type 0} → Option (W → Status × W) → W → Bool
opens none w = true
opens (some run) w = is_success (run w).0

-- The state of the world behind an open function, if there is one.
abbrev pub after_open : {W : Type 0} → Option (W → Status × W) → W → W
after_open none w = w
after_open (some run) w = (run w).1

-- The text of a selection: NULL selects like the empty text.
abbrev pub text_of : Option Str → Str
text_of none = []
text_of (some s) = s

module _ {W : Type 0} (lib : Library W) (opened : ℕ → Bool)
    (law : (c : ℕ) (w : W) → opens (lib.component c).mca_open_component w ≡ opened c) where
  open lib use {component}

  -- What trying to open a component does to the world: the open function runs, and a component that
  -- does not open is closed.
  abbrev pub settle : ℕ → W → W
  settle c w =
      let w' = after_open (component c).mca_open_component w in
      if opened c then w' else component_close lib c w'
