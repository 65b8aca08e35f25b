-- ===== src/Components/Find.antt =====
-- The requested components: `ocoms_mca_base_component_parse_requested`, `use_component`,
-- `component_find_check`, `ocoms_mca_base_components_filter` and `ocoms_mca_base_component_find` of
-- ocoms/mca/base/mca_base_component_find.c. The search for files (`find_dyn_components`) is a
-- parameter. Messages to the user are left out.
use Prim.Native.Nat.{bit_and}
use libocoms.Prelude.{
  ℕ, ◌%◌, ◌==◌, if◌then◌else◌, Bool, true, false, not, ◌&&◌, ◌||◌, Option, none, some, List, [],
  ◌∷◌, ◌++◌, Exec, done, fault, out_of_range, ◌>>=◌,
}
use libocoms.Argv.{Str, Argv, Memory, strcmp_eq}
use libocoms.Argv.Text.{split}
use libocoms.Components.{Library, component_unload}
use libocoms.Status.{Status, success, error, not_found}

-- `negate[0]` and ','
abbrev pub negate : ℕ
negate = 94

abbrev pub comma : ℕ
comma = 44

-- requested += strspn (requested, negate)
unfoldable pub skip_negates : Str → Str
skip_negates [] = []
skip_negates (c ∷ s) = let rest = skip_negates s in if c == negate then rest else c ∷ s

-- NULL != strstr (requested, negate)
unfoldable pub has_negate : Str → Bool
has_negate [] = false
has_negate (c ∷ s) = c == negate || has_negate s

-- the status, `*include_mode` and `*requested_component_names`
unfoldable pub parse_requested : Memory → Option Str → Exec (Status × Bool × Option Argv)
parse_requested mem none = done (success, true, none)
parse_requested mem (some []) = done (success, true, none)
parse_requested mem (some (c ∷ s)) =
    let include = not (c == negate) in
    let requested = skip_negates (c ∷ s) in
    if has_negate requested
    then done (error, include, none)
    else split mem (some requested) comma >>= λ names. done (success, include, names)

-- while (*req_comp_name != NULL) …
unfoldable pub find_name : Argv → Str → Exec Bool
find_name [] name = fault out_of_range
find_name (none ∷ xs) name = done false
find_name (some s ∷ xs) name =
    let rest = find_name xs name in if strcmp_eq name s then done true else rest

unfoldable pub use_component : (include_mode : Bool) → Option Argv → Str → Exec Bool
use_component include_mode none name = done true
use_component include_mode (some xs) name =
    find_name xs name >>= λ found. done ((include_mode && found) || not (include_mode || found))

module _ {W : Type 0} (lib : Library W) where
  open lib use {component}

  -- the inner loop of `component_find_check`
  unfoldable pub is_found : Str → List ℕ → Bool
  is_found name [] = false
  is_found name (c ∷ cs) = strcmp_eq name (component c).mca_component_name || is_found name cs

  unfoldable pub find_check_slots : Argv → List ℕ → Exec Status
  find_check_slots [] cs = fault out_of_range
  find_check_slots (none ∷ xs) cs = done success
  find_check_slots (some s ∷ xs) cs =
      let rest = find_check_slots xs cs in if is_found s cs then rest else done not_found

  unfoldable pub component_find_check : Option Argv → List ℕ → Exec Status
  component_find_check none cs = done success
  component_find_check (some xs) cs = find_check_slots xs cs

  -- if (include_mode && !(flags & MCA_BASE_FRAMEWORK_FLAG_NO_COMPONENT_FIND_CHECK)) …, the flag is 3
  unfoldable pub final_check :
      (include_mode : Bool) → (flags : ℕ) → Option Argv → List ℕ → Exec Status
  final_check include_mode flags names cs =
      if include_mode && flags % 4 == 0 then component_find_check names cs else done success

  -- !((filter_flags & dummy->data.param_field) != filter_flags)
  unfoldable pub has_flags : (filter_flags : ℕ) → ℕ → Bool
  has_flags filter_flags c = bit_and filter_flags (component c).param_field == filter_flags

  -- the loop of `ocoms_mca_base_components_filter`
  unfoldable pub filter_loop :
      Bool → Option Argv → (filter_flags : ℕ) → List ℕ → W → Exec (List ℕ × W)
  filter_loop include_mode names filter_flags [] w = done ([], w)
  filter_loop include_mode names filter_flags (c ∷ cs) w =
      use_component include_mode names (component c).mca_component_name >>= λ can_use.
      elim (not can_use || not (has_flags filter_flags c)) [
        | true ↦ filter_loop include_mode names filter_flags cs (component_unload lib c w)
        | false ↦
            filter_loop include_mode names filter_flags cs w >>= λ (left, w'). done (c ∷ left, w')
      ]

  unfoldable pub unset : Option Str → Bool
  unset none = true
  unset (some _) = false

  unfoldable pub components_filter :
      Memory
      → (filter_names : Option Str) → (filter_flags flags : ℕ) → List ℕ
      → W
      → Exec (Status × List ℕ × W)
  components_filter mem filter_names filter_flags flags cs w =
      if filter_flags == 0 && unset filter_names
      then done (success, cs, w)
      else parse_requested mem filter_names >>= λ (status, include_mode, names). elim status [
        | success ↦ filter_loop include_mode names filter_flags cs w >>= λ (left, w').
            final_check include_mode flags names left >>= λ ret. done (ret, left, w')
        | failed ↦ done (failed, cs, w)
      ]

  -- the loop over the components that were linked in; `new_item` says whether OBJ_NEW is served
  unfoldable pub static_loop :
      (new_item : Bool) → Bool → Option Argv → List ℕ → (found : List ℕ) → Exec (Bool × List ℕ)
  static_loop new_item include_mode names [] found = done (true, found)
  static_loop new_item include_mode names (c ∷ cs) found =
      use_component include_mode names (component c).mca_component_name >>= λ used. elim used [
        | false ↦ static_loop new_item include_mode names cs found
        | true ↦ elim new_item [
          | true ↦ static_loop new_item include_mode names cs (found ++ (c ∷ []))
          | false ↦ done (false, found)
        ]
      ]

  -- `find_dyn_components` adds to the list what it loads, and `dynamic` says whether it is called. The
  -- list that a caller passes is overwritten, unless the request is refused.
  unfoldable pub component_find :
      Memory
      → (new_item : Bool) → (find_dyn_components : Option Argv → Bool → List ℕ → W → List ℕ × W)
      → (dynamic : Bool) → (requested : Option Str) → (flags : ℕ) → (static_components : List ℕ)
      → List ℕ
      → W
      → Exec (Status × List ℕ × W)
  component_find mem new_item find_dyn_components dynamic requested flags static_components cs w =
      parse_requested mem requested >>= λ (status, include_mode, names). elim status [
        | success ↦ static_loop new_item include_mode names static_components [] >>= λ (all, found).
            elim all [
              | false ↦ done (success, found, w)
              | true ↦
                  let (found', w') =
                    if dynamic
                    then find_dyn_components names include_mode found w
                    else (found, w) in
                  final_check include_mode flags names found' >>= λ ret. done (success, found', w')
            ]
        | failed ↦ done (failed, cs, w)
      ]
