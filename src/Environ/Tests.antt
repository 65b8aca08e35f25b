-- ===== src/Environ/Tests.antt =====
-- Runs of the environment functions, and their theorems on the list "A=1", "B=2".
use libocoms.Prelude.{◌≡◌, ◌⊎◌, refl, true, List, [], ◌∷◌, ◌++◌, none, some, done}
use libocoms.Argv.{
  Str, Argv, Memory, append, append_nosize, extend, put_last, count, count_slots, realloc, copy,
  copy_slots,
}
use libocoms.Argv.Blocks.{block, points, Plenty}
use libocoms.Environ.{
  entry, starts_with, set_slots, set_in, setenv, unsetenv, split_entry, merge_slots, merge,
}
use libocoms.Environ.Lookup.{lookup, NoSign, nothing, character}
use libocoms.Environ.Setting.{SetsTo, setenv-Sets}
use libocoms.Environ.Unsetting.{unsetenv-TakesOut}
use libocoms.Status.{success, not_found}

abbrev served : Memory
served = record { serves = λ n. true; junk = none }

served-Plenty : Plenty served
served-Plenty n = refl

-- a `putenv` that puts the entry in front
abbrev put_first : Argv → Str → Argv
put_first xs s = some s ∷ xs

-- "A=1", "B=2"
abbrev variables : List Str
variables = (65 ∷ 61 ∷ 49 ∷ []) ∷ (66 ∷ 61 ∷ 50 ∷ []) ∷ []

abbrev name_b : Str
name_b = 66 ∷ []

name_b-NoSign : NoSign name_b
name_b-NoSign = character 66 [] refl nothing

merged :
    merge served put_first
      (some (block ((66 ∷ 61 ∷ 57 ∷ []) ∷ (67 ∷ []) ∷ []) []))
      (some (block variables []))
    ≡ done (some (block (variables ++ ((67 ∷ 61 ∷ []) ∷ [])) []))
unfolding merge merge_slots split_entry setenv set_in set_slots starts_with entry copy copy_slots
    append append_nosize extend put_last count count_slots realloc
merged = refl

setenv-Sets_example :
    SetsTo served put_first name_b (57 ∷ []) true (some (block variables [])) variables
setenv-Sets_example =
    setenv-Sets served put_first served-Plenty name_b (57 ∷ []) true (some (block variables []))
      variables (points variables []) name_b-NoSign

unsetenv-TakesOut_example :
    ((lookup name_b variables ≡ none)
      × (unsetenv served name_b (some (block variables []))
          ≡ done (not_found, some (block variables []))))
    ⊎ ((before : List Str) × (s : Str) × (after : List Str) × (variables ≡ before ++ (s ∷ after))
        × (lookup name_b before ≡ none)
        × (lookup name_b (s ∷ []) ≡ lookup name_b variables)
        × (unsetenv served name_b (some (block variables []))
            ≡ done (success, some (block (before ++ after) (none ∷ [])))))
unsetenv-TakesOut_example = unsetenv-TakesOut served name_b variables [] served-Plenty
