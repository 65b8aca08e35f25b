-- ===== src/VarEnum/Tests.antt =====
-- An enumerator of two values, with a `strtol` that reads decimal digits, and the theorems on it.
use libocoms.Prelude.{
  ℕ, ◌+◌, ◌-◌, ◌*◌, ◌≡◌, refl, ltb, if◌then◌else◌, true, none, some, List, [], ◌∷◌, ◌||◌, done,
  fault, out_of_range, arith,
}
use libocoms.Prelude.Int.{ℤ, pos, negsuc}
use libocoms.Argv.{Str, strcmp_eq}
use libocoms.VarEnum.{
  EnumValue, truth, bool_sfv, bool_vfs, count_values, copy_values, enum_create, enum_get_value,
  enum_string_from_value, find_value, enum_value_from_string,
}
use libocoms.VarEnum.Values.{value_from_string-string_from_value, bool_vfs-truth_text}
use libocoms.Status.{success}

abbrev digits : ℕ → Str → ℕ × Str
digits acc [] = (acc, [])
digits acc (c ∷ s) =
    let more = digits (acc * 10 + (c - 48)) s in if ltb c 48 || ltb 57 c then (acc, c ∷ s) else more

abbrev strtol : (base : ℕ) → Str → ℤ × Str
strtol base s = let (n, rest) = digits 0 s in (pos n, rest)

-- "no" for 0 and "all" for 5
abbrev no_text : Str
no_text = 110 ∷ 111 ∷ []

abbrev all_text : Str
all_text = 97 ∷ 108 ∷ 108 ∷ []

abbrev two_values : List EnumValue
two_values = (pos 0, some no_text) ∷ (pos 5, some all_text) ∷ []

-- The values are copied up to the end mark; "5" is read as the value, and index -1 is outside.
created :
    enum_create
      (λ n. true)
      64
      no_text
      ((pos 0, some no_text) ∷ (pos 5, some all_text) ∷ (pos 0, none) ∷ [])
    ≡ done (success, some two_values)
unfolding enum_create count_values copy_values
created = refl

read_five :
    enum_value_from_string strtol strcmp_eq two_values (53 ∷ []) ≡ done (success, some (pos 5))
unfolding enum_value_from_string find_value strcmp_eq
read_five = refl

below_all : enum_get_value two_values (negsuc 0) ≡ fault out_of_range
unfolding enum_get_value
below_all = refl

strcmp_eq-same : (t : Str) → strcmp_eq t t ≡ true
unfolding strcmp_eq
strcmp_eq-same [] = refl
strcmp_eq-same (c ∷ t) = ground (arith, strcmp_eq-same t)

value_from_string-string_from_value_example :
    enum_value_from_string strtol strcmp_eq two_values all_text ≡ done (success, some (pos 5))
unfolding enum_string_from_value strcmp_eq
value_from_string-string_from_value_example =
    value_from_string-string_from_value strtol strcmp_eq two_values (pos 5) all_text strcmp_eq-same
      ((110, _, refl), (refl, tt), ((97, _, refl), tt, tt)) refl

bool_vfs-truth_text_example : bool_vfs strtol (bool_sfv (negsuc 3)).1 ≡ (success, some (pos 1))
unfolding truth
bool_vfs-truth_text_example = bool_vfs-truth_text strtol (negsuc 3) (116, _, refl) (102, _, refl)
