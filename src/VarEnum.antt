-- ===== src/VarEnum.antt =====
-- Enumerators of variables, ocoms/mca/base/mca_base_var_enum.c, without the dumps. `strtol` gives a
-- number and the text behind it, and `strcasecmp` whether two texts are equal but for case; both are
-- parameters, and so is whether a request for memory is served. The value of `strtol` is taken to fit
-- an `int`. A string is NULL when its `strdup` was not served.
mod Values
mod Tests
use libocoms.Prelude.{
  ℕ, zero, suc, ◌+◌, ◌*◌, leb, if◌then◌else◌, Bool, true, false, not, ◌&&◌, ◌||◌, Option, none,
  some, List, [], ◌∷◌, length, Exec, done, fault, out_of_range, null_pointer, ◌>>=◌, load,
}
use libocoms.Prelude.Int.{ℤ, pos, negsuc, ltb_ℤ}
use libocoms.Argv.{Str, strcmp_eq}
use libocoms.Status.{Status, success, out_of_resource, value_out_of_bounds}

-- `ocoms_mca_base_var_enum_value_t`, and a copy of an array of them without the end mark
abbrev pub EnumValue : Type 0
EnumValue = ℤ × Option Str

abbrev pub eq_ℤ : ℤ → ℤ → Bool
eq_ℤ a b = not (ltb_ℤ a b) && not (ltb_ℤ b a)

-- !!v
unfoldable pub truth : ℤ → ℤ
truth (pos zero) = pos 0
truth (pos (suc n)) = pos 1
truth (negsuc n) = pos 1

-- "true" and "false"
abbrev pub true_text : Str
true_text = 116 ∷ 114 ∷ 117 ∷ 101 ∷ []

abbrev pub false_text : Str
false_text = 102 ∷ 97 ∷ 108 ∷ 115 ∷ 101 ∷ []

-- value ? "true" : "false"
unfoldable pub truth_text : ℤ → Str
truth_text (pos zero) = false_text
truth_text (pos (suc n)) = true_text
truth_text (negsuc n) = true_text

-- "enabled" and "disabled"
unfoldable pub is_true : Str → Bool
is_true s =
    strcmp_eq s true_text
    || strcmp_eq s (116 ∷ [])
    || strcmp_eq s (101 ∷ 110 ∷ 97 ∷ 98 ∷ 108 ∷ 101 ∷ 100 ∷ [])

unfoldable pub is_false : Str → Bool
is_false s =
    strcmp_eq s false_text
    || strcmp_eq s (102 ∷ [])
    || strcmp_eq s (100 ∷ 105 ∷ 115 ∷ 97 ∷ 98 ∷ 108 ∷ 101 ∷ 100 ∷ [])

-- the enumerator of Boolean variables
unfoldable pub bool_get_value : (index : ℤ) → Status × Option (ℤ × Str)
bool_get_value index =
    if ltb_ℤ (pos 1) index
    then (value_out_of_bounds, none)
    else (success, some (truth index, truth_text index))

unfoldable pub bool_sfv : ℤ → Status × Str
bool_sfv value = (success, truth_text value)

-- for (i = 0 ; values[i].string ; ++i)
unfoldable pub count_values : List EnumValue → Exec ℕ
count_values [] = fault out_of_range
count_values ((v, none) ∷ xs) = done 0
count_values ((v, some s) ∷ xs) = count_values xs >>= λ n. done (suc n)

-- the loop that copies the values
unfoldable pub copy_values :
    (serves : ℕ → Bool) → (left : ℕ) → List EnumValue → Exec (List EnumValue)
copy_values serves zero xs = done []
copy_values serves (suc left) [] = fault out_of_range
copy_values serves (suc left) ((v, none) ∷ xs) = fault null_pointer
copy_values serves (suc left) ((v, some s) ∷ xs) = copy_values serves left xs >>= λ ys.
    done ((v, (if serves (length s + 1) then some s else none)) ∷ ys)

-- The sizes of an enumerator and of a value are `enum_size` and 16.
unfoldable pub enum_create :
    (serves : ℕ → Bool)
    → (enum_size : ℕ) → (name : Str) → List EnumValue
    → Exec (Status × Option (List EnumValue))
enum_create serves enum_size name values =
    if not (serves enum_size && serves (length name + 1))
    then done (out_of_resource, none)
    else count_values values >>= λ n. elim (serves ((n + 1) * 16)) [
      | false ↦ done (out_of_resource, none)
      | true ↦ copy_values serves n values >>= λ ys. done (success, some ys)
    ]

unfoldable pub enum_get_value : List EnumValue → (index : ℤ) → Exec (Status × Option EnumValue)
enum_get_value self (negsuc n) = fault out_of_range
enum_get_value self (pos i) =
    if leb (length self) i
    then done (value_out_of_bounds, none)
    else load self i >>= λ x. done (success, some x)

-- for (i = 0 ; i < count ; ++i), to the value that is searched
unfoldable pub enum_string_from_value : List EnumValue → ℤ → Status × Option (Option Str)
enum_string_from_value [] value = (value_out_of_bounds, none)
enum_string_from_value ((v, s) ∷ xs) value =
    let rest = enum_string_from_value xs value in if eq_ℤ value v then (success, some s) else rest

module _ (strtol : (base : ℕ) → Str → ℤ × Str) where
  unfoldable pub bool_vfs : Str → Status × Option ℤ
  bool_vfs s =
      let (v, rest) = strtol 10 s in
      elim rest [
        | [] ↦ (success, some (truth v))
        | c ∷ cs ↦
            if is_true s
            then (success, some (pos 1))
            else if is_false s
            then (success, some (pos 0))
            else (value_out_of_bounds, none)
      ]

  -- the loop of `enum_value_from_string`; strcasecmp of a NULL pointer is undefined
  unfoldable pub find_value :
      (strcasecmp : Str → Str → Bool)
      → (is_int : Bool) → (value : ℤ) → Str
      → List EnumValue
      → Exec (Status × Option ℤ)
  find_value strcasecmp is_int value text [] = done (value_out_of_bounds, none)
  find_value strcasecmp is_int value text ((v, s) ∷ xs) =
      let rest = find_value strcasecmp is_int value text xs in
      if is_int && eq_ℤ value v then done (success, some v) else elim s [
        | none ↦ fault null_pointer
        | some name ↦ if strcasecmp text name then done (success, some v) else rest
      ]

  unfoldable pub enum_value_from_string :
      (strcasecmp : Str → Str → Bool) → List EnumValue → Str → Exec (Status × Option ℤ)
  enum_value_from_string strcasecmp self text =
      let (value, rest) = strtol 0 text in
      find_value strcasecmp (elim rest [ [] ↦ true | c ∷ cs ↦ false ]) value text self
