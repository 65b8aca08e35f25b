-- ===== src/Environ.antt =====
-- Lists of environment variables, ocoms/util/ocoms_environ.c: NULL-terminated arrays of strings
-- "name=value" (Argv). `asprintf` gives NULL where its memory is not served. The process's own list is
-- changed by `putenv`, which is a parameter.
pub mod Lookup
pub mod Setting
pub mod Unsetting
pub mod Tests
use libocoms.Prelude.{
  ℕ, zero, suc, ◌+◌, ◌==◌, if◌then◌else◌, Bool, true, false, Option, none, some, List, [], ◌∷◌,
  ◌++◌, length, Exec, done, fault, out_of_range, null_pointer, ◌>>=◌,
}
use libocoms.Argv.{Str, Argv, Memory, count, append, copy}
use libocoms.Status.{Status, success, out_of_resource, bad_param, not_found, exists}

-- '='
abbrev pub equals : ℕ
equals = 61

-- `asprintf` of "%s=%s", or of "%s=" where the value is NULL
unfoldable pub entry : Str → Option Str → Str
entry name none = name ++ (equals ∷ [])
entry name (some value) = name ++ (equals ∷ value)

-- strncmp(s, prefix, strlen(prefix)) == 0
unfoldable pub starts_with : (prefix s : Str) → Bool
starts_with [] s = true
starts_with (c ∷ p) [] = false
starts_with (c ∷ p) (d ∷ s) = if c == d then starts_with p s else false

-- The loop of `ocoms_setenv` over the strings; `none` if no string starts with `compare`.
unfoldable pub set_slots : Argv → (compare newvalue : Str) → Bool → Exec (Option (Status × Argv))
set_slots [] compare newvalue overwrite = fault out_of_range
set_slots (none ∷ xs) compare newvalue overwrite = done none
set_slots (some s ∷ xs) compare newvalue overwrite =
    let later : Exec (Option (Status × Argv)) = set_slots xs compare newvalue overwrite >>= λ found.
    done (elim found [ none ↦ none | some r ↦ some (r.0, some s ∷ r.1) ]) in
    if starts_with compare s
    then done (some (if overwrite then (success, some newvalue ∷ xs) else (exists, some s ∷ xs)))
    else later

-- for (; argv[i] != NULL; ++i) argv[i] = argv[i + 1]
unfoldable pub shift_left : Argv → Exec Argv
shift_left [] = fault out_of_range
shift_left (none ∷ xs) = done (none ∷ xs)
shift_left (some s ∷ []) = fault out_of_range
shift_left (some s ∷ x ∷ xs) = shift_left (x ∷ xs) >>= λ ys. done (x ∷ ys)

-- The loop of `ocoms_unsetenv`, with whether a string was found.
unfoldable pub unset_slots : Argv → (compare : Str) → Exec (Bool × Argv)
unset_slots [] compare = fault out_of_range
unset_slots (none ∷ xs) compare = done (false, none ∷ xs)
unset_slots (some s ∷ xs) compare =
    let later : Exec (Bool × Argv) = unset_slots xs compare >>= λ r. done (r.0, some s ∷ r.1) in
    let removed : Exec (Bool × Argv) = shift_left (some s ∷ xs) >>= λ ys. done (true, ys) in
    if starts_with compare s then removed else later

-- strchr(s, '='): what is before the sign, and what is behind it if there is one
unfoldable pub split_entry : Str → Str × Option Str
split_entry [] = ([], none)
split_entry (c ∷ s) =
    let (name, value) = split_entry s in if c == equals then ([], some s) else (c ∷ name, value)

module _ (mem : Memory) where
  open mem use {serves}

  unfoldable pub unsetenv : Str → Option Argv → Exec (Status × Option Argv)
  unsetenv name none = done (success, none)
  unsetenv name (some xs) =
      if serves (length (entry name none) + 1)
      then (unset_slots xs (entry name none) >>= λ r.
          done (if r.0 then success else not_found, some r.1))
      else done (out_of_resource, some xs)

module _ (mem : Memory) (putenv : Argv → Str → Argv) where
  open mem use {serves}

  -- `ocoms_setenv` from the test of `*env` on; `own` is whether `*env` is `environ`. The result of
  -- `ocoms_argv_append` is not looked at.
  unfoldable pub set_in :
      (own : Bool) (compare newvalue : Str) → Bool → Option Argv → Exec (Status × Option Argv)
  set_in own compare newvalue overwrite none =
      append mem 0 none newvalue >>= λ (status, n, r). done (success, r)
  set_in true compare newvalue overwrite (some xs) = done (success, some (putenv xs newvalue))
  set_in false compare newvalue overwrite (some xs) =
      if serves (length compare + 1)
      then (set_slots xs compare newvalue overwrite >>= λ found. elim found [
        | some r ↦ done (r.0, some r.1)
        | none ↦ count (some xs) >>= λ n.
            append mem n (some xs) newvalue >>= λ (status, n', r). done (success, r)
      ])
      else done (out_of_resource, some xs)

  -- `env` is NULL for `none`.
  unfoldable pub setenv :
      (own : Bool)
      → Str
      → Option Str
      → Bool
      → Option (Option Argv)
      → Exec (Status × Option (Option Argv))
  setenv own name value overwrite env =
      if serves (length (entry name value) + 1)
      then (elim env [
        | none ↦ done (bad_param, none)
        | some e ↦ set_in own (entry name none) (entry name value) overwrite e >>= λ r.
            done (r.0, some r.1)
      ])
      else done (out_of_resource, env)

  -- for (i = 0; NULL != minor[i]; ++i) add it to `ret` unless its name is there; the copy of `minor[i]`
  -- is written to untested
  unfoldable pub merge_slots : Argv → Option Argv → Exec (Option Argv)
  merge_slots [] ret = fault out_of_range
  merge_slots (none ∷ minor) ret = done ret
  merge_slots (some s ∷ minor) ret =
      let (name, value) = split_entry s in
      let add : Exec (Option Argv) = setenv false name value false (some ret) >>= λ r.
      done (elim r.1 [ none ↦ ret | some e ↦ e ]) in
      let step : Exec (Option Argv) = elim value [
        | none ↦ add
        | some _ ↦ if serves (length s + 1) then add else fault null_pointer
      ] in
      step >>= λ ret'. merge_slots minor ret'

  unfoldable pub merge : (minor major : Option Argv) → Exec (Option Argv)
  merge none none = done none
  merge (some xs) none = copy mem (some xs)
  merge none (some ys) = copy mem (some ys)
  merge (some xs) (some ys) = copy mem (some ys) >>= λ ret. merge_slots xs ret
