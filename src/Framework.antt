-- ===== src/Framework.antt =====
-- The life of a framework, ocoms/mca/base/mca_base_framework.c. The fields that the functions change
-- are a record, with the world `W` that they change beside it. Registering variables, opening output
-- streams and the framework's own functions are parameters; a framework's function may change the
-- list of components and the world, and is taken to leave the other fields to the functions here.
pub mod Open
pub mod Close
mod Calls
mod Phases
mod Errors
mod Tests
use libocoms.Prelude.{
  ℕ, zero, suc, ◌+◌, ◌-◌, ◌/◌, ◌%◌, ◌==◌, ltb, if◌then◌else◌, Bool, true, false, not, ◌&&◌, Option,
  none, some, List, [], ◌∷◌, Exec, done, ◌>>=◌, int,
}
use libocoms.Prelude.Int.{ℤ, pos, negsuc, ltb_ℤ}
use libocoms.Argv.{Str}
use libocoms.Components.{Library, component_unload, components_close, run_all}
use libocoms.Status.{Status, success}

pub record Framework (W : Type 0) : Type 0 where
  pub framework_flags : ℕ
  pub framework_refcnt : ℕ
  pub framework_selection : Option Str
  pub framework_verbose : ℤ
  pub framework_output : ℤ
  pub framework_components : List ℕ
  pub world : W

-- An `int` that is an index, or a negative code.
pub data Reply : Type 0 where
  index : ℕ → Reply
  refused : Status → Reply

abbrev pub Hook : Type 0 → Type 0
Hook W = List ℕ → W → Status × List ℕ × W

-- What the functions call. `selection_register` and `verbose_register` get the value of the variable
-- and return the one it has afterwards; the flags of a call are numbers.
pub record Services (W : Type 0) : Type 0 where
  pub library : Library W
  pub group_register : W → Reply × W
  pub selection_register : Option Str → W → Reply × Option Str × W
  pub verbose_register : ℤ → W → Reply × ℤ × W
  pub group_find : W → Option ℕ
  pub group_lock : Option ℕ → W → W
  pub group_deregister : ℕ → W → W
  pub output_open : W → ℤ × W
  pub output_set_verbosity : ℤ → ℤ → W → W
  pub output_close : ℤ → W → W
  pub components_register : (flags : ℕ) → Option Str → Hook W
  pub components_open : (flags : ℕ) → Option Str → Hook W
  pub framework_register_fn : Option (ℕ → Hook W)
  pub framework_open_fn : Option (ℕ → Hook W)
  pub framework_close_fn : Option (Hook W)

-- -1, for no output stream
abbrev pub no_output : ℤ
no_output = negsuc 0

-- output != -1
unfoldable pub has_output : ℤ → Bool
has_output (pos n) = true
has_output (negsuc zero) = false
has_output (negsuc (suc n)) = true

-- MCA_BASE_FRAMEWORK_FLAG_NOREGISTER is the bit of value 1, and _REGISTERED that of value 2.
abbrev pub is_noregister : ℕ → Bool
is_noregister flags = flags % 2 == 1

abbrev pub is_registered : ℕ → Bool
is_registered flags = flags / 2 % 2 == 1

-- framework_flags |= MCA_BASE_FRAMEWORK_FLAG_REGISTERED, and &= ~…
abbrev pub mark : ℕ → ℕ
mark flags = if is_registered flags then flags else flags + 2

abbrev pub unmark : ℕ → ℕ
unmark flags = if is_registered flags then flags - 2 else flags

-- a function that may be NULL, and what is called instead
abbrev pub given : {A : Type 0} → Option A → A → A
given none default = default
given (some own) default = own

module _ {W : Type 0} where
  -- a function of the framework, or of its components
  unfoldable pub run_hook : Hook W → Framework W → Status × Framework W
  run_hook hook f =
      let (ret, cs, w) = hook f.framework_components f.world in
      (ret, record f { framework_components = cs; world = w })

  unfoldable pub finish_register : Status × Framework W → Status × Framework W
  finish_register (success, f) = (success, record f { framework_flags = mark f.framework_flags })
  finish_register (failed, f) = (failed, f)

module _ {W : Type 0} (svc : Services W) where
  open svc use {
    group_register, selection_register, verbose_register, output_open, output_set_verbosity,
    output_close, components_register, framework_register_fn,
  }

  unfoldable pub framework_close_output : Framework W → Framework W
  framework_close_output f =
      if has_output f.framework_output
      then record f {
        framework_output = no_output;
        world = output_close f.framework_output f.world;
      }
      else f

  unfoldable pub framework_open_output : Framework W → Framework W
  framework_open_output f =
      if ltb_ℤ (pos 0) f.framework_verbose
      then (let (output, w) =
            if has_output f.framework_output
            then (f.framework_output, f.world)
            else output_open f.world in
          record f {
            framework_output = output;
            world = output_set_verbosity output f.framework_verbose w;
          })
      else framework_close_output f

  -- the variables of the components
  unfoldable pub register_components : (flags : ℕ) → Framework W → Status × Framework W
  register_components flags f =
      finish_register (run_hook (components_register flags f.framework_selection) f)

  unfoldable pub register_own : (flags : ℕ) → Framework W → Status × Framework W
  register_own flags f = elim framework_register_fn [
    | none ↦ register_components flags f
    | some hook ↦
        let (ret, f') = run_hook (hook flags) f in
        elim ret [ success ↦ register_components flags f' | failed ↦ (failed, f') ]
  ]

  -- the variables of every framework, one after the other
  unfoldable pub register_verbose : (flags : ℕ) → Framework W → Status × Framework W
  register_verbose flags f =
      let (reply, value, w) = verbose_register f.framework_verbose f.world in
      let f' = record f { framework_verbose = value; world = w } in
      elim reply [
        | refused why ↦ (why, f')
        | index n ↦ register_own flags (framework_open_output f')
      ]

  unfoldable pub register_selection : (flags : ℕ) → Framework W → Status × Framework W
  register_selection flags f =
      let (reply, value, w) = selection_register f.framework_selection f.world in
      let f' = record f { framework_selection = value; world = w } in
      elim reply [ refused why ↦ (why, f') | index n ↦ register_verbose flags f' ]

  unfoldable pub register_group : (flags : ℕ) → Framework W → Status × Framework W
  register_group flags f =
      let (reply, w) = group_register f.world in
      let f' = record f { world = w } in
      elim reply [ refused why ↦ (why, f') | index n ↦ register_selection flags f' ]

  unfoldable pub framework_register : (flags : ℕ) → Framework W → Status × Framework W
  framework_register flags f =
      if is_registered f.framework_flags
      then (success, f)
      else if is_noregister f.framework_flags
      then (success, record f { framework_flags = mark f.framework_flags })
      else register_group flags f
