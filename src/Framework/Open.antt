-- ===== src/Framework/Open.antt =====
-- `ocoms_mca_base_framework_open` of ocoms/mca/base/mca_base_framework.c.
use libocoms.Prelude.{ℕ, ◌+◌, ◌%◌, ◌==◌, if◌then◌else◌, none, some, Exec, done, ◌>>=◌, int}
use libocoms.Status.{Status, success}
use libocoms.Framework.{
  Framework, Services, is_noregister, run_hook, framework_open_output, framework_register,
}

-- flags |= MCA_BASE_OPEN_FIND_COMPONENTS, the bit of value 1
abbrev pub find_components : ℕ → ℕ
find_components flags = if flags % 2 == 1 then flags else flags + 1

module _ {W : Type 0} where
  unfoldable pub finish_open : Status × Framework W → Status × Framework W
  finish_open (success, f) = (success, f)
  finish_open (failed, f) = (failed, record f { framework_refcnt = 0 })

module _ {W : Type 0} (svc : Services W) where
  open svc use {group_find, group_lock, components_open, framework_open_fn}

  -- `ocoms_mca_base_framework_open` behind the registration
  unfoldable pub open_registered : (flags : ℕ) → Framework W → Status × Framework W
  open_registered flags f =
      let flags' = if is_noregister f.framework_flags then find_components flags else flags in
      let f' =
        framework_open_output svc (record f { world = group_lock (group_find f.world) f.world }) in
      finish_open (elim framework_open_fn [
        | none ↦ run_hook (components_open flags' f'.framework_selection) f'
        | some hook ↦ run_hook (hook flags') f'
      ])

  -- and from the registration on, with MCA_BASE_REGISTER_DEFAULT, which is 0
  unfoldable pub open_first : (flags : ℕ) → Framework W → Status × Framework W
  open_first flags f =
      let (ret, f') = framework_register svc 0 f in
      elim ret [ success ↦ open_registered flags f' | failed ↦ (failed, f') ]

  unfoldable pub framework_open : (flags : ℕ) → Framework W → Exec (Status × Framework W)
  framework_open flags f = int (f.framework_refcnt + 1) >>= λ n.
      if f.framework_refcnt == 0
      then done (open_first flags (record f { framework_refcnt = n }))
      else done (success, record f { framework_refcnt = n })
