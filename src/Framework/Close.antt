-- ===== src/Framework/Close.antt =====
-- `ocoms_mca_base_framework_close` of ocoms/mca/base/mca_base_framework.c.
use libocoms.Prelude.{◌-◌, ◌==◌, ltb, if◌then◌else◌, not, ◌&&◌, none, some, []}
use libocoms.Components.{component_unload, components_close, run_all}
use libocoms.Status.{Status, success}
use libocoms.Framework.{
  Framework, Services, is_registered, unmark, given, run_hook, framework_close_output,
}

module _ {W : Type 0} (svc : Services W) where
  open svc use {library, group_find, group_deregister, framework_close_fn}

  -- the groups and variables of the framework
  unfoldable pub deregister : Framework W → Framework W
  deregister f = elim (group_find f.world) [
    | none ↦ f
    | some group ↦ record f {
      framework_flags = unmark f.framework_flags;
      world = group_deregister group f.world;
    }
  ]

  -- the end of `ocoms_mca_base_framework_close`
  unfoldable pub finish_close : Status × Framework W → Status × Framework W
  finish_close (success, f) = (
    success,
    framework_close_output svc (record f { framework_flags = unmark f.framework_flags }),
  )
  finish_close (failed, f) = (failed, f)

  unfoldable pub close_open : Framework W → Status × Framework W
  close_open f =
      finish_close (run_hook (given framework_close_fn (components_close library none)) f)

  -- while (NULL != (item = ocoms_list_remove_first (…)))
  unfoldable pub unload_components : Framework W → Framework W
  unload_components f = record f {
    framework_components = [];
    world = run_all (component_unload library) f.framework_components f.world;
  }

  unfoldable pub close_last : Framework W → Status × Framework W
  close_last f =
      let f' = deregister (record f { framework_refcnt = 0 }) in
      if f.framework_refcnt == 0
      then finish_close (success, unload_components f')
      else close_open f'

  unfoldable pub framework_close : Framework W → Status × Framework W
  framework_close f =
      if not (is_registered f.framework_flags) && f.framework_refcnt == 0
      then (success, f)
      else if ltb 1 f.framework_refcnt
      then (success, record f { framework_refcnt = f.framework_refcnt - 1 })
      else close_last f
