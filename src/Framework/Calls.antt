-- ===== src/Framework/Calls.antt =====
-- Sequences of calls of `ocoms_mca_base_framework_register`, `_open` and `_close`, against the states
-- that a framework is in for its users.
use libocoms.Prelude.{
  ℕ, ◌+◌, ◌==◌, ◌≡◌, refl, ap, ◌∙◌, inl, inr, Option, none, some, List, arith, Bool-cases,
  Option-cases,
}
use libocoms.Framework.{
  Framework, Services, Hook, index, no_output, mark, unmark, given, is_noregister, is_registered,
  run_hook, finish_register, framework_close_output, framework_open_output, has_output,
  register_components, register_own, register_verbose, register_selection, register_group,
  framework_register,
}
use libocoms.Framework.Open.{finish_open, open_registered, open_first}
use libocoms.Framework.Close.{deregister, finish_close, close_open, unload_components, close_last}
use libocoms.Prelude.Int.{ℤ}
use libocoms.Components.{components_close}
use libocoms.Status.{Status, success}

-- Everything that the functions call succeeds.
pub record Serves {W : Type 0} (svc : Services W) : Type 0 where
  pub groups : (w : W) → (n : ℕ) × ((svc.group_register w).0 ≡ index n)
  pub selections :
      (s : Option (List ℕ)) (w : W) → (n : ℕ) × ((svc.selection_register s w).0 ≡ index n)
  pub verbosities : (v : ℤ) (w : W) → (n : ℕ) × ((svc.verbose_register v w).0 ≡ index n)
  pub registered_components :
      (flags : ℕ) (s : Option (List ℕ)) (cs : List ℕ) (w : W)
      → (svc.components_register flags s cs w).0 ≡ success
  pub opened_components :
      (flags : ℕ) (s : Option (List ℕ)) (cs : List ℕ) (w : W)
      → (svc.components_open flags s cs w).0 ≡ success
  pub registers :
      {hook : ℕ → Hook W} (flags : ℕ) (cs : List ℕ) (w : W)
      → svc.framework_register_fn ≡ some hook
      → (hook flags cs w).0 ≡ success
  pub opens :
      {hook : ℕ → Hook W} (flags : ℕ) (cs : List ℕ) (w : W)
      → svc.framework_open_fn ≡ some hook
      → (hook flags cs w).0 ≡ success
  pub closes :
      {hook : Hook W} (cs : List ℕ) (w : W)
      → svc.framework_close_fn ≡ some hook
      → (hook cs w).0 ≡ success

-- The call succeeded, with these flags and references.
abbrev pub Leaves : {W : Type 0} → (flags refcnt : ℕ) → Status × Framework W → Type 0
Leaves flags refcnt (ret, f) =
    (ret ≡ success) × (f.framework_flags ≡ flags) × (f.framework_refcnt ≡ refcnt)

module _ {W : Type 0} where
  finish_register-Leaves :
      (r : Status × Framework W) {flags refcnt : ℕ}
      → Leaves flags refcnt r
      → Leaves (mark flags) refcnt (finish_register r)
  unfolding finish_register
  finish_register-Leaves (success, f) (ok, e, g) = (refl, ap mark e, g)
  finish_register-Leaves (ret, f) (ok, e, g) = absurd (ground arith)

  finish_open-Leaves :
      (r : Status × Framework W) {flags refcnt : ℕ}
      → Leaves flags refcnt r
      → Leaves flags refcnt (finish_open r)
  unfolding finish_open
  finish_open-Leaves (success, f) h = h
  finish_open-Leaves (ret, f) (ok, e, g) = absurd (ground arith)

  given-ok :
      (own : Option (Hook W)) (default : Hook W)
      → ((cs : List ℕ) (w : W) → (default cs w).0 ≡ success)
      → ((hook : Hook W) → own ≡ some hook → (cs : List ℕ) (w : W) → (hook cs w).0 ≡ success)
      → (cs : List ℕ) (w : W) → (given own default cs w).0 ≡ success
  given-ok none default h k = h
  given-ok (some hook) default h k = k hook refl

module _ {W : Type 0} (svc : Services W) where
  -- Output streams are beside the flags and the references.
  pub open_output-Leaves :
      (f : Framework W)
      → Leaves f.framework_flags f.framework_refcnt (success, framework_open_output svc f)
  unfolding framework_open_output framework_close_output
  open_output-Leaves f = (refl, ground arith, ground arith)

  pub close_output-Leaves :
      (f : Framework W)
      → Leaves f.framework_flags f.framework_refcnt (success, framework_close_output svc f)
        × ((framework_close_output svc f).framework_output ≡ no_output)
  unfolding framework_close_output has_output
  close_output-Leaves f = ((refl, ground arith, ground arith), ground arith)

  module _ (law : Serves svc) where
    open law use {
      groups, selections, verbosities, registered_components, opened_components, registers, opens,
      closes,
    }

    register_components-Leaves :
        (flags : ℕ) (f : Framework W)
        → Leaves (mark f.framework_flags) f.framework_refcnt (register_components svc flags f)
    unfolding register_components run_hook
    register_components-Leaves flags f =
        finish_register-Leaves (run_hook (svc.components_register flags f.framework_selection) f) (
          registered_components flags f.framework_selection f.framework_components f.world,
          refl,
          refl,
        )

    register_own-Leaves :
        (flags : ℕ) (f : Framework W)
        → Leaves (mark f.framework_flags) f.framework_refcnt (register_own svc flags f)
    unfolding register_own run_hook
    register_own-Leaves flags f = elim (Option-cases svc.framework_register_fn) [
      | inl e ↦ rw (register_own, e) (register_components-Leaves flags f)
      | inr (hook, e) ↦
          rw (register_own, e, registers flags f.framework_components f.world e)
            (register_components-Leaves flags (run_hook (hook flags) f).1)
    ]

    register_verbose-Leaves :
        (flags : ℕ) (f : Framework W)
        → Leaves (mark f.framework_flags) f.framework_refcnt (register_verbose svc flags f)
    unfolding register_verbose
    register_verbose-Leaves flags f =
        let (n, e) = verbosities f.framework_verbose f.world in
        let (_, value, w) = svc.verbose_register f.framework_verbose f.world in
        let f' = record f { framework_verbose = value; world = w } in
        let (_, same, count) = open_output-Leaves f' in
        let (ok, marked, count') = register_own-Leaves flags (framework_open_output svc f') in
        rw (register_verbose, e) (ok, marked ∙ ap mark same, count' ∙ count)

    register_selection-Leaves :
        (flags : ℕ) (f : Framework W)
        → Leaves (mark f.framework_flags) f.framework_refcnt (register_selection svc flags f)
    unfolding register_selection
    register_selection-Leaves flags f =
        rw (register_selection, (selections f.framework_selection f.world).1)
          (register_verbose-Leaves flags _)

    pub framework_register-Leaves :
        (flags : ℕ) (f : Framework W)
        → Leaves (mark f.framework_flags) f.framework_refcnt (framework_register svc flags f)
    unfolding framework_register register_group
    framework_register-Leaves flags f = elim (Bool-cases (is_registered f.framework_flags)) [
      | inl e ↦ rw e (refl, refl, refl)
      | inr e ↦
          let f' = record f { world = (svc.group_register f.world).1 } in
          let (ok, marked, count) = register_selection-Leaves flags f' in
          let fresh : mark f.framework_flags ≡ f.framework_flags + 2 = ground arith in
          rw e (elim (Bool-cases (is_noregister f.framework_flags)) [
            | inl n ↦ rw n (refl, refl, refl)
            | inr n ↦ rw (n, register_group, (groups f.world).1) (ok, marked ∙ fresh, count)
          ])
    ]

    open_registered-Leaves :
        (flags : ℕ) (f : Framework W)
        → Leaves f.framework_flags f.framework_refcnt (open_registered svc flags f)
    unfolding open_registered run_hook
    open_registered-Leaves flags f =
        let f₁ = record f { world = svc.group_lock (svc.group_find f.world) f.world } in
        let (_, same, count) = open_output-Leaves f₁ in
        let f₂ = framework_open_output svc f₁ in
        elim (Option-cases svc.framework_open_fn) [
          | inl e ↦
              rw (open_registered, e)
                (finish_open-Leaves _ (
                  opened_components _ f₂.framework_selection f₂.framework_components f₂.world,
                  same,
                  count,
                ))
          | inr (hook, e) ↦
              rw (open_registered, e)
                (finish_open-Leaves _ (opens _ f₂.framework_components f₂.world e, same, count))
        ]

    pub open_first-Leaves :
        (flags : ℕ) (f : Framework W)
        → Leaves (mark f.framework_flags) f.framework_refcnt (open_first svc flags f)
    unfolding open_first
    open_first-Leaves flags f =
        let (ok, marked, count) = framework_register-Leaves 0 f in
        let (ok', same, count') = open_registered-Leaves flags (framework_register svc 0 f).1 in
        rw (open_first, ok) (ok', same ∙ marked, count' ∙ count)

    -- Closed: the stream is closed too.
    abbrev pub Closed : (flags : ℕ) → Status × Framework W → Type 0
    Closed flags r = Leaves flags 0 r × (r.1.framework_output ≡ no_output)

    finish_close-Closed :
        (r : Status × Framework W) {flags left : ℕ}
        → Leaves flags 0 r
        → unmark flags ≡ left
        → Closed left (finish_close svc r)
    unfolding finish_close
    finish_close-Closed (success, f) (ok, e, g) k =
        let f' = record f { framework_flags = unmark f.framework_flags } in
        let ((_, same, count), out) = close_output-Leaves f' in
        ((refl, same ∙ ap unmark e ∙ k, count ∙ g), out)
    finish_close-Closed (ret, f) (ok, e, g) k = absurd (ground arith)

    deregister-Leaves :
        (f : Framework W)
        → (unmark (deregister svc f).framework_flags ≡ unmark f.framework_flags)
          × ((deregister svc f).framework_refcnt ≡ f.framework_refcnt)
    unfolding deregister
    deregister-Leaves f = (ground arith, ground arith)

    -- The last close ends with every mark taken back.
    pub close_last-Closed : (f : Framework W) → Closed (unmark f.framework_flags) (close_last svc f)
    unfolding close_last unload_components close_open run_hook components_close
    close_last-Closed f =
        let f₁ = deregister svc (record f { framework_refcnt = 0 }) in
        let (same, count) = deregister-Leaves (record f { framework_refcnt = 0 }) in
        elim (Bool-cases (f.framework_refcnt == 0)) [
          | inl z ↦ rw z (finish_close-Closed _ (refl, refl, count) same)
          | inr s ↦ rw s (
              finish_close-Closed _
                (
                  given-ok svc.framework_close_fn (components_close svc.library none) (λ cs w. refl)
                      (λ hook e cs w. closes cs w e) f₁.framework_components f₁.world,
                  refl,
                  count,
                )
                same)
        ]
