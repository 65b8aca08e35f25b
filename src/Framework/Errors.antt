-- ===== src/Framework/Errors.antt =====
-- Calls on a framework when something that they call fails.
use libocoms.Prelude.{
  ℕ, ◌≡◌, ◌≢◌, refl, ap, ◌∙◌, inl, inr, some, done, false, Bool-cases, Option-cases, Returns,
}
use libocoms.Framework.{
  Framework, Services, Hook, Reply, index, refused, is_noregister, is_registered, run_hook,
  finish_register, framework_open_output, register_components, register_own, register_verbose,
  register_selection, register_group, framework_register,
}
use libocoms.Framework.Open.{open_first, framework_open}
use libocoms.Framework.Calls.{open_output-Leaves}
use libocoms.Status.{Status, success}

module _ {W : Type 0} where
  -- Neither flags nor references have changed, unless the call succeeded.
  abbrev Untouched : (flags refcnt : ℕ) → Status × Framework W → Type 0
  Untouched flags refcnt (ret, f) =
      (ret ≢ success → f.framework_flags ≡ flags) × (f.framework_refcnt ≡ refcnt)

  finish_register-Untouched :
      (r : Status × Framework W) {flags refcnt : ℕ}
      → r.1.framework_flags ≡ flags
      → r.1.framework_refcnt ≡ refcnt
      → Untouched flags refcnt (finish_register r)
  unfolding finish_register
  finish_register-Untouched (success, f) e g = (λ k. absurd (k refl), g)
  finish_register-Untouched (ret, f) e g = (λ k. e, g)

module _ {W : Type 0} (svc : Services W) where
  register_own-Untouched :
      (flags : ℕ) (f : Framework W)
      → Untouched f.framework_flags f.framework_refcnt (register_own svc flags f)
  unfolding register_own register_components run_hook
  register_own-Untouched flags f = elim (Option-cases svc.framework_register_fn) [
    | inl e ↦ rw (register_own, e) (finish_register-Untouched _ refl refl)
    | inr (hook, e) ↦ own hook e (hook flags f.framework_components f.world).0 refl
  ]
    where
      own :
          (hook : ℕ → Hook W)
          → svc.framework_register_fn ≡ some hook
          → (ret : Status) → (hook flags f.framework_components f.world).0 ≡ ret
          → Untouched f.framework_flags f.framework_refcnt (register_own svc flags f)
      own hook e success k = rw (register_own, e, k) (finish_register-Untouched _ refl refl)
      own hook e ret k = rw (register_own, e, k) (λ n. refl, refl)

  register_verbose-Untouched :
      (flags : ℕ) (f : Framework W)
      → Untouched f.framework_flags f.framework_refcnt (register_verbose svc flags f)
  unfolding register_verbose
  register_verbose-Untouched flags f =
      replied (svc.verbose_register f.framework_verbose f.world).0 refl
    where
      replied :
          (reply : Reply)
          → (svc.verbose_register f.framework_verbose f.world).0 ≡ reply
          → Untouched f.framework_flags f.framework_refcnt (register_verbose svc flags f)
      replied (refused why) e = rw (register_verbose, e) (λ n. refl, refl)
      replied (index n) e =
          let (_, value, w) = svc.verbose_register f.framework_verbose f.world in
          let f' = record f { framework_verbose = value; world = w } in
          let (_, same, count) = open_output-Leaves svc f' in
          let (same', count') = register_own-Untouched flags (framework_open_output svc f') in
          rw (register_verbose, e) (λ k. same' k ∙ same, count' ∙ count)

  register_selection-Untouched :
      (flags : ℕ) (f : Framework W)
      → Untouched f.framework_flags f.framework_refcnt (register_selection svc flags f)
  unfolding register_selection
  register_selection-Untouched flags f =
      replied (svc.selection_register f.framework_selection f.world).0 refl
    where
      replied :
          (reply : Reply)
          → (svc.selection_register f.framework_selection f.world).0 ≡ reply
          → Untouched f.framework_flags f.framework_refcnt (register_selection svc flags f)
      replied (refused why) e = rw (register_selection, e) (λ n. refl, refl)
      replied (index n) e =
          let (_, value, w) = svc.selection_register f.framework_selection f.world in
          rw (register_selection, e)
            (register_verbose-Untouched flags (record f { framework_selection = value; world = w }))

  register_group-Untouched :
      (flags : ℕ) (f : Framework W)
      → Untouched f.framework_flags f.framework_refcnt (register_group svc flags f)
  unfolding register_group
  register_group-Untouched flags f = replied (svc.group_register f.world).0 refl
    where
      replied :
          (reply : Reply)
          → (svc.group_register f.world).0 ≡ reply
          → Untouched f.framework_flags f.framework_refcnt (register_group svc flags f)
      replied (refused why) e = rw (register_group, e) (λ n. refl, refl)
      replied (index n) e =
          rw (register_group, e)
            (register_selection-Untouched flags
              (record f { world = (svc.group_register f.world).1 }))

  -- A registration that fails leaves the framework unregistered, and none changes the references.
  framework_register-Untouched :
      (flags : ℕ) (f : Framework W)
      → Untouched f.framework_flags f.framework_refcnt (framework_register svc flags f)
  unfolding framework_register
  framework_register-Untouched flags f = elim (Bool-cases (is_registered f.framework_flags)) [
    | inl e ↦ rw e (λ k. refl, refl)
    | inr e ↦ rw e (elim (Bool-cases (is_noregister f.framework_flags)) [
      | inl n ↦ rw n (λ k. absurd (k refl), refl)
      | inr n ↦ rw n (register_group-Untouched flags f)
    ])
  ]

  open_first-fails :
      (flags : ℕ) (f : Framework W) (ret : Status)
      → (framework_register svc 0 f).0 ≡ ret
      → ret ≢ success
      → open_first svc flags f ≡ framework_register svc 0 f
  unfolding open_first
  open_first-fails flags f success e k = absurd (k refl)
  open_first-fails flags f ret e k = rw (open_first, e) refl

  -- When the registration fails in the first open of a framework, the open returns its error, but the
  -- reference stays: the framework counts as open, and the next open returns success though nothing
  -- is registered or opened.
  pub framework_open-unregistered :
      (f : Framework W) (flags flags' : ℕ)
      → is_registered f.framework_flags ≡ false
      → f.framework_refcnt ≡ 0
      → (framework_register svc 0 (record f { framework_refcnt = 1 })).0 ≢ success
      → Returns (framework_open svc flags f) (λ (ret, f').
        (ret ≢ success)
        × (is_registered f'.framework_flags ≡ false)
        × (f'.framework_refcnt ≡ 1)
        × (framework_open svc flags' f' ≡ done (success, record f' { framework_refcnt = 2 })))
  unfolding framework_open
  framework_open-unregistered f flags flags' unregistered closed fails =
      let f₁ = record f { framework_refcnt = 1 } in
      let (same, count) = framework_register-Untouched 0 f₁ in
      (
        framework_register svc 0 f₁,
        rw (closed, open_first-fails flags f₁ (framework_register svc 0 f₁).0 refl fails) refl,
        (fails, ap is_registered (same fails) ∙ unregistered, count, rw count refl),
      )
