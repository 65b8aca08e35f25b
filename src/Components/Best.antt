-- ===== src/Components/Best.antt =====
-- `ocoms_mca_base_select`: of the components that offer a module, the first of the highest priority.
use mathlib.Core.List.{append-nil, append_assoc}
use mathlib.Core.Path.{subst}
use libocoms.Prelude.{
  ℕ, ◌≡◌, refl, sym, ap, ◌∙◌, inl, inr, ◌⊎◌, Option, none, some, List, [], ◌∷◌, ◌++◌, true, false,
  not, Bool-cases, Option-cases,
}
use libocoms.Prelude.Int.{ℤ, ltb_ℤ}
use libocoms.Components.{Library, component_close, is_skip, keep, run_all}
use libocoms.Components.Select.{Selection, int32_min, start, compare_best, select_loop, select}
use libocoms.Components.Filtering.{components_close-keep}
use libocoms.Status.{Status, success, not_found}
use libocoms.Components.Offers.{
  module_of, Offers, AtMost, Below, IsBest, AtMost-append, Below-append, AtMost-Below, Below-mono,
  below_trans,
}

module _ (offers : ℕ → Option (ℕ × ℤ)) where
  -- The local variables behind the components `pre`.
  data Chosen (pre : List ℕ) (s : Selection) : Type 0 where
    nothing :
        s.best ≡ none → s.best_priority ≡ int32_min → AtMost offers int32_min pre → Chosen pre s
    chosen :
        (c m : ℕ) (b : IsBest offers pre c m)
        → s.best ≡ some (c, m)
        → s.best_priority ≡ b.priority
        → Chosen pre s

  -- Everything before a higher offer is below it.
  Chosen-Below :
      (pre : List ℕ) (s : Selection) (p : ℤ)
      → Chosen pre s
      → ltb_ℤ s.best_priority p ≡ true
      → Below offers p pre × (ltb_ℤ int32_min p ≡ true)
  Chosen-Below pre s p (nothing e f h) l =
      let l' = subst (λ b. ltb_ℤ b p ≡ true) f l in (AtMost-Below offers int32_min p pre l' h, l')
  Chosen-Below pre s p (chosen c m b e f) l =
      let l' = subst (λ q. ltb_ℤ q p ≡ true) f l in
      (
        subst (Below offers p) (sym b.stands) (
            Below-append offers p b.before (c ∷ b.after)
              (Below-mono offers b.priority p b.before l' b.ahead)
              (
                λ m' q o. subst (λ x. ltb_ℤ x p ≡ true) (same b.offered o) l',
                AtMost-Below offers b.priority p b.after l' b.behind,
              )),
        below_trans b.priority p int32_min b.allowed l',
      )
    where
      same : {o : Option (ℕ × ℤ)} {x y : ℕ} {q r : ℤ} → o ≡ some (x, q) → o ≡ some (y, r) → q ≡ r
      same e f = cc

  -- A component that offers no more than the best so far changes nothing.
  Chosen-keep :
      (pre : List ℕ) (s t : Selection) (d : ℕ)
      → Chosen pre s
      → t.best ≡ s.best
      → t.best_priority ≡ s.best_priority
      → ((m : ℕ) (p : ℤ) → offers d ≡ some (m, p) → ltb_ℤ s.best_priority p ≡ false)
      → Chosen (pre ++ (d ∷ [])) t
  Chosen-keep pre s t d (nothing e f h) g k low = nothing (g ∙ e) (k ∙ f) (
      AtMost-append offers int32_min pre (d ∷ []) h
        (λ m p o. subst (λ b. ltb_ℤ b p ≡ false) f (low m p o), tt))
  Chosen-keep pre s t d (chosen c m b e f) g k low =
      chosen c m
        (record {
          priority = b.priority;
          before = b.before;
          offered = b.offered;
          allowed = b.allowed;
          ahead = b.ahead;
          after = b.after ++ (d ∷ []);
          stands =
              ap (λ xs. xs ++ (d ∷ [])) b.stands ∙ append_assoc b.before (c ∷ b.after) (d ∷ []);
          behind =
              AtMost-append offers b.priority b.after (d ∷ []) b.behind
                (λ m' p o. subst (λ q. ltb_ℤ q p ≡ false) f (low m' p o), tt);
        })
        (g ∙ e) (k ∙ f)

  -- The best after a component with offer `o`, from the best so far.
  Chosen-compare_best :
      (pre : List ℕ) (s : Selection) (d : ℕ) (o : Option (ℕ × ℤ))
      → Chosen pre s
      → offers d ≡ o
      → s.module_seen ≡ module_of o
      → ((m : ℕ) (p : ℤ) → o ≡ some (m, p) → s.priority ≡ p)
      → Chosen (pre ++ (d ∷ [])) (compare_best d s)
  unfolding compare_best
  Chosen-compare_best pre s d none h e seen rate =
      Chosen-keep pre s (compare_best d s) d h (rw seen refl) (rw seen refl) (λ m p o. cc)
  Chosen-compare_best pre s d (some (m, p)) h e seen rate =
      let known = rate m p refl in
      elim (Bool-cases (ltb_ℤ s.best_priority s.priority)) [
        | inl l ↦
            let (ahead, allowed) =
              Chosen-Below pre s p h (subst (λ q. ltb_ℤ s.best_priority q ≡ true) known l) in
            chosen d m
              (record {
                priority = p;
                before = pre;
                after = [];
                stands = refl;
                offered = e;
                allowed = allowed;
                ahead = ahead;
                behind = tt;
              })
              (rw (seen, l) refl) (rw (seen, l) known)
        | inr l ↦
            Chosen-keep pre s (compare_best d s) d h (rw (seen, l) refl) (rw (seen, l) refl)
              (λ m' q o. subst (λ r. ltb_ℤ s.best_priority r ≡ false) (known ∙ same e o) l)
      ]
    where
      same : {o : Option (ℕ × ℤ)} {x y : ℕ} {q r : ℤ} → o ≡ some (x, q) → o ≡ some (y, r) → q ≡ r
      same e f = cc

  module _ {W : Type 0} (lib : Library W) where
    -- The result when no component is good enough, and when `c` is the best, with the module `m`.
    abbrev pub NoneSelected : List ℕ → W → Status × Option (ℕ × ℕ) × List ℕ × W → Type 0
    NoneSelected cs queried (status, best, left, w) =
        (status ≡ not_found)
        × (best ≡ none)
        × (left ≡ [])
        × AtMost offers int32_min cs
        × (w ≡ run_all (component_close lib) cs queried)

    abbrev pub OneSelected : List ℕ → W → (c m : ℕ) → Status × Option (ℕ × ℕ) × List ℕ × W → Type 0
    OneSelected cs queried c m (status, best, left, w) =
        (status ≡ success)
        × (best ≡ some (c, m))
        × IsBest offers cs c m
        × (left ≡ keep (is_skip (some c)) cs)
        × (w ≡ run_all (component_close lib) (keep (λ d. not (is_skip (some c) d)) cs) queried)

  module _ {W : Type 0} (lib : Library W) (law : Offers lib offers) where
    open law use {silent, replies, rates}

    select_loop-Chosen :
        (cs pre : List ℕ) (s : Selection) (w : W)
        → Chosen pre s
        → Chosen (pre ++ cs) (select_loop lib cs s w).0
    unfolding select_loop
    select_loop-Chosen [] pre s w h = subst (λ xs. Chosen xs s) (sym (append-nil pre)) h
    select_loop-Chosen (c ∷ cs) pre s w h =
        subst (λ xs. Chosen xs (select_loop lib (c ∷ cs) s w).0) (append_assoc pre (c ∷ []) cs)
          (elim (Option-cases (lib.component c).mca_query_component) [
            | inl e ↦
                rw (select_loop, e)
                  (select_loop-Chosen cs (pre ++ (c ∷ [])) s w
                    (Chosen-keep pre s s c h refl refl (λ m p o. absurd (no_offer (silent c e) o))))
            | inr (query, e) ↦
                let seen = replies c query w e in
                rw (select_loop, e)
                  (select_loop-Chosen cs (pre ++ (c ∷ [])) _ _ (
                    Chosen-compare_best pre _ c (offers c) (Chosen-start pre s _ refl refl h) refl
                      (rw seen refl) (λ m p o. rw (rates c query w e o) refl)))
          ])
      where
        no_offer : {o : Option (ℕ × ℤ)} {x : ℕ × ℤ} → o ≡ none → o ≡ some x → ⊥
        no_offer e f = cc

        Chosen-start :
            (pre : List ℕ) (s t : Selection)
            → t.best ≡ s.best
            → t.best_priority ≡ s.best_priority
            → Chosen pre s
            → Chosen pre t
        Chosen-start pre s t e f (nothing g k l) = nothing (e ∙ g) (f ∙ k) l
        Chosen-start pre s t e f (chosen c m b g k) = chosen c m b (e ∙ g) (f ∙ k)

    -- With queries that always answer, selection returns the component and the module of the first of
    -- the highest priority, if one above INT32_MIN is offered, and closes all others; otherwise it
    -- reports that none was found, and closes all.
    pub select-IsBest :
        (cs : List ℕ) (w : W)
        → let queried = (select_loop lib cs start w).1 in
          NoneSelected lib cs queried (select lib cs w)
          ⊎ ((c : ℕ) × (m : ℕ) × OneSelected lib cs queried c m (select lib cs w))
    unfolding select keep is_skip run_all
    select-IsBest cs w = elim (select_loop-Chosen cs [] start w (nothing refl refl tt)) [
      | nothing e f h ↦ inl (
          rw (select, e, components_close-keep lib none cs (select_loop lib cs start w).1)
            (refl, refl, nothing_kept cs, h, all_closed cs _))
      | chosen c m b e f ↦ inr (
        c,
        m,
        rw (select, e, components_close-keep lib (some c) cs (select_loop lib cs start w).1)
            (refl, refl, b, refl, refl),
      )
    ]
      where
        nothing_kept : (cs : List ℕ) → keep (is_skip none) cs ≡ []
        nothing_kept [] = refl
        nothing_kept (c ∷ cs) = nothing_kept cs

        all_closed :
            (cs : List ℕ) (w : W)
            → run_all (component_close lib) (keep (λ d. not (is_skip none d)) cs) w
              ≡ run_all (component_close lib) cs w
        all_closed [] w = refl
        all_closed (c ∷ cs) w = all_closed cs (component_close lib c w)
