-- ===== src/Components/Finding.antt =====
-- `ocoms_mca_base_component_find` on the components that were linked in.
use mathlib.Core.List.{append-nil, append_assoc}
use libocoms.Prelude.{
  ℕ, ◌≡◌, refl, ◌∙◌, ap, sym, Option, some, List, [], ◌∷◌, ◌++◌, done, true, false, Bool,
  if◌then◌else◌, inl, inr, Bool-cases,
}
use libocoms.Argv.{Str, Argv, Memory}
use libocoms.Argv.Blocks.{Plenty}
use libocoms.Components.{Library, keep}
use libocoms.Components.Find.{skip_negates, has_negate, static_loop, component_find}
use libocoms.Components.Requests.{
  names_of, includes, wanted, Names, parse_requested-Names, use_component-wanted,
}
use libocoms.Components.Filtering.{final_check-verdict}
use libocoms.Status.{success, error}

module _ {W : Type 0} (lib : Library W) where
  open lib use {component}

  abbrev pub wants : Bool → List Str → ℕ → Bool
  wants include ws c = wanted include ws (component c).mca_component_name

  static_loop-keep :
      (include : Bool) (cs found : List ℕ) {names : Option Argv} {ws : List Str}
      → Names names ws
      → static_loop lib true include names cs found
        ≡ done (true, found ++ keep (wants include ws) cs)
  unfolding static_loop keep
  static_loop-keep include [] found held = ap (λ xs. done (true, xs)) (sym (append-nil found))
  static_loop-keep include (c ∷ cs) found {ws} held =
      let used = use_component-wanted include (component c).mca_component_name held in
      elim (Bool-cases (wants include ws c)) [
        | inl e ↦
            rw (used, keep, e)
              (static_loop-keep include cs (found ++ (c ∷ [])) held
                ∙ ap (λ xs. done (true, xs))
                    (append_assoc found (c ∷ []) (keep (wants include ws) cs)))
        | inr e ↦ rw (used, keep, e) (static_loop-keep include cs found held)
      ]

  -- With memory, a search finds the components that the request wants, in their order, and hands them
  -- to the search for files, whose list and world are the result. It reports success whatever it has
  -- found, also when a name that was asked for is missing; only a request with a negation behind its
  -- front is refused.
  pub component_find-Found :
      (mem : Memory) (s : Str) (flags : ℕ) (dynamic : Bool) (statics cs : List ℕ) (w : W)
      (find_dyn : Option Argv → Bool → List ℕ → W → List ℕ × W)
      → Plenty mem
      → (has_negate (skip_negates s) ≡ false
          → (names : Option Argv) × Names names (names_of s)
            × (let found = keep (wants (includes s) (names_of s)) statics in
                let (found', w') =
                  if dynamic then find_dyn names (includes s) found w else (found, w) in
                component_find lib mem true find_dyn dynamic (some s) flags statics cs w
                ≡ done (success, found', w')))
        × (has_negate (skip_negates s) ≡ true
            → component_find lib mem true find_dyn dynamic (some s) flags statics cs w
              ≡ done (error, cs, w))
  unfolding component_find
  component_find-Found mem s flags dynamic statics cs w find_dyn ok =
      let parsed = parse_requested-Names mem s ok in
      (
        λ e.
            let (names, ran, held) = parsed.1 e in
            (
              names,
              held,
              rw
                  (
                    ran,
                    static_loop-keep (includes s) statics [] held,
                    final_check-verdict lib (includes s) flags
                        (if dynamic
                          then find_dyn names (includes s)
                              (keep (wants (includes s) (names_of s)) statics) w
                          else (keep (wants (includes s) (names_of s)) statics, w)).0
                        held,
                  )
                  refl,
            ),
        λ e. rw (parsed.0 e) refl,
      )
