-- ===== src/Components/Filtering.antt =====
-- `ocoms_mca_base_components_filter` against the meaning of a request, and closing a list.
use libocoms.Prelude.{
  ℕ, ◌%◌, ◌==◌, ◌≡◌, refl, inl, inr, Option, List, [], ◌∷◌, done, arith, Bool, not, ◌&&◌,
  if◌then◌else◌, Bool-cases,
}
use libocoms.Argv.{Str, Argv}
use libocoms.Components.{
  Library, component_unload, component_close, is_skip, close_loop, components_close, keep, run_all,
}
use libocoms.Components.Find.{final_check, has_flags, filter_loop}
use libocoms.Components.Requests.{
  wanted, Names, use_component-wanted, all_found, component_find_check-Names,
}
use libocoms.Status.{Status, success, not_found}

module _ {W : Type 0} (lib : Library W) where
  open lib use {component}

  -- What a component has to be for the filter to leave it.
  abbrev pub passes : Bool → List Str → (filter_flags : ℕ) → ℕ → Bool
  passes include ws filter_flags c =
      wanted include ws (component c).mca_component_name && has_flags lib filter_flags c

  abbrev pub verdict : Bool → (flags : ℕ) → List Str → List ℕ → Status
  verdict include flags ws left =
      if include && flags % 4 == 0
      then if all_found lib ws left then success else not_found
      else success

  pub filter_loop-keep :
      (include : Bool) (filter_flags : ℕ) (cs : List ℕ) (w : W) {names : Option Argv}
      {ws : List Str}
      → Names names ws
      → filter_loop lib include names filter_flags cs w
        ≡ done (
          keep (passes include ws filter_flags) cs,
          run_all (component_unload lib) (keep (λ c. not (passes include ws filter_flags c)) cs) w,
        )
  unfolding filter_loop keep run_all
  filter_loop-keep include filter_flags [] w held = refl
  filter_loop-keep include filter_flags (c ∷ cs) w {ws} held = ground (
    arith,
    use_component-wanted include (component c).mca_component_name held,
    filter_loop-keep include filter_flags cs w held,
    filter_loop-keep include filter_flags cs (component_unload lib c w) held,
  )

  pub final_check-verdict :
      (include : Bool) (flags : ℕ) (cs : List ℕ) {names : Option Argv} {ws : List Str}
      → Names names ws
      → final_check lib include flags names cs ≡ done (verdict include flags ws cs)
  unfolding final_check
  final_check-verdict include flags cs {ws} held = elim (Bool-cases (include && flags % 4 == 0)) [
    | inl e ↦ rw e (component_find_check-Names lib cs held)
    | inr e ↦ rw e refl
  ]

  close_loop-keep :
      (skip : Option ℕ) (cs : List ℕ) (w : W)
      → close_loop lib skip cs w ≡ (
        keep (is_skip skip) cs,
        run_all (component_close lib) (keep (λ c. not (is_skip skip c)) cs) w,
      )
  unfolding close_loop keep run_all
  close_loop-keep skip [] w = refl
  close_loop-keep skip (c ∷ cs) w =
      ground (arith, close_loop-keep skip cs w, close_loop-keep skip cs (component_close lib c w))

  -- Closing a list leaves the component to skip, and closes and unloads every other one in turn.
  pub components_close-keep :
      (skip : Option ℕ) (cs : List ℕ) (w : W)
      → components_close lib skip cs w ≡ (
        success,
        keep (is_skip skip) cs,
        run_all (component_close lib) (keep (λ c. not (is_skip skip c)) cs) w,
      )
  unfolding components_close
  components_close-keep skip cs w = rw (close_loop-keep skip cs w) refl
