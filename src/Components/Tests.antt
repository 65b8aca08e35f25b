-- ===== src/Components/Tests.antt =====
-- Three components named a, b and c, in a world that is the list of what was done to it, and the
-- theorems on them.
use libocoms.Prelude.{
  ℕ, sym, ap, ◌∙◌, ◌+◌, ◌==◌, ◌≡◌, refl, Option, none, some, List, [], ◌∷◌, done, arith, true,
  false, Bool, if◌then◌else◌, ◌⊎◌, Returns,
}
use libocoms.Prelude.Int.{ℤ, pos}
use libocoms.Argv.Split.{pieces, kept}
use libocoms.Argv.{strcmp_eq, Str, Argv, Memory}
use libocoms.Components.{
  Library, ComponentHooks, Answer, component_unload, component_close, is_skip, close_loop,
  components_close, keep,
}
use libocoms.Components.Find.{
  skip_negates, has_negate, has_flags, parse_requested, component_find, components_filter, unset,
  filter_loop, use_component, final_check, component_find_check,
}
use libocoms.Components.Open.{open_loop, open_components}
use libocoms.Components.Select.{select_loop, select, compare_best}
use libocoms.Components.Requests.{names_of, includes, wanted, member, Names}
use libocoms.Components.Negations.{negated, nothing, other, parse_requested-negated}
use libocoms.Components.Finding.{component_find-Found}
use libocoms.Components.Offers.{Offers, module_of}
use libocoms.Components.Best.{NoneSelected, OneSelected, select-IsBest}
use libocoms.Status.{success, error, bad_param}

abbrev Log : Type 0
Log = List ℕ

-- Component 1 is named a, 2 b and 3 c; 2 does not open, and 3 has no query.
abbrev offers : ℕ → Option (ℕ × ℤ)
offers c = if c == 1 then some (11, pos 20) else if c == 2 then some (12, pos 30) else none

abbrev priority_of : Option (ℕ × ℤ) → Option ℤ
priority_of none = none
priority_of (some (m, p)) = some p

abbrev answer_of : ℕ → Answer
answer_of c = record {
  module_written = some (module_of (offers c));
  priority_written = priority_of (offers c);
}

abbrev query_of : ℕ → Option (Log → Answer × Log)
query_of c = if c == 3 then none else some (λ w. (answer_of c, (100 + c) ∷ w))

abbrev hooks : ℕ → ComponentHooks Log
hooks c = record {
  mca_component_name = (96 + c) ∷ [];
  param_field = 2;
  mca_open_component = if c == 2 then some (λ w. (bad_param, (200 + c) ∷ w)) else none;
  mca_close_component = some (λ w. (300 + c) ∷ w);
  mca_query_component = query_of c;
}

abbrev lib : Library Log
lib = record {
  component = hooks;
  group_find = λ c w. if c == 1 then some 7 else none;
  group_deregister = λ g w. (400 + g) ∷ w;
  repository_release = λ c w. (500 + c) ∷ w;
}

abbrev plenty : Memory
plenty = record { serves = λ n. true; junk = none }

abbrev three : List ℕ
three = 1 ∷ 2 ∷ 3 ∷ []

-- "a,d", "^b" and "a^b"
abbrev ask_ad : Str
ask_ad = 97 ∷ 44 ∷ 100 ∷ []

abbrev ask_not_b : Str
ask_not_b = 94 ∷ 98 ∷ []

abbrev ask_both : Str
ask_both = 97 ∷ 94 ∷ 98 ∷ []

-- Component 2 has the higher priority; the others are closed and unloaded.
select_two :
    select lib three []
    ≡ (success, some (2, 12), 2 ∷ [], 503 ∷ 303 ∷ 501 ∷ 407 ∷ 301 ∷ 102 ∷ 101 ∷ [])
unfolding select select_loop compare_best components_close close_loop component_close
    component_unload is_skip
select_two = refl

answers :
    (b : Bool) (c : ℕ) (query : Log → Answer × Log) (w : Log)
    → (if b then none else some (λ v. (answer_of c, (100 + c) ∷ v))) ≡ some query
    → (query w).0 ≡ answer_of c
answers true c query w e = cc
answers false c query w e = sym (ap (λ run. (run w).0) (same e))
  where
    same : {x y : Log → Answer × Log} → some x ≡ some y → x ≡ y
    same e = cc

offers_law : Offers lib offers
offers_law = record {
  silent = λ c e. ground arith;
  replies = λ c query w e. ap (λ a. a.module_written) (answers (c == 3) c query w e);
  rates = λ c query w e o.
      ap (λ a. a.priority_written) (answers (c == 3) c query w e) ∙ ap priority_of o;
}

select-IsBest_example :
    NoneSelected offers lib three (102 ∷ 101 ∷ []) (select lib three [])
    ⊎ ((c : ℕ) × (m : ℕ) × OneSelected offers lib three (102 ∷ 101 ∷ []) c m (select lib three []))
unfolding select_loop compare_best
select-IsBest_example = select-IsBest offers lib offers_law three []

component_find-Found_example :
    (names : Option Argv) × Names names (names_of ask_ad)
    × (component_find lib plenty true
          (λ names include found w. (found, w))
          false
          (some ask_ad)
          0
          three
          []
          []
        ≡ done (success, 1 ∷ [], []))
unfolding has_negate skip_negates includes keep wanted kept pieces member strcmp_eq
component_find-Found_example =
    (component_find-Found lib plenty ask_ad 0 false three [] []
        (λ names include found w. (found, w)) (λ n. refl)).0
      refl

-- "^^a,d" and "^^a^b"
parse_requested-negated_example :
    Returns (parse_requested plenty (some (negated 2 ask_ad))) (λ (ret, include_mode, names).
      (ret ≡ success) × (include_mode ≡ false) × Names names ((97 ∷ []) ∷ (100 ∷ []) ∷ []))
    × (parse_requested plenty (some (negated 2 ask_both)) ≡ done (error, false, none))
    × (parse_requested plenty none ≡ done (success, true, none))
unfolding kept pieces
parse_requested-negated_example =
    parse_requested-negated plenty 2 ask_ad 97 [] (98 ∷ []) (λ n. refl)
      (other (λ e. omega (arith, e))
        (other (λ e. omega (arith, e)) (other (λ e. omega (arith, e)) nothing)))
      (λ e. omega (arith, e))

-- Without a selection b is tried too, and closed and unloaded.
open_components_null :
    open_components lib plenty none 2 0 three [] ≡ done (success, 1 ∷ 3 ∷ [], 502 ∷ 302 ∷ 202 ∷ [])
unfolding open_components components_filter unset parse_requested filter_loop use_component
    final_check component_find_check has_flags open_loop component_unload component_close
open_components_null = refl
