-- ===== src/Framework/Tests.antt =====
-- Lives of a framework in a world that counts what is called, and the theorems on them.
use libocoms.Prelude.{ℕ, ◌+◌, ◌≡◌, ◌≢◌, refl, none, some, List, [], ◌∷◌, done, false, Returns}
use libocoms.Prelude.Int.{pos}
use libocoms.Components.{ComponentHooks}
use libocoms.Framework.{
  Framework, Services, index, refused, no_output, is_registered, framework_register, register_group,
  Hook,
}
use libocoms.Framework.Open.{framework_open}
use libocoms.Framework.Phases.{Call, register, open_it, close_it}
use libocoms.Framework.Errors.{framework_open-unregistered}
use libocoms.Status.{success, not_found}

abbrev quiet : ComponentHooks ℕ
quiet = record {
  mca_component_name = [];
  param_field = 0;
  mca_open_component = none;
  mca_close_component = none;
  mca_query_component = none;
}

-- The world counts the calls of the framework's own open function.
abbrev counting : Services ℕ
counting = record {
  library = record {
    component = λ c. quiet;
    group_find = λ c w. none;
    group_deregister = λ g w. w;
    repository_release = λ c w. w;
  };
  group_register = λ w. (index 0, w);
  selection_register = λ s w. (index 1, s, w);
  verbose_register = λ v w. (index 2, pos 5, w);
  group_find = λ w. some 0;
  group_lock = λ g w. w;
  group_deregister = λ g w. w;
  output_open = λ w. (pos 3, w);
  output_set_verbosity = λ o v w. w;
  output_close = λ o w. w;
  components_register = λ flags s cs w. (success, 7 ∷ [], w);
  components_open = λ flags s cs w. (success, cs, w);
  framework_register_fn = none;
  framework_open_fn = some (λ flags cs w. (success, cs, w + 1));
  framework_close_fn = none;
}

abbrev declared : Framework ℕ
declared = record {
  framework_flags = 0;
  framework_refcnt = 0;
  framework_selection = none;
  framework_verbose = pos 0;
  framework_output = no_output;
  framework_components = [];
  world = 0;
}

abbrev life : List Call
life = register 0 ∷ open_it 0 ∷ open_it 0 ∷ close_it ∷ []

same : {x y : ℕ → Hook ℕ} → some x ≡ some y → x ≡ y
same e = cc

-- A registry without room: the second open succeeds.
abbrev crowded : Services ℕ
crowded = record counting { group_register = λ w. (refused not_found, w) }

framework_open-unregistered_example : Returns (framework_open crowded 0 declared) (λ (ret, f').
    (ret ≢ success)
    × (is_registered f'.framework_flags ≡ false)
    × (f'.framework_refcnt ≡ 1)
    × (framework_open crowded 0 f' ≡ done (success, record f' { framework_refcnt = 2 })))
unfolding framework_register register_group
framework_open-unregistered_example =
    framework_open-unregistered crowded declared 0 0 refl refl (λ e. cc)
