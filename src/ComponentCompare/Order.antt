-- ===== src/ComponentCompare/Order.antt =====
-- The comparisons of components are orders.
use libocoms.Prelude.{◌≤◌, ◌≡◌, refl, length, arith}
use libocoms.ComponentCompare.{
  Sign, negative, level, positive, opposite, Component, max_type_name_len, max_component_name_len,
  or_else, compatible, compare, compare_priority,
}
use libocoms.ComponentCompare.Laws.{
  IsOrder, larger_first-IsOrder, reversed-IsOrder, or_else-IsOrder, by_part-IsOrder, strncmp-level,
  larger_first-level,
}

compare-IsOrder_alone : IsOrder compare
unfolding compare
compare-IsOrder_alone =
    or_else-IsOrder (by_part-IsOrder (λ a. a.mca_type_name) (reversed-IsOrder max_type_name_len)) (
      or_else-IsOrder
        (by_part-IsOrder (λ a. a.mca_component_name) (reversed-IsOrder max_component_name_len))
        (or_else-IsOrder (by_part-IsOrder (λ a. a.mca_component_major_version) larger_first-IsOrder)
          (or_else-IsOrder
            (by_part-IsOrder (λ a. a.mca_component_minor_version) larger_first-IsOrder)
            (by_part-IsOrder (λ a. a.mca_component_release_version) larger_first-IsOrder))))

compatible-IsOrder : IsOrder compatible
unfolding compatible
compatible-IsOrder =
    or_else-IsOrder (by_part-IsOrder (λ a. a.mca_type_name) (reversed-IsOrder max_type_name_len)) (
      or_else-IsOrder
        (by_part-IsOrder (λ a. a.mca_component_name) (reversed-IsOrder max_component_name_len))
        (or_else-IsOrder (by_part-IsOrder (λ a. a.mca_component_major_version) larger_first-IsOrder)
          (by_part-IsOrder (λ a. a.mca_component_minor_version) larger_first-IsOrder)))

-- The comparisons of components, of components with priorities, and of components without their
-- release are orders: exchanging the arguments exchanges the signs, elements that compare as equal
-- compare alike with all others, and coming first is transitive.
pub compare-IsOrder : IsOrder compare × IsOrder compare_priority × IsOrder compatible
unfolding compare_priority
compare-IsOrder = (
  compare-IsOrder_alone,
  or_else-IsOrder (by_part-IsOrder (λ a. a.cpli_priority) larger_first-IsOrder)
      (by_part-IsOrder (λ a. a.cli_component) compare-IsOrder_alone),
  compatible-IsOrder,
)

or_else-level : (x y : Sign) → or_else x y ≡ level → (x ≡ level) × (y ≡ level)
unfolding or_else
or_else-level negative y h = ground (arith, h)
or_else-level level y h = (refl, h)
or_else-level positive y h = ground (arith, h)

opposite-level : (x : Sign) → opposite x ≡ level → x ≡ level
unfolding opposite
opposite-level x h = ground (arith, h)

-- Components whose names fit the arrays they are kept in compare as equal only if their names and the
-- three parts of their versions are the same, and then they are compatible too.
pub compare-level :
    (aa bb : Component)
    → length aa.mca_type_name ≤ max_type_name_len
    → length bb.mca_type_name ≤ max_type_name_len
    → length aa.mca_component_name ≤ max_component_name_len
    → length bb.mca_component_name ≤ max_component_name_len
    → compare aa bb ≡ level
    → (aa.mca_type_name ≡ bb.mca_type_name)
      × (aa.mca_component_name ≡ bb.mca_component_name)
      × (aa.mca_component_major_version ≡ bb.mca_component_major_version)
      × (aa.mca_component_minor_version ≡ bb.mca_component_minor_version)
      × (aa.mca_component_release_version ≡ bb.mca_component_release_version)
      × (compatible aa bb ≡ level)
unfolding compare compatible or_else
compare-level aa bb a1 b1 a2 b2 h =
    let (types, h1) = or_else-level _ _ h in
    let (names, h2) = or_else-level _ _ h1 in
    let (majors, h3) = or_else-level _ _ h2 in
    let (minors, releases) = or_else-level _ _ h3 in
    (
      strncmp-level max_type_name_len aa.mca_type_name bb.mca_type_name a1 b1
          (opposite-level _ types),
      strncmp-level max_component_name_len aa.mca_component_name bb.mca_component_name a2 b2
          (opposite-level _ names),
      larger_first-level _ _ majors,
      larger_first-level _ _ minors,
      larger_first-level _ _ releases,
      rw (types, names, majors, minors) refl,
    )
