-- ===== src/ComponentCompare/Tests.antt =====
-- Runs of the comparisons on components "btl" / "tcp", and the theorem on two of them.
use libocoms.Prelude.{◌⊎◌, ◌≡◌, refl, [], ◌∷◌}
use libocoms.Prelude.Int.{ℤ, pos, negsuc}
use libocoms.ComponentCompare.{
  Component, negative, level, positive, compatible, compare, compare_priority, opposite, strncmp,
  or_else, larger_first, PriorityItem,
}
use libocoms.ComponentCompare.Signs.{
  Larger, Says, Precedes, Newer, NewerMinor, minor_key, full_key, priority_key, compare-Precedes,
}

abbrev release : ℤ → Component
release r = record {
  mca_type_name = 98 ∷ 116 ∷ 108 ∷ [];
  mca_component_name = 116 ∷ 99 ∷ 112 ∷ [];
  mca_component_major_version = pos 1;
  mca_component_minor_version = pos 6;
  mca_component_release_version = r;
}

-- The later release comes first, and is compatible.
later_first :
    (compare (release (pos 2)) (release (pos 1)) ≡ negative)
    × (compatible (release (pos 2)) (release (pos 1)) ≡ level)
unfolding compare compatible opposite strncmp or_else larger_first
later_first = (refl, refl)

higher_first :
    compare_priority
      (record { cli_component = release (pos 1); cpli_priority = negsuc 4 })
      (record { cli_component = release (pos 2); cpli_priority = pos 0 })
    ≡ positive
unfolding compare_priority compare opposite strncmp or_else larger_first
higher_first = refl

compare-itself : compare (release (pos 2)) (release (pos 2)) ≡ level
unfolding compare opposite strncmp or_else larger_first
compare-itself = refl

abbrev item : (r priority : ℤ) → PriorityItem
item r priority = record { cli_component = release r; cpli_priority = priority }

-- The second is the later release, but the first has the higher priority.
compare-Precedes_example :
    Says
      (Precedes Newer (release (pos 1)) (release (pos 2)))
      (full_key (release (pos 1)) ≡ full_key (release (pos 2)))
      (Precedes Newer (release (pos 2)) (release (pos 1)))
      (compare (release (pos 1)) (release (pos 2)))
    × Says
        (Precedes NewerMinor (release (pos 1)) (release (pos 2)))
        (minor_key (release (pos 1)) ≡ minor_key (release (pos 2)))
        (Precedes NewerMinor (release (pos 2)) (release (pos 1)))
        (compatible (release (pos 1)) (release (pos 2)))
    × Says
        (Larger (pos 0) (negsuc 4)
          ⊎ ((pos 0 ≡ negsuc 4) × Precedes Newer (release (pos 1)) (release (pos 2))))
        (priority_key (item (pos 1) (pos 0)) ≡ priority_key (item (pos 2) (negsuc 4)))
        (Larger (negsuc 4) (pos 0)
          ⊎ ((negsuc 4 ≡ pos 0) × Precedes Newer (release (pos 2)) (release (pos 1))))
        (compare_priority (item (pos 1) (pos 0)) (item (pos 2) (negsuc 4)))
compare-Precedes_example = compare-Precedes (item (pos 1) (pos 0)) (item (pos 2) (negsuc 4))
