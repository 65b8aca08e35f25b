-- ===== src/ComponentCompare.antt =====
-- The order of components, ocoms/mca/base/mca_base_component_compare.c. The `int` that a comparison
-- returns is modelled by its sign, which is all that C says of `strncmp` and all that sorting reads.
-- Names are the lists of their characters, as `unsigned char`.
pub mod Laws
pub mod Order
pub mod Signs
pub mod Tests
use libocoms.Prelude.{ℕ, zero, suc, ltb, if◌then◌else◌, List, [], ◌∷◌}
use libocoms.Prelude.Int.{ℤ, ltb_ℤ}

pub data Sign : Type 0 where
  negative level positive : Sign

-- `-val`
unfoldable pub opposite : Sign → Sign
opposite negative = positive
opposite level = level
opposite positive = negative

-- the fields of `ocoms_mca_base_component_t` that are compared
pub record Component : Type 0 where
  pub mca_type_name : List ℕ
  pub mca_component_name : List ℕ
  pub mca_component_major_version : ℤ
  pub mca_component_minor_version : ℤ
  pub mca_component_release_version : ℤ

pub record PriorityItem : Type 0 where
  pub cli_component : Component
  pub cpli_priority : ℤ

-- MCA_BASE_MAX_TYPE_NAME_LEN, MCA_BASE_MAX_COMPONENT_NAME_LEN
abbrev pub max_type_name_len : ℕ
max_type_name_len = 31

abbrev pub max_component_name_len : ℕ
max_component_name_len = 63

unfoldable pub strncmp : ℕ → List ℕ → List ℕ → Sign
strncmp zero s t = level
strncmp (suc n) [] [] = level
strncmp (suc n) [] (d ∷ t) = negative
strncmp (suc n) (c ∷ s) [] = positive
strncmp (suc n) (c ∷ s) (d ∷ t) =
    let rest = strncmp n s t in if ltb c d then negative else if ltb d c then positive else rest

-- if (val != 0) return val; and what follows
unfoldable pub or_else : Sign → Sign → Sign
or_else negative next = negative
or_else level next = next
or_else positive next = positive

-- if (a > b) return -1; else if (a < b) return 1; with 0 where neither holds
unfoldable pub larger_first : ℤ → ℤ → Sign
larger_first a b = if ltb_ℤ b a then negative else if ltb_ℤ a b then positive else level

unfoldable pub compatible : Component → Component → Sign
compatible aa bb =
    or_else (opposite (strncmp max_type_name_len aa.mca_type_name bb.mca_type_name)) (
      or_else
        (opposite (strncmp max_component_name_len aa.mca_component_name bb.mca_component_name))
        (or_else (larger_first aa.mca_component_major_version bb.mca_component_major_version)
          (larger_first aa.mca_component_minor_version bb.mca_component_minor_version)))

unfoldable pub compare : Component → Component → Sign
compare aa bb = or_else (opposite (strncmp max_type_name_len aa.mca_type_name bb.mca_type_name)) (
    or_else (opposite (strncmp max_component_name_len aa.mca_component_name bb.mca_component_name))
      (or_else (larger_first aa.mca_component_major_version bb.mca_component_major_version) (
        or_else (larger_first aa.mca_component_minor_version bb.mca_component_minor_version)
          (larger_first aa.mca_component_release_version bb.mca_component_release_version))))

unfoldable pub compare_priority : PriorityItem → PriorityItem → Sign
compare_priority a b =
    or_else (larger_first a.cpli_priority b.cpli_priority) (compare a.cli_component b.cli_component)
