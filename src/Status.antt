-- ===== src/Status.antt =====
-- The return codes of ocoms/platform/ocoms_constants.h that the modelled functions use.
pub data Status : Type 0 where
  success error out_of_resource bad_param not_found exists value_out_of_bounds : Status
