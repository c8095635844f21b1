-- ===== src/Status/Code.antt =====
-- `StatusCode` of include/minikv/status.hpp.
pub data StatusCode : Type 0 where
  ok not_found incomplete invalid_argument io_error corruption version_mismatch closed : StatusCode
