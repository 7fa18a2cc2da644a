-- ===== src/Dipx/Errors.antt =====
-- The errors of dipx/errors.go. The detail of an error and its cause are texts and left out, but for the
-- nodes of a cycle.
use dippin_lang.Base.{Str, List}
use dippin_lang.Base.Fallible.{Fallible}

pub data Sentinel : Type 0 where
  unsupported_format_version : Sentinel
  manifest_missing : Sentinel
  manifest_invalid : Sentinel
  file_missing : Sentinel
  file_unexpected : Sentinel
  hash_mismatch : Sentinel
  path_unsafe : Sentinel
  entry_not_in_manifest : Sentinel
  ref_escape : Sentinel
  ref_cycle : List Str → Sentinel
  cap_exceeded : Sentinel
  entry_parse : Sentinel
  subgraph_parse : Sentinel
  zip_feature_forbidden : Sentinel
  zip_truncated : Sentinel

pub record BundleError : Type 0 where
  pub sentinel : Sentinel
  pub path : Str

abbrev pub new_error : Sentinel → Str → BundleError
new_error s p = record { sentinel = s; path = p }

abbrev pub Bundled : Type 0 → Type 0
Bundled A = Fallible BundleError A
