-- ===== src/Checks/Manifests.antt =====
-- Manifests, as documents and as tokens.
use dippin_lang.Base.{[], ◌≡◌, ◌↔◌, refl, bytes, true, false, contains, ◌==◌, arith}
use dippin_lang.Dipx.Structure.{
  accepted, validate_json_structure, validate_tokens, dispatch_validation_token, handle_value_token,
  register_object_key, open_container, close_container, clear_pending_key, signatures,
}
use dippin_lang.Dipx.Structure.Document.{
  Json, text, plain, array, object, none_left, item, no_more, member, tokens_of, HasNames,
}
use dippin_lang.Dipx.Structure.Clean.{IsClean, validate_json_structure_iff}

abbrev entry : Json
entry = object (
    member (bytes "path") (text (bytes "workflows/a.dip"))
      (member (bytes "sha256") (text (bytes "00")) no_more))

abbrev manifest : Json
manifest = object (
    member (bytes "format_version") plain (
      member (bytes "entry") (text (bytes "workflows/a.dip"))
        (member (bytes "files") (array (item entry none_left)) no_more)))

-- A member with an empty key in front of the reserved one.
abbrev shifted : Json
shifted = object (member [] (text (bytes "x")) (member signatures plain no_more))

manifest-HasNames : HasNames manifest
manifest-HasNames = ground arith

-- All that the structure pass calls, to be opened at once.
structure_pass : Unit {0}
unfolding ◌==◌ contains tokens_of validate_json_structure validate_tokens dispatch_validation_token
    handle_value_token register_object_key open_container close_container clear_pending_key
structure_pass = tt

sound_passes : accepted (validate_json_structure false (tokens_of manifest [])) ≡ true
unfolding structure_pass
sound_passes = refl

-- The empty key puts keys and values out of step, and the reserved key passes.
reserved_passes : accepted (validate_json_structure false (tokens_of shifted [])) ≡ true
unfolding structure_pass
reserved_passes = refl

validate_json_structure_iff_example :
    (accepted (validate_json_structure false (tokens_of manifest [])) ≡ true) ↔ IsClean 0 manifest
validate_json_structure_iff_example = validate_json_structure_iff manifest manifest-HasNames
