-- ===== src/Checks/Bundles.antt =====
-- Paths, manifests and references of a bundle of two workflows.
use mathlib.Core.List.{reverse}
use dippin_lang.Base.{
  List, Str, [], ◌∷◌, ◌++◌, ◌≡◌, ◌↔◌, refl, bytes, Map, pos, has_prefix, has_suffix, has_substring,
  split, contains, lookup, insert, ◌==◌, In,
}
use dippin_lang.Base.Fallible.{ok, err}
use dippin_lang.Ir.{Workflow, Node, subgraph}
use dippin_lang.Search.{successors}
use dippin_lang.Search.Colors.{color_of, paint}
use dippin_lang.Dipx.Errors.{path_unsafe, ref_cycle, new_error}
use dippin_lang.Dipx.Paths.{
  slash, canonicalize, resolve_lexically, valid_bytes, join, clean_component, clean_components,
  clean, up_to_slash, join_path, strip_ext, is_windows_numbered_reserved, is_windows_reserved,
  check_component_whitespace_and_dots, check_component, check_each_component, check_path_components,
  check_rune, check_each_rune, check_bytes, check_path_basics, has_dot_dot_segment,
  check_path_structure, check_path_suffix, check_path_idempotent,
}
use dippin_lang.Dipx.Paths.Canonical.{IsCanonical, canonicalize_iff}
use dippin_lang.Dipx.Paths.Walk.{Walks}
use dippin_lang.Dipx.Paths.Resolve.{resolve_lexically-Walks}
use dippin_lang.Dipx.Shape.{Manifest, listed_paths, verify_manifest_shape}
use dippin_lang.Dipx.Shape.Listing.{IsListing, verify_manifest_shape_iff}
use dippin_lang.Dipx.Refs.{
  ref_from_node, refs_for_workflow, build_ref_graph, verify_targets, verify_refs_listed,
  from_target, last_to, format_cycle, dfs_visit_edge, dfs_visit_edges, dfs_visit, detect_cycles,
  detect_cycles_all, walk_refs,
}
use dippin_lang.Dipx.Refs.Listed.{Names, Resolves, Leads, IsCircular, walk_refs-acyclic}
use dippin_lang.Checks.Samples.{sample, plain_node}

-- Texts that are in NFC form, and in lower case.
abbrev kept : Str → Str
kept s = s

abbrev entry_path : Str
entry_path = bytes "workflows/a.dip"

abbrev other_path : Str
other_path = bytes "workflows/lib/b.dip"

-- All that Canonicalize calls, to be opened at once.
path_checks : Unit {0}
unfolding ◌==◌ has_prefix has_suffix has_substring split contains canonicalize resolve_lexically
    valid_bytes join clean_component clean_components clean up_to_slash join_path strip_ext
    is_windows_numbered_reserved is_windows_reserved check_component_whitespace_and_dots
    check_component check_each_component check_path_components check_rune check_each_rune
    check_bytes check_path_basics has_dot_dot_segment check_path_structure check_path_suffix
    check_path_idempotent
path_checks = tt

canonicalize_iff_example :
    (canonicalize kept other_path ≡ ok other_path)
    ↔ ((other_path ≡ other_path) × IsCanonical kept other_path)
canonicalize_iff_example = canonicalize_iff kept other_path other_path

device_refused :
    canonicalize kept (bytes "workflows/com1.x.dip")
    ≡ err (new_error path_unsafe (bytes "workflows/com1.x.dip"))
unfolding path_checks
device_refused = refl

overlong_refused :
    canonicalize kept (bytes "workflows/" ++ 0xc0 ∷ 0xaf ∷ bytes ".dip")
    ≡ err (new_error path_unsafe (bytes "workflows/" ++ 0xc0 ∷ 0xaf ∷ bytes ".dip"))
unfolding path_checks
overlong_refused = refl

upward : resolve_lexically kept (bytes "../a.dip") other_path ≡ ok entry_path
unfolding path_checks
upward = refl

outward :
    resolve_lexically kept (bytes "../../a.dip") other_path
    ≡ err (new_error path_unsafe (bytes "a.dip"))
unfolding path_checks
outward = refl

other_safe : IsCanonical kept other_path
unfolding path_checks
other_safe = ((canonicalize_iff kept other_path other_path).0 refl).1

resolve_lexically-Walks_example :
    IsCanonical kept entry_path
    × (directory : List Str) × (file : Str) × (split slash other_path ≡ directory ++ file ∷ [])
    × Walks (reverse directory) (split slash (bytes "../a.dip")) (reverse (split slash entry_path))
resolve_lexically-Walks_example =
    resolve_lexically-Walks kept (bytes "../a.dip") other_path entry_path other_safe upward

abbrev hash : Str
hash = bytes "0123456789abcdef0123456789abcdef0123456789abcdef0123456789abcdef"

abbrev manifest : Manifest
manifest = record {
  format_version = pos 1;
  entry = entry_path;
  files =
      record { path = entry_path; sha256 = hash }
      ∷ record { path = other_path; sha256 = hash }
      ∷ [];
}

verify_manifest_shape_iff_example :
    (verify_manifest_shape kept kept manifest ≡ ok tt) ↔ IsListing kept kept manifest
verify_manifest_shape_iff_example = verify_manifest_shape_iff kept kept manifest

abbrev refers_to : Str → Workflow
refers_to ref = record sample {
  nodes =
      plain_node (bytes "s") (bytes "subgraph") (subgraph (record { ref = ref; params = [] })) ∷ [];
}

abbrev parsed : Map Workflow
parsed =
    (entry_path, refers_to (bytes "lib/b.dip")) ∷ (other_path, record sample { nodes = [] }) ∷ []

abbrev circular : Map Workflow
circular =
    (entry_path, refers_to (bytes "lib/b.dip")) ∷ (other_path, refers_to (bytes "../a.dip")) ∷ []

ref_checks : Unit {0}
unfolding path_checks lookup successors color_of paint listed_paths ref_from_node refs_for_workflow
    build_ref_graph verify_targets verify_refs_listed from_target last_to format_cycle
    dfs_visit_edge dfs_visit_edges dfs_visit detect_cycles detect_cycles_all walk_refs insert
ref_checks = tt

parsed_pass : walk_refs kept parsed manifest ≡ ok tt
unfolding ref_checks
parsed_pass = refl

circle_found :
    walk_refs kept circular manifest
    ≡ err (new_error (ref_cycle (entry_path ∷ other_path ∷ entry_path ∷ [])) entry_path)
unfolding ref_checks
circle_found = refl

walk_refs-acyclic_example :
    ((p : Str) (n : Node)
      → Names kept parsed p n
      → (q : Str) × Resolves kept p n q × In q (listed_paths manifest.files))
    × ((p x : Str)
        → In p (listed_paths manifest.files)
        → Leads kept parsed p x
        → ¬ IsCircular kept parsed x)
walk_refs-acyclic_example = walk_refs-acyclic kept parsed manifest parsed_pass
