-- ===== src/Dipx/Structure.antt =====
-- The structure pass over a bundle's manifest: validateJSONStructure of dipx/manifest.go. The JSON
-- decoder yields the tokens, a list, and whether they end in a parse error.
pub mod Document
pub mod Inspected
pub mod Clean
use dippin_lang.Base.{
  Str, ℕ, zero, suc, ◌+◌, ◌-◌, List, [], ◌∷◌, Bool, true, false, ◌&&◌, not, ltb, eqb, contains,
  length, if◌then◌else◌, bytes, ◌==◌,
}
use dippin_lang.Base.Fallible.{Fallible, ok, err, ◌>>=◌}

-- What json.Decoder's Token yields; numbers, Booleans and null are not told apart.
pub data Token : Type 0 where
  open_object : Token
  open_array : Token
  close_object : Token
  close_array : Token
  string : Str → Token
  scalar : Token

pub record JsonFrame : Type 0 where
  pub is_obj : Bool
  pub seen : List Str
  pub key : Str

pub record Validation : Type 0 where
  pub stack : List JsonFrame
  pub depth : ℕ
  pub saw_top_level : Bool

-- `unbalanced` is the panic at a closing token without a container, which the decoder rules out.
pub data StructureError : Type 0 where
  parse_error : StructureError
  too_deep : StructureError
  duplicate_key : Str → StructureError
  reserved_key : StructureError
  unbalanced : StructureError

abbrev pub Validated : Type 0 → Type 0
Validated A = Fallible StructureError A

abbrev pub max_manifest_depth : ℕ
max_manifest_depth = 32

abbrev pub signatures : Str
signatures = bytes "signatures"

abbrev pub object_frame : List Str → Str → JsonFrame
object_frame seen key = record { is_obj = true; seen = seen; key = key }

abbrev pub array_frame : JsonFrame
array_frame = record { is_obj = false; seen = []; key = [] }

unfoldable pub clear_pending_key : List JsonFrame → List JsonFrame
clear_pending_key [] = []
clear_pending_key (top ∷ frames) = record top { key = [] } ∷ frames

unfoldable pub open_container : JsonFrame → Validation → Validated Validation
open_container frame v =
    if ltb max_manifest_depth (suc v.depth)
    then err too_deep
    else ok (record v { stack = frame ∷ v.stack; depth = suc v.depth })

abbrev pub pop : List JsonFrame → Validation → Validated Validation
pop [] v = err unbalanced
pop (top ∷ frames) v = ok (record {
  stack = clear_pending_key frames;
  depth = v.depth - 1;
  saw_top_level = if eqb (v.depth - 1) 0 then true else v.saw_top_level;
})

unfoldable pub close_container : Validation → Validated Validation
close_container v = pop v.stack v

unfoldable pub register_object_key : JsonFrame → Str → Bool → Validated JsonFrame
register_object_key top key at_top =
    if contains top.seen key
    then err (duplicate_key key)
    else if at_top && (key == signatures)
    then err reserved_key
    else ok (record top { seen = key ∷ top.seen; key = key })

-- A value at the top of the frame, once a key is pending or not.
abbrev pub key_or_value : Token → JsonFrame → Bool → Str → Validated JsonFrame
key_or_value (string s) top at_top [] = register_object_key top s at_top
key_or_value _ top at_top [] = ok top
key_or_value _ top at_top (c ∷ key) = ok (record top { key = [] })

abbrev pub value_in : Token → List JsonFrame → Bool → Validated (List JsonFrame)
value_in token [] at_top = ok []
value_in token (top ∷ frames) at_top =
    if top.is_obj
    then (key_or_value token top at_top top.key >>= λ top'. ok (top' ∷ frames))
    else ok (top ∷ frames)

unfoldable pub handle_value_token : Token → Validation → Validated Validation
handle_value_token token v =
    value_in token v.stack (eqb (length v.stack) 1 && not v.saw_top_level) >>= λ frames.
    ok (record v { stack = frames })

unfoldable pub dispatch_validation_token : Token → Validation → Validated Validation
dispatch_validation_token open_object v = open_container (object_frame [] []) v
dispatch_validation_token open_array v = open_container array_frame v
dispatch_validation_token close_object v = close_container v
dispatch_validation_token close_array v = close_container v
dispatch_validation_token (string s) v = handle_value_token (string s) v
dispatch_validation_token scalar v = handle_value_token scalar v

abbrev pub at_end : Bool → Validation → Validated Validation
at_end true v = err parse_error
at_end false v = ok v

-- The loop; `fails` says that the tokens end in a parse error.
unfoldable pub validate_tokens : Bool → List Token → Validation → Validated Validation
validate_tokens fails [] v = at_end fails v
validate_tokens fails (t ∷ ts) v = dispatch_validation_token t v >>= validate_tokens fails ts

abbrev pub new_validation : Validation
new_validation = record { stack = []; depth = 0; saw_top_level = false }

abbrev pub accepted : Validated Validation → Bool
accepted (ok v) = true
accepted (err e) = false

unfoldable pub validate_json_structure : Bool → List Token → Validated Validation
validate_json_structure fails tokens = validate_tokens fails tokens new_validation
