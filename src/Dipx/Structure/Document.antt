-- ===== src/Dipx/Structure/Document.antt =====
-- JSON documents, their tokens, and the rules of the structure pass on the documents themselves.
use dippin_lang.Base.{
  Str, ℕ, suc, List, [], ◌∷◌, ◌≡◌, ltb, eqb, contains, ◌&&◌, if◌then◌else◌, ◌==◌,
}
use dippin_lang.Base.Fallible.{ok, err, ◌>>=◌}
use dippin_lang.Dipx.Structure.{
  Token, open_object, open_array, close_object, close_array, string, scalar, too_deep,
  duplicate_key, reserved_key, Validated, max_manifest_depth, signatures,
}

mutual
  pub data Json : Type 0 where
    text : Str → Json
    plain : Json
    array : Items → Json
    object : Members → Json

  pub data Items : Type 0 where
    none_left : Items
    item : Json → Items → Items

  pub data Members : Type 0 where
    no_more : Members
    member : Str → Json → Members → Members

unfoldable mutual
  -- The tokens of a value, in front of others.
  pub tokens_of : Json → List Token → List Token
  tokens_of (text s) rest = string s ∷ rest
  tokens_of plain rest = scalar ∷ rest
  tokens_of (array xs) rest = open_array ∷ tokens_of_items xs (close_array ∷ rest)
  tokens_of (object ms) rest = open_object ∷ tokens_of_members ms (close_object ∷ rest)

  pub tokens_of_items : Items → List Token → List Token
  tokens_of_items none_left rest = rest
  tokens_of_items (item j xs) rest = tokens_of j (tokens_of_items xs rest)

  pub tokens_of_members : Members → List Token → List Token
  tokens_of_members no_more rest = rest
  tokens_of_members (member key j ms) rest = string key ∷ tokens_of j (tokens_of_members ms rest)

abbrev mutual
  -- No key is empty.
  pub HasNames : Json → Type 0
  HasNames (text s) = Unit
  HasNames plain = Unit
  HasNames (array xs) = HasItemNames xs
  HasNames (object ms) = HasMemberNames ms

  pub HasItemNames : Items → Type 0
  HasItemNames none_left = Unit
  HasItemNames (item j xs) = HasNames j × HasItemNames xs

  pub HasMemberNames : Members → Type 0
  HasMemberNames no_more = Unit
  HasMemberNames (member key j ms) = (¬ (key ≡ [])) × HasNames j × HasMemberNames ms

abbrev pub check_key : ℕ → List Str → Str → Validated Unit
check_key depth seen key =
    if contains seen key
    then err (duplicate_key key)
    else if eqb depth 1 && (key == signatures)
    then err reserved_key
    else ok tt

unfoldable mutual
  -- The pass as a recursion over the document; `depth` counts the containers around the value.
  pub inspect : ℕ → Json → Validated Unit
  inspect depth (text s) = ok tt
  inspect depth plain = ok tt
  inspect depth (array xs) =
      if ltb max_manifest_depth (suc depth) then err too_deep else inspect_items (suc depth) xs
  inspect depth (object ms) =
      if ltb max_manifest_depth (suc depth) then err too_deep else inspect_members (suc depth) [] ms

  pub inspect_items : ℕ → Items → Validated Unit
  inspect_items depth none_left = ok tt
  inspect_items depth (item j xs) = inspect depth j >>= λ u. inspect_items depth xs

  pub inspect_members : ℕ → List Str → Members → Validated Unit
  inspect_members depth seen no_more = ok tt
  inspect_members depth seen (member key j ms) = check_key depth seen key >>= λ u.
      inspect depth j >>= λ u. inspect_members depth (key ∷ seen) ms
