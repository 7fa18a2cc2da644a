-- ===== src/Dipx/Structure/Inspected.antt =====
-- The structure pass over the tokens of a document against the recursion over the document.
use dippin_lang.Base.{
  Str, ℕ, suc, ◌-◌, List, [], ◌∷◌, ◌≡◌, refl, sym, ap, ◌∙◌, arith, true, false, Bool-cases, inl,
  inr, ltb, eqb, contains, length, ◌==◌, if◌then◌else◌,
}
use dippin_lang.Base.Fallible.{ok, err, ◌>>=◌}
use dippin_lang.Dipx.Structure.{
  Token, close_object, close_array, string, JsonFrame, Validation, Validated, too_deep,
  object_frame, array_frame, max_manifest_depth, signatures, clear_pending_key, open_container,
  close_container, register_object_key, handle_value_token, dispatch_validation_token,
  validate_tokens, validate_json_structure,
}
use dippin_lang.Dipx.Structure.Document.{
  Json, text, plain, array, object, Items, none_left, item, Members, no_more, member, tokens_of,
  tokens_of_items, tokens_of_members, HasNames, HasItemNames, HasMemberNames, check_key, inspect,
  inspect_items, inspect_members,
}

-- Inside the document; the depth is that of the stack.
abbrev within : List JsonFrame → Validation
within stack = record { stack = stack; depth = length stack; saw_top_level = false }

-- Behind a container.
abbrev behind : List JsonFrame → Validation
behind [] = record { stack = []; depth = 0; saw_top_level = true }
behind (top ∷ frames) = within (record top { key = [] } ∷ frames)

-- A frame that a value comes in.
data IsAwaiting : JsonFrame → Type 0 where
  in_array : IsAwaiting array_frame
  in_member : {seen : List Str} {c : ℕ} {key : Str} → IsAwaiting (object_frame seen (c ∷ key))

abbrev run_on : List Token → Validation → Validated Validation
run_on ts v = validate_tokens false ts v

>>=-assoc :
    {A B C : Type 0} (m : Validated A) (f : A → Validated B) (g : B → Validated C)
    → ((m >>= f) >>= g) ≡ (m >>= λ a. f a >>= g)
>>=-assoc (ok a) f g = refl
>>=-assoc (err e) f g = refl

>>=-cong :
    {A B : Type 0} (m : Validated A) (f g : A → Validated B)
    → ((a : A) → f a ≡ g a)
    → (m >>= f) ≡ (m >>= g)
>>=-cong (ok a) f g h = h a
>>=-cong (err e) f g h = refl

close_container-within :
    (top : JsonFrame) (frames : List JsonFrame)
    → close_container (within (top ∷ frames)) ≡ ok (behind frames)
unfolding close_container clear_pending_key
close_container-within top [] = refl
close_container-within top (f ∷ frames) =
    let less : suc (suc (length frames)) - 1 ≡ suc (length frames) = omega arith in
    let more : eqb (suc (length frames)) 0 ≡ false = ground arith in
    rw (close_container, less, more) refl

key-check_key :
    (key : Str) (seen : List Str) (frames : List JsonFrame) (ts : List Token)
    → run_on (string key ∷ ts) (within (object_frame seen [] ∷ frames)) ≡ (
        check_key (suc (length frames)) seen key >>= λ u.
        run_on ts (within (object_frame (key ∷ seen) key ∷ frames)))
unfolding validate_tokens dispatch_validation_token handle_value_token register_object_key
key-check_key key seen frames ts = elim (Bool-cases (contains seen key)) [
  | inl old ↦ rw (old, register_object_key) refl
  | inr new ↦ elim (Bool-cases (eqb (suc (length frames)) 1)) [
    | inl top ↦ elim (Bool-cases (key == signatures)) [
      | inl reserved ↦ rw (new, top, reserved, register_object_key) refl
      | inr free ↦ rw (new, top, free, register_object_key) refl
    ]
    | inr inner ↦ rw (new, inner, register_object_key) refl
  ]
]

-- A frame is pushed where the depth allows it.
opened :
    (fresh : JsonFrame) (frames : List JsonFrame) (ts : List Token) (check : Validated Unit)
    (next : Validated Validation)
    → run_on ts (within (fresh ∷ frames)) ≡ (check >>= λ u. next)
    → (open_container fresh (within frames) >>= run_on ts) ≡ (
        (if ltb max_manifest_depth (suc (length frames)) then err too_deep else check) >>= λ u.
        next)
unfolding open_container
opened fresh frames ts check next h =
    elim (Bool-cases (ltb max_manifest_depth (suc (length frames)))) [
      | inl deep ↦ rw (deep, open_container) refl
      | inr fits ↦ rw (fits, open_container) h
    ]

closed :
    (top : JsonFrame) (frames : List JsonFrame) (rest : List Token)
    → (close_container (within (top ∷ frames)) >>= run_on rest) ≡ run_on rest (behind frames)
closed top frames rest = ap (λ v. v >>= run_on rest) (close_container-within top frames)

mutual
  unfolding tokens_of inspect validate_tokens dispatch_validation_token handle_value_token

  run_value :
      (j : Json) (rest : List Token) (top : JsonFrame) (frames : List JsonFrame)
      → IsAwaiting top
      → HasNames j
      → run_on (tokens_of j rest) (within (top ∷ frames))
        ≡ (inspect (length (top ∷ frames)) j >>= λ u. run_on rest (behind (top ∷ frames)))
  run_value (text s) rest _ frames in_array h = refl
  run_value (text s) rest _ frames in_member h = refl
  run_value plain rest _ frames in_array h = refl
  run_value plain rest _ frames in_member h = refl
  run_value (array xs) rest top frames a h =
      opened array_frame (top ∷ frames) _ (inspect_items (suc (length (top ∷ frames))) xs) _
        (run_items xs rest (top ∷ frames) h)
  run_value (object ms) rest top frames a h =
      opened (object_frame [] []) (top ∷ frames) _
        (inspect_members (suc (length (top ∷ frames))) [] ms) _
        (run_members ms rest [] (top ∷ frames) h)

  run_items :
      (xs : Items) (rest : List Token) (frames : List JsonFrame)
      → HasItemNames xs
      → run_on (tokens_of_items xs (close_array ∷ rest)) (within (array_frame ∷ frames))
        ≡ (inspect_items (suc (length frames)) xs >>= λ u. run_on rest (behind frames))
  run_items none_left rest frames h = closed array_frame frames rest
  run_items (item j xs) rest frames (h, hs) =
      let depth = suc (length frames) in
      run_value j (tokens_of_items xs (close_array ∷ rest)) array_frame frames in_array h
      ∙ >>=-cong (inspect depth j) _ _ (λ u. run_items xs rest frames hs)
      ∙ sym (
          >>=-assoc (inspect depth j) (λ u. inspect_items depth xs)
            (λ u. run_on rest (behind frames)))

  run_members :
      (ms : Members) (rest : List Token) (seen : List Str) (frames : List JsonFrame)
      → HasMemberNames ms
      → run_on (tokens_of_members ms (close_object ∷ rest)) (within (object_frame seen [] ∷ frames))
        ≡ (inspect_members (suc (length frames)) seen ms >>= λ u. run_on rest (behind frames))
  run_members no_more rest seen frames h = closed (object_frame seen []) frames rest
  run_members (member [] j ms) rest seen frames (named, h, hs) = absurd (named refl)
  run_members (member (c ∷ key) j ms) rest seen frames (named, h, hs) =
      let depth = suc (length frames) in
      let name = c ∷ key in
      let later = tokens_of_members ms (close_object ∷ rest) in
      let next = λ (u : Unit). run_on rest (behind frames) in
      let members = λ (u : Unit). inspect_members depth (name ∷ seen) ms in
      let value = run_value j later (object_frame (name ∷ seen) name) frames in_member h in
      key-check_key name seen frames (tokens_of j later)
      ∙ >>=-cong (check_key depth seen name) _ _ (λ u.
        value
        ∙ >>=-cong (inspect depth j) _ _ (λ u. run_members ms rest (name ∷ seen) frames hs)
        ∙ sym (>>=-assoc (inspect depth j) members next))
      ∙ sym (>>=-assoc (check_key depth seen name) (λ u. inspect depth j >>= members) next)

forget_state : (m : Validated Unit) (v : Validation) → ((m >>= λ u. ok v) >>= λ w. ok tt) ≡ m
forget_state (ok u) v = refl
forget_state (err e) v = refl

-- The structure pass over the tokens of a document without empty keys succeeds, or fails with the same
-- error, as the recursion over the document that checks depth and keys.
pub validate_json_structure-inspect :
    (j : Json)
    → HasNames j
    → (validate_json_structure false (tokens_of j []) >>= λ v. ok tt) ≡ inspect 0 j
unfolding validate_json_structure tokens_of inspect validate_tokens dispatch_validation_token
    handle_value_token
validate_json_structure-inspect (text s) h = refl
validate_json_structure-inspect plain h = refl
validate_json_structure-inspect (array xs) h =
    ap (λ o. o >>= λ v. ok tt)
      (opened array_frame [] _ (inspect_items 1 xs) _ (run_items xs [] [] h))
    ∙ forget_state (inspect 0 (array xs)) (behind [])
validate_json_structure-inspect (object ms) h =
    ap (λ o. o >>= λ v. ok tt)
      (opened (object_frame [] []) [] _ (inspect_members 1 [] ms) _ (run_members ms [] [] [] h))
    ∙ forget_state (inspect 0 (object ms)) (behind [])
