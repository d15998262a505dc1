-- ===== src/Handler/Requests.antt =====
-- The request that is built from an event: it is one that the validation accepts, and its references are the mentions of others, numbered.
use dog_bot.Common.{length-append, suc}
use dog_bot.Common.{
  ℕ, true, false, ◌||◌, Option, none, some, List, [], ◌∷◌, ◌++◌, is_empty, if◌then◌else◌, ◌≡◌, inl,
  inr, refl, sym, ap, ◌∙◌, arith, Bool-cases, length,
}
use dog_bot.Common.Text.{Text, text, text_eq, text_eq_iff}
use dog_bot.Common.Text.Trim.{trim}
use dog_bot.Common.Result.{is_ok}
use mathlib.Core.List.{append_assoc, append-nil}
use dog_bot.Json.{Value}
use dog_bot.Protocol.{
  MessagePart, text_part, mention, image, file, voice, video, sticker, quote, CanonicalMessage,
  CanonicalEvent, message_of,
}
use dog_bot.Models.{MentionRef, RunRequest, validate_cwd, validate_with, validate}
use dog_bot.Handler.Plans.{
  numbered_ref, add_mention, add_parts, render_trigger_summary_with_refs, request_of,
  build_run_request_from_event,
}

-- The request is accepted just when its directory is one of the two approved roots.
pub validate_roots :
    (print : Value → Text) (r : RunRequest)
    → is_ok (validate print r)
      ≡ (text_eq r.cwd (text "/workspace") || text_eq r.cwd (text "/state"))
unfolding validate validate_cwd text_eq
validate_roots print r = go r.cwd
  where
    at_root :
        (cwd root : Text)
        → cwd ≡ root
        → is_ok (validate_with print r (validate_cwd root))
          ≡ (text_eq root (text "/workspace") || text_eq root (text "/state"))
        → is_ok (validate_with print r (validate_cwd cwd))
          ≡ (text_eq cwd (text "/workspace") || text_eq cwd (text "/state"))
    at_root cwd root e h = rw e h

    go :
        (cwd : Text)
        → is_ok (validate_with print r (validate_cwd cwd))
          ≡ (text_eq cwd (text "/workspace") || text_eq cwd (text "/state"))
    go cwd = elim (Bool-cases (text_eq cwd (text "/workspace"))) [
      | inl a ↦ at_root cwd (text "/workspace") ((text_eq_iff cwd (text "/workspace")).0 a) refl
      | inr a ↦ elim (Bool-cases (text_eq cwd (text "/state"))) [
        | inl b ↦ at_root cwd (text "/state") ((text_eq_iff cwd (text "/state")).0 b) refl
        | inr b ↦ ground (arith, a, b)
      ]
    ]

-- The mentions of others than the account, with the names they show.
abbrev pub others : Text → List MessagePart → List (Text × Text)
others account [] = []
others account (mention actor display ∷ parts) =
    let rest = others account parts in
    if text_eq actor account then rest else (actor, display) ∷ rest
others account (text_part t ∷ parts) = others account parts
others account (image a ∷ parts) = others account parts
others account (file a ∷ parts) = others account parts
others account (voice a ∷ parts) = others account parts
others account (video a ∷ parts) = others account parts
others account (sticker a ∷ parts) = others account parts
others account (quote id excerpt ∷ parts) = others account parts

abbrev pub number_from : ℕ → List (Text × Text) → List MentionRef
number_from n [] = []
number_from n ((actor, display) ∷ rest) = numbered_ref n actor display ∷ number_from (suc n) rest

add_mention_own :
    (account actor display summary : Text) (refs : List MentionRef)
    → text_eq actor account ≡ true
    → add_mention account actor display (summary, refs) ≡ (summary ++ display, refs)
unfolding add_mention
add_mention_own account actor display summary refs h = rw h refl

-- What another's mention adds to the summary.
abbrev marked : List MentionRef → Text → Text → Text
marked refs actor display =
    display ++ (text "[#" ++ ((numbered_ref (suc (length refs)) actor display).ref_id ++ text "]"))

add_mention_other :
    (account actor display summary : Text) (refs : List MentionRef)
    → text_eq actor account ≡ false
    → add_mention account actor display (summary, refs) ≡ (
      summary ++ marked refs actor display,
      refs ++ numbered_ref (suc (length refs)) actor display ∷ [],
    )
unfolding add_mention
add_mention_other account actor display summary refs h = rw h refl

add_parts-refs :
    (account : Text) (parts : List MessagePart) (summary : Text) (refs : List MentionRef)
    → (add_parts account parts (summary, refs)).1
      ≡ refs ++ number_from (suc (length refs)) (others account parts)
unfolding add_parts
add_parts-refs account [] summary refs = sym (append-nil refs)
add_parts-refs account (mention actor display ∷ parts) summary refs =
    elim (Bool-cases (text_eq actor account)) [
      | inl own ↦
          ap (λ st. (add_parts account parts st).1)
            (add_mention_own account actor display summary refs own)
          ∙ rw own (add_parts-refs account parts (summary ++ display) refs)
      | inr other ↦
          let added = numbered_ref (suc (length refs)) actor display in
          let longer : length (refs ++ added ∷ []) ≡ suc (length refs) =
            omega (arith, length-append refs (added ∷ [])) in
          ap (λ st. (add_parts account parts st).1)
            (add_mention_other account actor display summary refs other)
          ∙ add_parts-refs account parts (summary ++ marked refs actor display) (refs ++ added ∷ [])
          ∙ rw (other, longer)
              (append_assoc refs (added ∷ [])
                (number_from (suc (suc (length refs))) (others account parts)))
    ]
add_parts-refs account (text_part t ∷ parts) summary refs =
    add_parts-refs account parts (summary ++ t) refs
add_parts-refs account (image a ∷ parts) summary refs = add_parts-refs account parts summary refs
add_parts-refs account (file a ∷ parts) summary refs = add_parts-refs account parts summary refs
add_parts-refs account (voice a ∷ parts) summary refs = add_parts-refs account parts summary refs
add_parts-refs account (video a ∷ parts) summary refs = add_parts-refs account parts summary refs
add_parts-refs account (sticker a ∷ parts) summary refs = add_parts-refs account parts summary refs
add_parts-refs account (quote id excerpt ∷ parts) summary refs =
    add_parts-refs account parts summary refs

-- The references of a message are its mentions of others than the bot's account, in their order, numbered from `m1`.
pub render_trigger_summary_with_refs_numbered :
    (m : CanonicalMessage) (account : Text)
    → (render_trigger_summary_with_refs m account).1 ≡ number_from 1 (others account m.parts)
unfolding render_trigger_summary_with_refs
render_trigger_summary_with_refs_numbered m account =
    elim (Bool-cases (is_empty (trim (add_parts account m.parts ([], [])).0))) [
      | inl blank ↦ rw blank (add_parts-refs account m.parts [] [])
      | inr given ↦ rw given (add_parts-refs account m.parts [] [])
    ]

-- A request that is built from an event is always accepted by the validation.
pub build_run_request_from_event-accepted :
    (print : Value → Text) (e : CanonicalEvent) (r : RunRequest)
    → build_run_request_from_event e ≡ some r
    → is_ok (validate print r) ≡ true
unfolding build_run_request_from_event
build_run_request_from_event-accepted print e r h = built (message_of e) h
  where
    built :
        (o : Option CanonicalMessage) → request_of e o ≡ some r → is_ok (validate print r) ≡ true
    built none h = cc
    built (some m) h =
        let root : r.cwd ≡ text "/workspace" = ground (arith, h) in
        validate_roots print r ∙ rw root (unfold text_eq in refl)
