-- ===== src/Qq/Delivery.antt =====
-- What reaches NapCat of a plan.
use dog_bot.Common.{
  ℕ, zero, suc, ◌<◌, true, false, ◌||◌, Option, none, some, List, [], ◌∷◌, all, is_empty, length,
  unwrap_or, or_else, ◌≡◌, inl, inr, refl, ◌∙◌, arith, Bool-cases,
}
use dog_bot.Common.Text.{Text, text_eq}
use dog_bot.Common.Text.Trim.{trim, is_ascii_digit}
use dog_bot.Common.Result.{Result, ok, err, is_ok}
use dog_bot.Json.{Value}
use dog_bot.Protocol.{OutboundMessage, OutboundPlan}
use dog_bot.Platform.{DeliveryContext, dispatch_plan}
use dog_bot.Platform.Dispatch.{part_allowed, is_ok-dispatch_plan}
use dog_bot.Platform.Client.{Post}
use dog_bot.Qq.Reactions.{
  qq_reaction_emoji_ids, id_of, qq_supported_reaction_id, fallback_index, fallback_id,
  qq_reaction_emoji_id,
}
use dog_bot.Qq.Send.{QqPlatform, send_plan}

fallback_index_bound : (s : Text) → fallback_index s < 6
unfolding fallback_index
fallback_index_bound [] = omega arith
fallback_index_bound (c ∷ s) = ground (arith, fallback_index_bound s)

abbrev IsNumber : Text → Type 0
IsNumber s = (is_empty s ≡ false) × (all is_ascii_digit s ≡ true)

abbrev Numbers : Option Text → Type 0
Numbers none = Unit
Numbers (some s) = IsNumber s

abbrev AllNumbers : List (Text × Text) → Type 0
AllNumbers [] = Unit
AllNumbers ((emoji, id) ∷ table) = IsNumber id × AllNumbers table

table_numbers : AllNumbers qq_reaction_emoji_ids
unfolding is_ascii_digit
table_numbers = (
  (refl, refl),
  ((refl, refl), ((refl, refl), ((refl, refl), ((refl, refl), ((refl, refl), tt))))),
)

id_of-Numbers :
    (emoji : Text) (table : List (Text × Text)) → AllNumbers table → Numbers (id_of emoji table)
id_of-Numbers emoji [] h = tt
id_of-Numbers emoji ((candidate, id) ∷ table) h = elim (Bool-cases (text_eq candidate emoji)) [
  | inl e ↦ rw e h.0
  | inr e ↦ rw e (id_of-Numbers emoji table h.1)
]

-- The index does not leave the table.
fallback_id-IsNumber :
    (n : ℕ) (table : List (Text × Text))
    → n < length table
    → AllNumbers table
    → IsNumber (unwrap_or (fallback_id n table) [])
unfolding fallback_id
fallback_id-IsNumber n [] h k = absurd (omega arith)
fallback_id-IsNumber zero ((emoji, id) ∷ table) h k = k.0
fallback_id-IsNumber (suc n) ((emoji, id) ∷ table) h k =
    fallback_id-IsNumber n table (omega arith) k.1

qq_supported_reaction_id-Numbers : (emoji : Text) → Numbers (qq_supported_reaction_id emoji)
unfolding qq_supported_reaction_id is_ascii_digit
qq_supported_reaction_id-Numbers emoji =
    elim (Bool-cases (text_eq emoji (0x2764 ∷ []) || text_eq emoji (0x2764 ∷ 0xfe0f ∷ []))) [
      | inl e ↦ rw e (refl, refl)
      | inr e ↦ rw e (id_of-Numbers emoji qq_reaction_emoji_ids table_numbers)
    ]

chosen-IsNumber :
    (o q : Option Text)
    → Numbers o
    → IsNumber (unwrap_or q [])
    → IsNumber (unwrap_or (or_else o q) [])
chosen-IsNumber none q h k = k
chosen-IsNumber (some s) q h k = h

-- Whatever emoji the agent asks for, if it is not blank then the id that NapCat is sent for it is a number: it is not empty and has no character but digits, and the index of the fallback never leaves the table.
pub qq_reaction_emoji_id_numeric :
    (emoji : Text)
    → is_empty (trim emoji) ≡ false
    → (is_empty (qq_reaction_emoji_id emoji) ≡ false)
      × (all is_ascii_digit (qq_reaction_emoji_id emoji) ≡ true)
      × (fallback_index (trim emoji) < length qq_reaction_emoji_ids)
unfolding qq_reaction_emoji_id
qq_reaction_emoji_id_numeric emoji h =
    let bound = fallback_index_bound (trim emoji) in
    let (given, digits) = chosen in (given, digits, bound)
  where
    chosen : IsNumber (qq_reaction_emoji_id emoji)
    chosen = elim (Bool-cases (all is_ascii_digit (trim emoji))) [
      | inl e ↦ rw e (h, e)
      | inr e ↦ rw e (
          chosen-IsNumber (qq_supported_reaction_id (trim emoji))
            (fallback_id (fallback_index (trim emoji)) qq_reaction_emoji_ids)
            (qq_supported_reaction_id-Numbers (trim emoji))
            (fallback_id-IsNumber (fallback_index (trim emoji)) qq_reaction_emoji_ids
              (fallback_index_bound (trim emoji)) table_numbers))
    ]

module _ {W : Type 0} (post : Post W) (print : Value → Text) (qq : QqPlatform) where
  -- A plan with an asset whose workspace path does not begin with `/workspace/` makes no request: neither its reactions nor any of its messages, also those before the asset, are sent, and the answer is an error.
  pub send_plan_refused :
      (context : DeliveryContext) (plan : OutboundPlan) (w : W)
      → all (λ (m : OutboundMessage). all part_allowed m.parts) plan.messages ≡ false
      → (is_ok (send_plan post print qq context plan w).0 ≡ false)
        × ((send_plan post print qq context plan w).1 ≡ w)
  unfolding send_plan
  send_plan_refused context plan w h = go (dispatch_plan plan) refl (is_ok-dispatch_plan plan ∙ h)
    where
      go :
          (r : Result Text (Unit {0}))
          → dispatch_plan plan ≡ r
          → is_ok (dispatch_plan plan) ≡ false
          → (is_ok (send_plan post print qq context plan w).0 ≡ false)
            × ((send_plan post print qq context plan w).1 ≡ w)
      go (ok u) e n = absurd (ground (arith, e, n))
      go (err message) e n = rw (send_plan, e) (refl, refl)
