-- ===== src/Platform/Client.antt =====
-- The HTTP client (reqwest) as the adapters use it: a request that may fail to arrive, and an answer
-- whose body may fail to be JSON. What stands behind the client is a state of any type.
use dog_bot.Common.{ℕ, Bool, ◌&&◌, leb, ltb}
use dog_bot.Common.Text.{Text}
use dog_bot.Common.Result.{Result, ok, err, map_err}
use dog_bot.Json.{Value}
use dog_bot.Models.{ErrorResponse, error_with}

-- `answered` has the status code, what `{status}` prints of it, and the body.
pub data Answer : Type 0 where
  unreachable : Text → Answer
  answered : ℕ → Text → Result Text Value → Answer

-- `StatusCode::is_success`.
abbrev pub is_success : ℕ → Bool
is_success code = leb 200 code && ltb code 300

abbrev pub Post : Type 0 → Type 0
Post W = Text → Value → W → Answer × W

abbrev pub Sending : Type 0 → Type 0 → Type 0
Sending W A = W → Result ErrorResponse A × W

module _ {W : Type 0} where
  abbrev pub then_send : {A B : Type 0} → Result ErrorResponse A → (A → Sending W B) → Sending W B
  then_send (ok a) f w = f a w
  then_send (err e) f w = (err e, w)

  infixl 5 ◌>>=◌
  abbrev pub ◌>>=◌ : {A B : Type 0} → Sending W A → (A → Sending W B) → Sending W B
  ◌>>=◌ m f w = let r = m w in then_send r.0 f r.1

  abbrev pub give : {A : Type 0} → Result ErrorResponse A → Sending W A
  give r w = (r, w)

  -- A check that makes no request; its error is `delivery_invalid_plan`.
  abbrev pub planned : {A : Type 0} → Result Text A → Sending W A
  planned r = give (map_err (error_with "delivery_invalid_plan") r)
