-- ===== src/Platform/Posts.antt =====
-- What an action of an adapter may send: each request satisfies a predicate.
use dog_bot.Common.Text.{Text}
use dog_bot.Common.Result.{Result, ok, err}
use dog_bot.Json.{Value}
use dog_bot.Models.{ErrorResponse}
use dog_bot.Platform.Client.{Post, Sending, then_send, ◌>>=◌}

-- From the first state to the second by requests of which each has a URL and a body that satisfy `P`, and by nothing else.
pub data Posts {W : Type 0} (post : Post W) (P : Text → Value → Type 0) : W → W → Type 0 where
  quiet : (w : W) → Posts post P w w
  posting :
      (url : Text) (body : Value) (w w' : W)
      → P url body
      → Posts post P (post url body w).1 w'
      → Posts post P w w'

module _ {W : Type 0} (post : Post W) (P : Text → Value → Type 0) where
  pub Posts-trans : {w w' w'' : W} → Posts post P w w' → Posts post P w' w'' → Posts post P w w''
  Posts-trans (quiet w) r = r
  Posts-trans (posting url body w w' p q) r = posting url body w _ p (Posts-trans q r)

  -- Every run of the action sends such requests only.
  abbrev pub Sends : {A : Type 0} → Sending W A → Type 0
  Sends m = (w : W) → Posts post P w (m w).1

  then_Sends :
      {A B : Type 0} (r : Result ErrorResponse A) (f : A → Sending W B) (w w' : W)
      → Posts post P w w'
      → ((a : A) → Sends (f a))
      → Posts post P w (then_send r f w').1
  then_Sends (ok a) f w w' p h = Posts-trans p (h a w')
  then_Sends (err e) f w w' p h = p

  pub >>=-Sends :
      {A B : Type 0} (m : Sending W A) (f : A → Sending W B)
      → Sends m
      → ((a : A) → Sends (f a))
      → Sends (m >>= f)
  >>=-Sends m f h k w = then_Sends (m w).0 f w (m w).1 (h w) k
