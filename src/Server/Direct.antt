-- ===== src/Server/Direct.antt =====
-- Which requests of `/v1/runs` reach the runner.
use dog_bot.Common.{false, is_empty, any, ◌≡◌, ◌⊎◌, inl, inr, refl, subst, arith}
use dog_bot.Common.Text.{Text, text}
use dog_bot.Common.Result.{Result, ok, err}
use dog_bot.Json.{Value}
use dog_bot.Models.{RunRequest, ValidatedRunRequest, validate}
use dog_bot.History.Roles.{HistoryStore}
use dog_bot.Server.{is_unsupported, normalize_context_identifier}
use dog_bot.Server.Checks.{IsIdentifier, normalize_context_identifier-IsIdentifier}
use dog_bot.Server.Endpoints.{
  Clocks, Housekeeping, Runner, normalize_request, execute_run_request, run,
}

-- Not empty, and with no control character and no backtick.
abbrev pub Identifies : Text → Type 0
Identifies s = (is_empty s ≡ false) × (any is_unsupported s ≡ false)

-- The three identifiers of the request are such texts.
pub record Identified (r : RunRequest) : Type 0 where
  pub user : Identifies r.user_id
  pub conversation : Identifies r.conversation_id
  pub account : Identifies r.platform_account_id

identifies :
    (value field_name s : Text)
    → normalize_context_identifier value field_name ≡ ok s
    → Identifies s
identifies value field_name s e =
    let i =
      subst (IsIdentifier field_name) e
        (normalize_context_identifier-IsIdentifier value field_name) in
    (i.0, i.1)

normalize_request-Identified : (r q : RunRequest) → normalize_request r ≡ ok q → Identified q
unfolding normalize_request
normalize_request-Identified r q h =
    go (normalize_context_identifier r.user_id (text "user_id")) refl
      (normalize_context_identifier r.conversation_id (text "conversation_id")) refl
      (normalize_context_identifier r.platform_account_id (text "platform_account_id")) refl
  where
    go :
        (a : Result Text Text)
        → normalize_context_identifier r.user_id (text "user_id") ≡ a
        → (b : Result Text Text)
        → normalize_context_identifier r.conversation_id (text "conversation_id") ≡ b
        → (c : Result Text Text)
        → normalize_context_identifier r.platform_account_id (text "platform_account_id") ≡ c
        → Identified q
    go (err m) ea b eb c ec = absurd (ground (arith, h, ea))
    go (ok x) ea (err m) eb c ec = absurd (ground (arith, h, ea, eb))
    go (ok x) ea (ok y) eb (err m) ec = absurd (ground (arith, h, ea, eb, ec))
    go (ok x) ea (ok y) eb (ok z) ec =
        let same : record r { user_id = x; conversation_id = y; platform_account_id = z } ≡ q =
          ground (arith, h, ea, eb, ec) in
        subst Identified same (record {
          user = identifies r.user_id (text "user_id") x ea;
          conversation = identifies r.conversation_id (text "conversation_id") y eb;
          account = identifies r.platform_account_id (text "platform_account_id") z ec;
        })

module _ {W : Type 0} (print : Value → Text) (runner : Runner W) where
  -- What a call of the handler has done: nothing, or one run of a request whose identifiers are checked and which is valid.
  abbrev pub RunsChecked : W → W → Type 0
  RunsChecked w w' =
      (w' ≡ w)
      ⊎ ((r : RunRequest) × (v : ValidatedRunRequest) × Identified r
          × (validate print r ≡ ok v)
          × (w' ≡ (runner r v w).1))

  -- Whatever the body of a request to `/v1/runs` is, the runner is not called, or is called once, for a request that passed `validate` and whose user, conversation and account are not empty and have no control character and no backtick.
  pub run-RunsChecked :
      (store : HistoryStore) (clocks : Clocks) (parsed : Result Text RunRequest)
      (kept : Housekeeping) (w : W)
      → RunsChecked w (run print store clocks runner parsed (kept, w)).2
  unfolding run execute_run_request
  run-RunsChecked store clocks (err message) kept w = inl refl
  run-RunsChecked store clocks (ok r) kept w = go (normalize_request r) refl
    where
      valid :
          (q : RunRequest)
          → normalize_request r ≡ ok q
          → (v : Result Text ValidatedRunRequest) → validate print q ≡ v
          → RunsChecked w (run print store clocks runner (ok r) (kept, w)).2
      valid q e (err message) e' = inl (rw (e, execute_run_request, e') refl)
      valid q e (ok v) e' =
          inr (q, v, normalize_request-Identified r q e, e', rw (e, execute_run_request, e') refl)

      go :
          (o : Result Text RunRequest)
          → normalize_request r ≡ o
          → RunsChecked w (run print store clocks runner (ok r) (kept, w)).2
      go (err message) e = inl (rw e refl)
      go (ok q) e = valid q e (validate print q) refl
