-- ===== src/Server.antt =====
-- agent-runner/src/server.rs: the helpers of the handlers: the check of identifiers, the summary of a
-- finished run, the code of a run's answer, and when the history is purged. An `Instant` is a number.
pub mod Checks
pub mod Endpoints
pub mod Direct
pub mod Summaries
pub mod Router
mod Tests
use dog_bot.Common.{
  ℕ, zero, suc, ◌-◌, Bool, true, false, ◌||◌, Option, none, some, [], ◌∷◌, ◌++◌, length, is_empty,
  any, ltb, leb, ◌==◌, if◌then◌else◌,
}
use dog_bot.Common.Text.{Text, text, text_eq}
use dog_bot.Common.Text.Trim.{trim, is_control}
use dog_bot.Common.Result.{Result, ok, err}
use dog_bot.Models.{RunResponse, ErrorResponse}

-- `chars().take(n)`.
unfoldable pub take : ℕ → Text → Text
take zero s = []
take (suc n) [] = []
take (suc n) (c ∷ s) = c ∷ take n s

abbrev pub shortened : Text → Text
shortened trimmed = if leb (length trimmed) 80 then trimmed else take 80 trimmed ++ text "..."

unfoldable pub short_terminal_summary : Text → Text
unfolding trim take
short_terminal_summary output = shortened (trim output)

abbrev pub is_unsupported : ℕ → Bool
is_unsupported c = is_control c || c == b'`'

abbrev pub check_identifier : Text → Text → Result Text Text
check_identifier field_name normalized =
    if is_empty normalized
    then err (field_name ++ text " must be non-empty")
    else if any is_unsupported normalized
    then err (field_name ++ text " contains unsupported control characters or backticks")
    else ok normalized

unfoldable pub normalize_context_identifier : Text → Text → Result Text Text
unfolding trim is_control
normalize_context_identifier value field_name = check_identifier field_name (trim value)

-- The status code of the response; its body is the value that is given.
unfoldable pub map_run_result_to_response : Result ErrorResponse RunResponse → ℕ
map_run_result_to_response (ok response) = 200
map_run_result_to_response (err error) =
    if text_eq error.error_code (text "invalid_request")
    then 400
    else if error.timed_out
    then 408
    else if text_eq error.error_code (text "session_conflict")
    then 409
    else 500

-- `last_run_started_at`.
abbrev pub HistoryCleanupState : Type 0
HistoryCleanupState = Option ℕ

-- `duration_since` stops at zero.
unfoldable pub should_run : ℕ → ℕ → HistoryCleanupState → Bool × HistoryCleanupState
should_run interval now none = (true, some now)
should_run interval now (some last) =
    if ltb (now - last) interval then (false, some last) else (true, some now)
