-- ===== src/Server/Endpoints.antt =====
-- agent-runner/src/server.rs: the handlers of the routes. The body of a request is what the JSON
-- library reads of it, and the current times are arguments.
use dog_bot.Common.{ℕ, ◌*◌, Option, none, some, ◌++◌, if◌then◌else◌, String}
use dog_bot.Common.Text.{Text, text}
use dog_bot.Common.Text.Trim.{trim}
use dog_bot.Common.Int.{ℤ}
use dog_bot.Common.Result.{Result, ok, err}
use dog_bot.Json.{Value}
use dog_bot.Models.{
  RunRequest, ValidatedRunRequest, RunResponse, ErrorResponse, error_with, MessageRequest, validate,
  validate_message,
}
use dog_bot.Protocol.{CanonicalEvent}
use dog_bot.SessionTables.{SessionRecord, SessionStoreError, Database}
use dog_bot.Sessions.{get_session}
use dog_bot.History.{HistoryTables, purge_expired}
use dog_bot.History.Roles.{HistoryStore, HistoryStoreError}
use dog_bot.History.Queries.{purge_expired_history}
use dog_bot.Platform.Client.{Sending}
use dog_bot.Platform.Registry.{PlatformAdapter, PlatformRegistry, get}
use dog_bot.Delivery.{Messenger, deliver_message_request}
use dog_bot.Handler.{
  Response, refused, ran, accepted_response, delivery_response, App, handle_canonical_event,
}
use dog_bot.Server.{
  HistoryCleanupState, should_run, normalize_context_identifier, map_run_result_to_response,
}

abbrev pub error_response : ℕ → String → Text → Response
error_response code error_code message = record {
  status_code = code;
  body = refused (error_with error_code message);
}

-- The clocks: the instant in seconds, and the epoch.
pub record Clocks : Type 0 where
  pub instant : ℕ
  pub epoch : ℤ

abbrev pub Housekeeping : Type 0
Housekeeping = HistoryCleanupState × HistoryTables

abbrev pub history_cleanup_interval : ℕ
history_cleanup_interval = 60 * 60

-- The days are those of the store, which `open_store` takes from the settings.
unfoldable pub maybe_purge_expired_history : HistoryStore → Clocks → Housekeeping → Housekeeping
unfolding should_run purge_expired
maybe_purge_expired_history store clocks (state, history) =
    let (due, state') = should_run history_cleanup_interval clocks.instant state in
    (
      state',
      if due then purge_expired_history clocks.epoch store.retention_days history else history,
    )

abbrev pub bad_request : Text → Response
bad_request message = error_response 400 "invalid_request" message

-- `run` from the body on: the request with its three identifiers normalized, or the answer.
unfoldable pub normalize_request : RunRequest → Result Text RunRequest
unfolding normalize_context_identifier
normalize_request r = elim (normalize_context_identifier r.user_id (text "user_id")) [
  | err message ↦ err message
  | ok user_id ↦ elim (normalize_context_identifier r.conversation_id (text "conversation_id")) [
    | err message ↦ err message
    | ok conversation_id ↦
        elim (normalize_context_identifier r.platform_account_id (text "platform_account_id")) [
          | err message ↦ err message
          | ok platform_account_id ↦ ok (record r {
            user_id = user_id;
            conversation_id = conversation_id;
            platform_account_id = platform_account_id;
          })
        ]
  ]
]

abbrev pub run_body : Result ErrorResponse RunResponse → Response
run_body (ok response) = record {
  status_code = map_run_result_to_response (ok response);
  body = ran response;
}
run_body (err error) = record {
  status_code = map_run_result_to_response (err error);
  body = refused error;
}

abbrev pub Runner : Type 0 → Type 0
Runner W = RunRequest → ValidatedRunRequest → Sending W RunResponse

abbrev pub with_trimmed_id : MessageRequest → MessageRequest
with_trimmed_id r = record r { session_id = trim r.session_id }

module _ {W : Type 0} where
  abbrev pub run_validated :
      Runner W → RunRequest → Result Text ValidatedRunRequest → Sending W RunResponse
  run_validated runner r (err message) w = (err (error_with "invalid_request" message), w)
  run_validated runner r (ok validated) w = runner r validated w

  -- `print` is the JSON printer of the library.
  unfoldable pub execute_run_request :
      (Value → Text) → Runner W → RunRequest → Sending W RunResponse
  unfolding validate
  execute_run_request print runner r w = run_validated runner r (validate print r) w

  abbrev pub run_normalized : (Value → Text) → Runner W → Result Text RunRequest → W → Response × W
  run_normalized print runner (err message) w = (bad_request message, w)
  run_normalized print runner (ok r) w =
      let answer = execute_run_request print runner r w in (run_body answer.0, answer.1)

  abbrev pub run_parsed : (Value → Text) → Runner W → Result Text RunRequest → W → Response × W
  run_parsed print runner (err message) w = (error_response 400 "invalid_json" message, w)
  run_parsed print runner (ok r) w = run_normalized print runner (normalize_request r) w

  -- The handler of `/v1/runs`.
  unfoldable pub run :
      (Value → Text)
      → HistoryStore
      → Clocks
      → Runner W
      → Result Text RunRequest
      → Housekeeping × W
      → Response × Housekeeping × W
  unfolding maybe_purge_expired_history execute_run_request map_run_result_to_response
      normalize_request
  run print store clocks runner parsed (kept, w) =
      let kept' = maybe_purge_expired_history store clocks kept in
      let (answer, w') = run_parsed print runner parsed w in (answer, kept', w')

  abbrev pub send_to :
      PlatformRegistry W
      → Option (Messenger W)
      → (SessionStoreError → Text)
      → MessageRequest
      → Result SessionStoreError (Option SessionRecord)
      → W
      → Response × W
  send_to registry messenger show r (ok (some session)) w =
      let (answer, w') = deliver_message_request registry messenger r session w in
      (delivery_response answer, w')
  send_to registry messenger show r (ok none) w =
      (error_response 404 "session_not_found" (text "session_id is unknown"), w)
  send_to registry messenger show r (err error) w =
      (error_response 500 "internal_error" (text "session store failure: " ++ show error), w)

  abbrev pub send_checked :
      PlatformRegistry W
      → Option (Messenger W)
      → (SessionStoreError → Text)
      → MessageRequest
      → Result Text (Unit {0})
      → Database × W
      → Response × Database × W
  send_checked registry messenger show r (err message) (db, w) = (bad_request message, db, w)
  send_checked registry messenger show r (ok u) (db, w) =
      let (found, db') = get_session r.session_id db in
      let (answer, w') = send_to registry messenger show r found w in (answer, db', w')

  -- The handler of `/v1/messages`; `show` is what `{err}` prints of an error of the store.
  unfoldable pub send_message :
      PlatformRegistry W
      → Option (Messenger W)
      → (SessionStoreError → Text)
      → Result Text MessageRequest
      → Database × W
      → Response × Database × W
  unfolding validate_message get_session deliver_message_request trim
  send_message registry messenger show (err message) (db, w) =
      (error_response 400 "invalid_json" message, db, w)
  send_message registry messenger show (ok r) (db, w) =
      send_checked registry messenger show (with_trimmed_id r)
        (validate_message (with_trimmed_id r)) (db, w)

module _ {W : Type 0} (registry : PlatformRegistry W) where
  abbrev pub Handled : Type 0
  Handled = CanonicalEvent → App W → Response × App W

  abbrev pub decoded_event : Handled → Option CanonicalEvent → App W → Response × App W
  decoded_event handle none app = (accepted_response "ignored", app)
  decoded_event handle (some e) app = handle e app

  abbrev pub event_by : Handled → Option (PlatformAdapter W) → Value → App W → Response × App W
  event_by handle none payload app =
      (error_response 404 "platform_not_found" (text "platform is not registered"), app)
  event_by handle (some adapter) payload app =
      decoded_event handle (adapter.decode_event payload) app

  abbrev pub event_parsed : Handled → Text → Result Text Value → App W → Response × App W
  event_parsed handle platform_id (err message) app =
      (error_response 400 "invalid_json" message, app)
  event_parsed handle platform_id (ok payload) app =
      event_by handle (get platform_id registry) payload app

  -- The handler of the routes of the platforms.
  unfoldable pub handle_platform_event :
      Option (Messenger W)
      → Option HistoryStoreError
      → (Value → Text)
      → Text
      → HistoryStore
      → Clocks
      → Text
      → Result Text Value
      → HistoryCleanupState × App W
      → Response × HistoryCleanupState × App W
  unfolding maybe_purge_expired_history get handle_canonical_event
  handle_platform_event messenger failure print task_id store clocks platform_id parsed
        (state, app) =
      let (state', history) = maybe_purge_expired_history store clocks (state, app.history) in
      let (answer, app') =
        event_parsed (handle_canonical_event registry messenger failure print task_id) platform_id
          parsed (record app { history = history }) in
      (answer, state', app')
