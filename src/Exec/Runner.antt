-- ===== src/Exec/Runner.antt =====
-- agent-runner/src/exec.rs, `DockerRunner`: a run and its one retry. DockerRuntime hands its calls
-- on to Docker: it is a record of functions on a state of its own. The history tables are part of
-- the state, and the clocks, ids and tokens of a run are its inputs.
use dog_bot.Common.{ℕ, false, List, String, if◌then◌else◌}
use dog_bot.Common.Text.{Text, text}
use dog_bot.Common.Int.{ℤ}
use dog_bot.Common.Result.{Result, ok, err, map_err}
use dog_bot.Models.{RunRequest, ValidatedRunRequest, RunResponse, ErrorResponse, error_with}
use dog_bot.Config.{Settings}
use dog_bot.History.{HistoryTables, HistoryReadGrantToken, create_read_grants}
use dog_bot.SessionTables.{Action, Database, SessionRecord}
use dog_bot.Exec.{
  with_duration, should_retry_with_fresh_session, build_claude_command,
  history_read_grants_for_request, history_exec_env, map_session_store_error, load_runtime_session,
  reset_runtime_session,
}

-- The methods of `DockerRuntime` that a run calls.
pub record DockerRuntime (W : Type 0) : Type 0 where
  pub ensure_container_running : W → Result Text (Unit {0}) × W
  pub create_claude_exec : Text → Text → List Text → List Text → W → Result Text Text × W
  pub collect_exec_output : Text → W → Result Text (Text × Text × ℤ) × W

-- What a run takes from its clocks and its random numbers.
pub record RunInputs : Type 0 where
  pub driver_error : Text
  pub load_time : ℤ
  pub load_uuid : Text
  pub reset_time : ℤ
  pub reset_uuid : Text
  pub first_token : Text
  pub first_token_time : ℤ
  pub second_token : Text
  pub second_token_time : ℤ
  pub elapsed_ms : ℕ

pub record World (W : Type 0) : Type 0 where
  pub sessions : Database
  pub history : HistoryTables
  pub runtime : W

abbrev pub RunAction : Type 0 → Type 0 → Type 0
RunAction W A = World W → Result ErrorResponse A × World W

module _ {W : Type 0} where
  abbrev pub then_run :
      {A B : Type 0} → Result ErrorResponse A → (A → RunAction W B) → RunAction W B
  then_run (ok a) f w = f a w
  then_run (err e) f w = (err e, w)

  infixl 5 ◌>>=◌
  abbrev pub ◌>>=◌ : {A B : Type 0} → RunAction W A → (A → RunAction W B) → RunAction W B
  ◌>>=◌ m f w = let r = m w in then_run r.0 f r.1

  abbrev pub give : {A : Type 0} → A → RunAction W A
  give a w = (ok a, w)

  -- A call of the runtime, with its error under the code.
  abbrev pub on_runtime : {A : Type 0} → String → (W → Result Text A × W) → RunAction W A
  on_runtime code call w =
      let r = call w.runtime in (map_err (error_with code) r.0, record w { runtime = r.1 })

  abbrev pub on_sessions : {A : Type 0} → Text → Action A → RunAction W A
  on_sessions driver call w =
      let r = call w.sessions in
      (map_err (map_session_store_error driver) r.0, record w { sessions = r.1 })

abbrev pub response_of : Text × Text × ℤ → RunResponse
response_of (stdout, stderr, exit_code) = record {
  status = text "ok";
  stdout = stdout;
  stderr = stderr;
  exit_code = exit_code;
  timed_out = false;
  duration_ms = 0;
}

module _ {W : Type 0} (runtime : DockerRuntime W) (container_name : Text) (settings : Settings)
    (digest : Text → Text) (reader_database_url : Text) where
  abbrev pub create_history_read_token : RunRequest → Text → ℤ → RunAction W HistoryReadGrantToken
  create_history_read_token request token now w =
      let r =
        create_read_grants digest now token reader_database_url
          (history_read_grants_for_request settings request) w.history in
      (ok r.0, record w { history = r.1 })

  unfoldable pub execute_once :
      RunRequest → ValidatedRunRequest → SessionRecord → Text → ℤ → RunAction W RunResponse
  unfolding create_read_grants history_read_grants_for_request build_claude_command history_exec_env
  execute_once request validated session token now = do
    history_token ← create_history_read_token request token now
    exec_id ← on_runtime "exec_create_failed" (
        runtime.create_claude_exec container_name validated.cwd
          (build_claude_command validated.prompt validated.system_prompt session.claude_session_id
            session.is_new)
          (history_exec_env history_token))
    output ← on_runtime "exec_failed" (runtime.collect_exec_output exec_id)
    give (response_of output)

  abbrev pub retry_or_return :
      RunInputs
      → RunRequest
      → ValidatedRunRequest
      → SessionRecord
      → RunResponse
      → RunAction W RunResponse
  retry_or_return inputs request validated session first =
      if should_retry_with_fresh_session first session.is_new
      then (do
        reset_session ←
            on_sessions inputs.driver_error
              (reset_runtime_session inputs.reset_time inputs.reset_uuid request)
        retried ←
            execute_once request validated reset_session inputs.second_token
              inputs.second_token_time
        give (with_duration retried inputs.elapsed_ms))
      else give (with_duration first inputs.elapsed_ms)

  unfoldable pub execute : RunInputs → RunRequest → ValidatedRunRequest → RunAction W RunResponse
  unfolding execute_once should_retry_with_fresh_session load_runtime_session reset_runtime_session
  execute inputs request validated = do
    session ←
        on_sessions inputs.driver_error
          (load_runtime_session inputs.load_time inputs.load_uuid request)
    _ ← on_runtime "container_unavailable" runtime.ensure_container_running
    first ← execute_once request validated session inputs.first_token inputs.first_token_time
    retry_or_return inputs request validated session first
