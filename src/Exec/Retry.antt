-- ===== src/Exec/Retry.antt =====
-- How often a run starts Claude.
use dog_bot.Common.{
  ℕ, ◌+◌, ◌≤◌, Bool, true, false, List, String, if◌then◌else◌, ◌≡◌, refl, arith, Bool-cases, inl,
  inr,
}
use dog_bot.Common.Text.{Text}
use dog_bot.Common.Int.{ℤ}
use dog_bot.Common.Result.{Result, ok, err}
use dog_bot.Models.{RunRequest, ValidatedRunRequest, RunResponse, ErrorResponse}
use dog_bot.Config.{Settings}
use dog_bot.SessionTables.{Action, SessionRecord}
use dog_bot.Exec.{
  build_claude_command, history_exec_env, reset_runtime_session, with_duration,
  should_retry_with_fresh_session, load_runtime_session,
}
use dog_bot.Exec.Runner.{
  DockerRuntime, RunInputs, World, RunAction, then_run, ◌>>=◌, give, on_runtime, on_sessions,
  create_history_read_token, response_of, execute_once, retry_or_return, execute,
}

-- The world counts the commands that Docker is asked to start: `create_claude_exec` only creates the exec, and `collect_exec_output` asks for its start once, which may fail.
abbrev pub Counts : {W : Type 0} → DockerRuntime W → (W → ℕ) → Type 0
Counts {W} runtime started =
    ((w : W) → started (runtime.ensure_container_running w).1 ≡ started w)
    × ((container cwd : Text) (command env : List Text) (w : W)
        → started (runtime.create_claude_exec container cwd command env w).1 ≡ started w)
    × ((exec_id : Text) (w : W) → started (runtime.collect_exec_output exec_id w).1 ≡ 1 + started w)

module _ {W : Type 0} (started : W → ℕ) where
  -- The action starts at most `n` commands.
  record Costs {A : Type 0} (n : ℕ) (m : RunAction W A) : Type 0 where
    bound : (w : World W) → started (m w).1.runtime ≤ n + started w.runtime

  then_run-Costs :
      {A B : Type 0} (n k total : ℕ) (f : A → RunAction W B) (r : Result ErrorResponse A × World W)
      → started r.1.runtime ≤ n + total
      → ((a : A) → Costs k (f a))
      → started (then_run r.0 f r.1).1.runtime ≤ n + k + total
  then_run-Costs n k total f (ok a, w) h g = omega (arith, h, (g a).bound w)
  then_run-Costs n k total f (err e, w) h g = omega (arith, h)

  bind-Costs :
      {A B : Type 0} (n k : ℕ) (m : RunAction W A) (f : A → RunAction W B)
      → Costs n m
      → ((a : A) → Costs k (f a))
      → Costs (n + k) (m >>= f)
  bind-Costs n k m f h g = record {
    bound = λ w. then_run-Costs n k (started w.runtime) f (m w) (h.bound w) g;
  }

  give-Costs : {A : Type 0} (a : A) → Costs 0 (give a)
  give-Costs a = record { bound = λ w. omega arith }

  on_runtime-Costs :
      {A : Type 0} (n : ℕ) (code : String) (call : W → Result Text A × W)
      → ((w : W) → started (call w).1 ≡ n + started w)
      → Costs n (on_runtime code call)
  on_runtime-Costs n code call h = record { bound = λ w. omega (arith, h w.runtime) }

  on_sessions-Costs :
      {A : Type 0} (driver : Text) (call : Action A) → Costs 0 (on_sessions {W = W} driver call)
  on_sessions-Costs driver call = record { bound = λ w. omega arith }

abbrev command : ValidatedRunRequest → SessionRecord → List Text
command validated session =
    build_claude_command validated.prompt validated.system_prompt session.claude_session_id
      session.is_new

module _ {W : Type 0} (runtime : DockerRuntime W) (container_name : Text) (settings : Settings)
    (digest : Text → Text) (reader_database_url : Text) (started : W → ℕ)
    (counts : Counts runtime started) where
  execute_once-Costs :
      (request : RunRequest) (validated : ValidatedRunRequest) (session : SessionRecord)
      (token : Text) (now : ℤ)
      → Costs started 1 (
          execute_once runtime container_name settings digest reader_database_url request validated
            session token now)
  unfolding execute_once
  execute_once-Costs request validated session token now =
      bind-Costs started 0 1
        (create_history_read_token runtime container_name settings digest reader_database_url
          request token now)
        _ (record { bound = λ w. omega arith })
        (λ history_token.
          bind-Costs started 0 1 _ _
            (on_runtime-Costs started 0 "exec_create_failed"
              (runtime.create_claude_exec container_name validated.cwd (command validated session)
                (history_exec_env history_token))
              (λ w. omega (
                arith,
                counts.1 container_name validated.cwd (command validated session)
                    (history_exec_env history_token) w,
              )))
            (λ exec_id.
              bind-Costs started 1 0 _ _
                (on_runtime-Costs started 1 "exec_failed" (runtime.collect_exec_output exec_id)
                  (λ w. omega (arith, counts.2 exec_id w)))
                (λ output. give-Costs started (response_of output))))

  -- A session that is new is not tried again.
  no_retry_of_new : (first : RunResponse) → should_retry_with_fresh_session first true ≡ false
  unfolding should_retry_with_fresh_session
  no_retry_of_new first = refl

  retry_or_return-Costs :
      (inputs : RunInputs) (request : RunRequest) (validated : ValidatedRunRequest)
      (session : SessionRecord) (first : RunResponse)
      → Costs started (if session.is_new then 0 else 1) (
          retry_or_return runtime container_name settings digest reader_database_url inputs request
            validated session first)
  retry_or_return-Costs inputs request validated session first = elim (Bool-cases session.is_new) [
    | inl new ↦ rw (new, no_retry_of_new first) (record { bound = λ w. omega arith })
    | inr old ↦ rw old (either (should_retry_with_fresh_session first false))
  ]
    where
      retry : RunAction W RunResponse
      retry =
          on_sessions inputs.driver_error
            (reset_runtime_session inputs.reset_time inputs.reset_uuid request)
          >>= λ reset_session.
              execute_once runtime container_name settings digest reader_database_url request
                validated reset_session inputs.second_token inputs.second_token_time
              >>= λ retried. give (with_duration retried inputs.elapsed_ms)

      either :
          (again : Bool)
          → Costs started 1 (if again then retry else give (with_duration first inputs.elapsed_ms))
      either true =
          bind-Costs started 0 1 _ _
            (on_sessions-Costs started inputs.driver_error
              (reset_runtime_session inputs.reset_time inputs.reset_uuid request))
            (λ reset_session.
              bind-Costs started 1 0 _ _
                (execute_once-Costs request validated reset_session inputs.second_token
                  inputs.second_token_time)
                (λ retried. give-Costs started _))
      either false = record { bound = λ w. omega arith }

  abbrev run_session :
      RunInputs → RunRequest → ValidatedRunRequest → SessionRecord → RunAction W RunResponse
  run_session inputs request validated session =
      on_runtime "container_unavailable" runtime.ensure_container_running >>= λ _.
      execute_once runtime container_name settings digest reader_database_url request validated
        session inputs.first_token inputs.first_token_time
      >>= λ first.
          retry_or_return runtime container_name settings digest reader_database_url inputs request
            validated session first

  run_session-Costs :
      (inputs : RunInputs) (request : RunRequest) (validated : ValidatedRunRequest)
      (session : SessionRecord)
      → Costs started
          (0 + (1 + (if session.is_new then 0 else 1)))
          (run_session inputs request validated session)
  run_session-Costs inputs request validated session =
      bind-Costs started 0 (1 + (if session.is_new then 0 else 1)) _ _
        (on_runtime-Costs started 0 "container_unavailable" runtime.ensure_container_running
          (λ w. omega (arith, counts.0 w)))
        (λ _.
          bind-Costs started 1 (if session.is_new then 0 else 1) _ _
            (execute_once-Costs request validated session inputs.first_token
              inputs.first_token_time)
            (λ first. retry_or_return-Costs inputs request validated session first))

-- On a runtime where only `collect_exec_output` asks for a start, and once, a run asks for the start of Claude at most once if the session it has loaded is new and at most twice if not, whatever the runtime answers and wherever it fails.
pub execute_starts :
    {W : Type 0} (runtime : DockerRuntime W) (container_name : Text) (settings : Settings)
    (digest : Text → Text) (reader_database_url : Text) (started : W → ℕ) (inputs : RunInputs)
    (request : RunRequest) (validated : ValidatedRunRequest) (session : SessionRecord) (w : World W)
    → Counts runtime started
    → (load_runtime_session inputs.load_time inputs.load_uuid request w.sessions).0 ≡ ok session
    → started
        (execute runtime container_name settings digest reader_database_url inputs request validated
          w).1.runtime
      ≤ (if session.is_new then 1 else 2) + started w.runtime
unfolding execute
execute_starts {W} runtime container_name settings digest reader_database_url started inputs request
      validated session w counts h =
    let rest =
      run_session-Costs runtime container_name settings digest reader_database_url started counts
        inputs request validated session in
    rw h (
      ground (
        arith,
        rest.bound (record w {
          sessions = (load_runtime_session inputs.load_time inputs.load_uuid request w.sessions).1;
        }),
      ))
