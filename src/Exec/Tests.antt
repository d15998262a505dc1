-- ===== src/Exec/Tests.antt =====
-- A group request without a session, on a runtime that counts the commands that it starts.
use dog_bot.Common.{
  ℕ, ◌+◌, ◌≤◌, ◌≡◌, refl, false, ◌&&◌, if◌then◌else◌, map_some, none, some, [], ◌∷◌,
}
use dog_bot.Common.Text.{Text, text, text_eq}
use dog_bot.Common.Text.Trim.{trim}
use dog_bot.Common.Int.{pos, ltℤ, ◌+ℤ◌}
use dog_bot.Common.Result.{ok, is_ok}
use dog_bot.HashMap.{get, insert, contains_key}
use dog_bot.Models.{RunRequest, ValidatedRunRequest}
use dog_bot.Config.{Settings}
use dog_bot.SessionTables.{
  SessionRow, Tables, Database, SessionRecord, conversation_session_key, build_session_record,
  new_row,
}
use dog_bot.Sessions.{
  get_or_create_conversation_session, reset_conversation_session, validate_external_session_binding,
  bind_external_session_id,
}
use dog_bot.History.{HistoryTables, create_read_grants, dogbot_can_read_history_row}
use dog_bot.Exec.{
  conversation_of, history_read_grants_for_request, load_runtime_session, reset_runtime_session,
}
use dog_bot.Sessions.Identity.{KeepsSession}
use dog_bot.Exec.Load.{Loads, load_runtime_session-Loads}
use dog_bot.Exec.Grants.{may_read, history_read_grants_for_request-reads}
use dog_bot.Exec.Runner.{DockerRuntime, RunInputs, World, execute}
use dog_bot.Exec.Retry.{Counts, execute_starts}

abbrev settings : Settings
settings = record {
  bind_addr = [];
  default_timeout_secs = 1;
  max_timeout_secs = 1;
  container_name = [];
  image_name = [];
  workspace_dir = [];
  state_dir = [];
  claude_prompt_root = [];
  anthropic_base_url = [];
  anthropic_api_key = [];
  bifrost_port = 1;
  bifrost_provider_name = [];
  bifrost_model = [];
  bifrost_upstream_base_url = [];
  bifrost_upstream_api_key = [];
  bifrost_upstream_provider_type = [];
  napcat_api_base_url = [];
  napcat_access_token = none;
  wechatpadpro_base_url = [];
  wechatpadpro_account_key = none;
  platform_qq_account_id = some (text "qq-bot");
  platform_qq_bot_id = none;
  platform_wechatpadpro_account_id = none;
  platform_wechatpadpro_bot_mention_names = [];
  max_concurrent_runs = 1;
  max_queue_depth = 1;
  session_db_path = [];
  history_db_path = [];
  database_url = [];
  postgres_agent_reader_user = [];
  postgres_agent_reader_password = [];
  postgres_agent_reader_database_url = none;
  history_run_token_ttl_secs = pos 60;
  history_retention_days = pos 60;
  admin_actor_ids = text "root" ∷ [];
  container_cpu_cores = 1;
  container_memory_mb = 1;
  container_disk_gb = 1;
  container_pids_limit = pos 60;
}

abbrev group_request : RunRequest
group_request = record {
  platform = text "qq";
  platform_account_id = text "bot";
  conversation_id = text "g";
  session_id = text "s";
  user_id = text "root";
  chat_type = text "group";
  cwd = text "/workspace";
  prompt = text "hi";
  trigger_summary = none;
  trigger_message_id = none;
  trigger_reply_to_message_id = none;
  mention_refs = [];
  reply_excerpt = none;
  timeout_secs = none;
}

abbrev validated : ValidatedRunRequest
validated = record { cwd = text "/workspace"; prompt = text "hi"; system_prompt = [] }

abbrev no_history : HistoryTables
no_history = record { history_messages = []; history_read_grants = [] }

abbrev group_key : Text
group_key = conversation_session_key (conversation_of group_request)

-- Another client that wants a session of the same conversation: `INSERT ... ON CONFLICT DO NOTHING`.
abbrev inserting : Tables → Tables
inserting t = record t {
  runner_sessions =
      if contains_key group_key t.runner_sessions
      then t.runner_sessions
      else insert group_key (new_row (text "u0") (conversation_of group_request) (pos 0))
          t.runner_sessions;
}

inserting_keeps : KeepsSession group_key inserting
inserting_keeps c id t (row, e, i, p, a, n) = (row, rw (e, e) refl, i, p, a, n)

-- It acts before the first statements.
abbrev no_sessions : Database
no_sessions = record {
  tables = record { runner_sessions = []; runner_session_aliases = [] };
  others = (λ t. t) ∷ (λ t. t) ∷ inserting ∷ [];
}

abbrev loaded : Database
loaded = record {
  tables = (load_runtime_session (pos 1) (text "u1") group_request no_sessions).1.tables;
  others = inserting ∷ inserting ∷ inserting ∷ [];
}

load_runtime_session-Loads_example :
    Loads group_request (load_runtime_session (pos 1) (text "u1") group_request no_sessions)
load_runtime_session-Loads_example =
    load_runtime_session-Loads (pos 1) (text "u1") group_request no_sessions
      ((λ c id t h. h), ((λ c id t h. h), (inserting_keeps, tt)))

-- A client that takes the id of the request for another conversation, after the reset and before the binding.
abbrev taken_late : Database
taken_late = record loaded {
  others =
      (λ t. t)
      ∷ (λ t. t)
      ∷ (λ t. t)
      ∷ (λ t. record t {
        runner_session_aliases = insert (text "s") (text "other") t.runner_session_aliases;
      })
      ∷ [];
}

-- Then the reset fails, and the session is a new one all the same.
reset_before_failure :
    let r = reset_runtime_session (pos 2) (text "u2") group_request taken_late in
    (is_ok r.0 ≡ false)
    × (map_some
          (λ (row : SessionRow). row.claude_session_id)
          (get group_key r.1.tables.runner_sessions)
        ≡ some (text "u2"))
unfolding load_runtime_session reset_runtime_session get_or_create_conversation_session
    reset_conversation_session validate_external_session_binding bind_external_session_id get insert
    text_eq trim conversation_session_key
reset_before_failure = (refl, refl)

history_read_grants_for_request-reads_example :
    dogbot_can_read_history_row
      (λ t. t)
      (text "token")
      (pos 7)
      (text "bot")
      (text "g")
      (create_read_grants
        (λ t. t)
        (pos 5)
        (text "token")
        []
        (history_read_grants_for_request settings group_request)
        no_history).1
    ≡ ltℤ (pos 7) (pos 5 +ℤ settings.history_run_token_ttl_secs)
      && may_read settings group_request (text "bot") (text "g")
unfolding dogbot_can_read_history_row
history_read_grants_for_request-reads_example =
    history_read_grants_for_request-reads (λ t. t) settings group_request (pos 5) (pos 7)
      (text "token") [] (text "bot") (text "g") no_history refl

abbrev counting : DockerRuntime ℕ
counting = record {
  ensure_container_running = λ n. (ok tt, n);
  create_claude_exec = λ container cwd command env n. (ok (text "exec"), n);
  collect_exec_output =
      λ exec_id n. (ok (text "No conversation found with session ID: u1", [], pos 1), 1 + n);
}

counting-Counts : Counts counting (λ n. n)
counting-Counts = (λ w. refl, λ container cwd command env w. refl, λ exec_id w. refl)

abbrev inputs : RunInputs
inputs = record {
  driver_error = [];
  load_time = pos 1;
  load_uuid = text "u1";
  reset_time = pos 2;
  reset_uuid = text "u2";
  first_token = text "t1";
  first_token_time = pos 1;
  second_token = text "t2";
  second_token_time = pos 2;
  elapsed_ms = 30;
}

abbrev world : World ℕ
world = record { sessions = record loaded { others = [] }; history = no_history; runtime = 0 }

abbrev session : SessionRecord
session =
    build_session_record (conversation_session_key (conversation_of group_request))
      (conversation_session_key (conversation_of group_request))
      (record (new_row (text "u0") (conversation_of group_request) (pos 0)) {
        last_used_at_epoch_secs = pos 1;
      })
      false

execute_starts_example :
    (execute counting
      (text "claude")
      settings
      (λ t. t)
      []
      inputs
      group_request
      validated
      world).1.runtime
    ≤ 2 + 0
unfolding load_runtime_session get_or_create_conversation_session validate_external_session_binding
    bind_external_session_id get insert text_eq trim conversation_session_key
execute_starts_example =
    execute_starts counting (text "claude") settings (λ t. t) [] (λ n. n) inputs group_request
      validated session world counting-Counts refl
