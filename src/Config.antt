-- ===== src/Config.antt =====
-- agent-runner/src/config.rs: the settings from the environment. Config.Variables reads its variables,
-- Config.Proxy has the settings of the API proxy.
pub mod Variables
pub mod Proxy
pub mod Bounds
mod Tests
use dog_bot.Common.{ℕ, Option, List, ◌++◌, String, unwrap_or}
use dog_bot.Common.Text.{Text, text}
use dog_bot.Common.Text.Trim.{trim}
use dog_bot.Common.Text.Split.{split}
use dog_bot.Common.Text.Decimal.{show_ℕ, parse_i64, parse_below}
use dog_bot.Common.Int.{ℤ, pos}
use dog_bot.Common.Result.{Result, ok, ◌>>=◌}
use Variables.{
  ConfigError, Env, optional_trimmed, string_or_default, parse_or_default, parse_u64, parse_usize,
  parse_u16, comma_list,
}

abbrev pub default_database_url : Text → Text → Text → ℕ → Text → Text
default_database_url user password host port database =
    text "postgres://"
    ++ (user
        ++ (text ":"
            ++ (password
                ++ (text "@" ++ (host ++ (text ":" ++ (show_ℕ port ++ (text "/" ++ database))))))))

pub record Settings : Type 0 where
  pub bind_addr : Text
  pub default_timeout_secs : ℕ
  pub max_timeout_secs : ℕ
  pub container_name : Text
  pub image_name : Text
  pub workspace_dir : Text
  pub state_dir : Text
  pub claude_prompt_root : Text
  pub anthropic_base_url : Text
  pub anthropic_api_key : Text
  pub bifrost_port : ℕ
  pub bifrost_provider_name : Text
  pub bifrost_model : Text
  pub bifrost_upstream_base_url : Text
  pub bifrost_upstream_api_key : Text
  pub bifrost_upstream_provider_type : Text
  pub napcat_api_base_url : Text
  pub napcat_access_token : Option Text
  pub wechatpadpro_base_url : Text
  pub wechatpadpro_account_key : Option Text
  pub platform_qq_account_id : Option Text
  pub platform_qq_bot_id : Option Text
  pub platform_wechatpadpro_account_id : Option Text
  pub platform_wechatpadpro_bot_mention_names : List Text
  pub max_concurrent_runs : ℕ
  pub max_queue_depth : ℕ
  pub session_db_path : Text
  pub history_db_path : Text
  pub database_url : Text
  pub postgres_agent_reader_user : Text
  pub postgres_agent_reader_password : Text
  pub postgres_agent_reader_database_url : Option Text
  pub history_run_token_ttl_secs : ℤ
  pub history_retention_days : ℤ
  pub admin_actor_ids : List Text
  pub container_cpu_cores : ℕ
  pub container_memory_mb : ℕ
  pub container_disk_gb : ℕ
  pub container_pids_limit : ℤ

unfoldable pub from_env_map : Env → Result ConfigError Settings
unfolding string_or_default optional_trimmed parse_or_default parse_below parse_i64 trim split
    show_ℕ
from_env_map env = do
  let bind_addr = string_or_default env (text "BIND_ADDR") (text "127.0.0.1:8787")
  default_timeout_secs ← parse_or_default parse_u64 env "DEFAULT_TIMEOUT_SECS" 120
  max_timeout_secs ← parse_or_default parse_u64 env "MAX_TIMEOUT_SECS" 300
  let container_name = string_or_default env (text "CLAUDE_CONTAINER_NAME") (text "claude-runner")
  let image_name =
      string_or_default env (text "CLAUDE_IMAGE_NAME") (text "dogbot/claude-runner:local")
  let workspace_dir = string_or_default env (text "AGENT_WORKSPACE_DIR") (text "/srv/agent-workdir")
  let state_dir = string_or_default env (text "AGENT_STATE_DIR") (text "/srv/agent-state")
  let claude_prompt_root =
      string_or_default env (text "DOGBOT_CLAUDE_PROMPT_ROOT") (text "./claude-prompt")
  bifrost_port ← parse_or_default parse_u16 env "BIFROST_PORT" 8080
  let bifrost_provider_name = string_or_default env (text "BIFROST_PROVIDER_NAME") (text "primary")
  let bifrost_model = string_or_default env (text "BIFROST_MODEL") (text "primary/model-id")
  let bifrost_upstream_base_url =
      string_or_default env (text "BIFROST_UPSTREAM_BASE_URL") (text "https://example.com")
  let bifrost_upstream_api_key =
      string_or_default env (text "BIFROST_UPSTREAM_API_KEY") (text "replace-me")
  let bifrost_upstream_provider_type =
      string_or_default env (text "BIFROST_UPSTREAM_PROVIDER_TYPE") (text "openai")
  let anthropic_base_url =
      unwrap_or (optional_trimmed env (text "ANTHROPIC_BASE_URL"))
        (text "http://127.0.0.1:" ++ (show_ℕ bifrost_port ++ text "/anthropic"))
  let anthropic_api_key = string_or_default env (text "ANTHROPIC_API_KEY") (text "dummy")
  max_concurrent_runs ← parse_or_default parse_usize env "MAX_CONCURRENT_RUNS" 10
  let napcat_api_base_url =
      string_or_default env (text "NAPCAT_API_BASE_URL") (text "http://127.0.0.1:3001")
  let napcat_access_token = optional_trimmed env (text "NAPCAT_ACCESS_TOKEN")
  let wechatpadpro_base_url =
      string_or_default env (text "WECHATPADPRO_BASE_URL") (text "http://127.0.0.1:38849")
  let wechatpadpro_account_key = optional_trimmed env (text "WECHATPADPRO_ACCOUNT_KEY")
  let platform_qq_account_id = optional_trimmed env (text "PLATFORM_QQ_ACCOUNT_ID")
  let platform_qq_bot_id = optional_trimmed env (text "PLATFORM_QQ_BOT_ID")
  let platform_wechatpadpro_account_id =
      optional_trimmed env (text "PLATFORM_WECHATPADPRO_ACCOUNT_ID")
  let platform_wechatpadpro_bot_mention_names =
      comma_list (optional_trimmed env (text "PLATFORM_WECHATPADPRO_BOT_MENTION_NAMES"))
  max_queue_depth ← parse_or_default parse_usize env "MAX_QUEUE_DEPTH" 20
  let session_db_path =
      unwrap_or (optional_trimmed env (text "SESSION_DB_PATH")) (state_dir ++ text "/runner.db")
  let history_db_path =
      unwrap_or (optional_trimmed env (text "HISTORY_DB_PATH")) (state_dir ++ text "/history.db")
  let postgres_host = string_or_default env (text "POSTGRES_HOST") (text "127.0.0.1")
  postgres_port ← parse_or_default parse_u16 env "POSTGRES_PORT" 5432
  let postgres_db = string_or_default env (text "POSTGRES_DB") (text "dogbot")
  let postgres_admin_user = string_or_default env (text "POSTGRES_ADMIN_USER") (text "dogbot_admin")
  let postgres_admin_password =
      string_or_default env (text "POSTGRES_ADMIN_PASSWORD") (text "change-me")
  let database_url = unwrap_or (optional_trimmed env (text "DATABASE_URL")) (
      default_database_url postgres_admin_user postgres_admin_password postgres_host postgres_port
        postgres_db)
  let postgres_agent_reader_user =
      string_or_default env (text "POSTGRES_AGENT_READER_USER") (text "dogbot_agent_reader")
  let postgres_agent_reader_password =
      string_or_default env (text "POSTGRES_AGENT_READER_PASSWORD") (text "change-me-reader")
  let postgres_agent_reader_database_url =
      optional_trimmed env (text "POSTGRES_AGENT_READER_DATABASE_URL")
  history_run_token_ttl_secs ←
      parse_or_default parse_i64 env "HISTORY_RUN_TOKEN_TTL_SECS" (pos 1800)
  history_retention_days ← parse_or_default parse_i64 env "HISTORY_RETENTION_DAYS" (pos 180)
  let admin_actor_ids = comma_list (optional_trimmed env (text "DOGBOT_ADMIN_ACTOR_IDS"))
  container_cpu_cores ← parse_or_default parse_u64 env "CLAUDE_CONTAINER_CPU_CORES" 4
  container_memory_mb ← parse_or_default parse_u64 env "CLAUDE_CONTAINER_MEMORY_MB" 4096
  container_disk_gb ← parse_or_default parse_u64 env "CLAUDE_CONTAINER_DISK_GB" 50
  container_pids_limit ← parse_or_default parse_i64 env "CLAUDE_CONTAINER_PIDS_LIMIT" (pos 256)
  ok (record {
    bind_addr = bind_addr;
    default_timeout_secs = default_timeout_secs;
    max_timeout_secs = max_timeout_secs;
    container_name = container_name;
    image_name = image_name;
    workspace_dir = workspace_dir;
    state_dir = state_dir;
    claude_prompt_root = claude_prompt_root;
    anthropic_base_url = anthropic_base_url;
    anthropic_api_key = anthropic_api_key;
    bifrost_port = bifrost_port;
    bifrost_provider_name = bifrost_provider_name;
    bifrost_model = bifrost_model;
    bifrost_upstream_base_url = bifrost_upstream_base_url;
    bifrost_upstream_api_key = bifrost_upstream_api_key;
    bifrost_upstream_provider_type = bifrost_upstream_provider_type;
    napcat_api_base_url = napcat_api_base_url;
    napcat_access_token = napcat_access_token;
    wechatpadpro_base_url = wechatpadpro_base_url;
    wechatpadpro_account_key = wechatpadpro_account_key;
    platform_qq_account_id = platform_qq_account_id;
    platform_qq_bot_id = platform_qq_bot_id;
    platform_wechatpadpro_account_id = platform_wechatpadpro_account_id;
    platform_wechatpadpro_bot_mention_names = platform_wechatpadpro_bot_mention_names;
    max_concurrent_runs = max_concurrent_runs;
    max_queue_depth = max_queue_depth;
    session_db_path = session_db_path;
    history_db_path = history_db_path;
    database_url = database_url;
    postgres_agent_reader_user = postgres_agent_reader_user;
    postgres_agent_reader_password = postgres_agent_reader_password;
    postgres_agent_reader_database_url = postgres_agent_reader_database_url;
    history_run_token_ttl_secs = history_run_token_ttl_secs;
    history_retention_days = history_retention_days;
    admin_actor_ids = admin_actor_ids;
    container_cpu_cores = container_cpu_cores;
    container_memory_mb = container_memory_mb;
    container_disk_gb = container_disk_gb;
    container_pids_limit = container_pids_limit;
  })
