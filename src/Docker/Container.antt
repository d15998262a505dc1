-- ===== src/Docker/Container.antt =====
-- agent-runner/src/docker_client.rs: the container and its limits.
use dog_bot.Common.{ℕ, ◌-◌, ◌*◌, ◌%◌, ◌^◌, Bool, true, List, [], ◌∷◌, ◌++◌, ltb, if◌then◌else◌}
use dog_bot.Common.Text.{Text, text}
use dog_bot.Common.Text.Decimal.{show_ℕ}
use dog_bot.Common.Int.{ℤ, pos, negsuc}
use dog_bot.Config.{Settings}

pub record ContainerSpec : Type 0 where
  pub container_name : Text
  pub image_name : Text
  pub workspace_dir : Text
  pub state_dir : Text
  pub anthropic_base_url : Text
  pub anthropic_api_key : Text
  pub bifrost_port : ℕ
  pub bifrost_provider_name : Text
  pub bifrost_model : Text
  pub bifrost_upstream_base_url : Text
  pub bifrost_upstream_api_key : Text
  pub bifrost_upstream_provider_type : Text
  pub cpu_cores : ℕ
  pub memory_mb : ℕ
  pub disk_gb : ℕ
  pub pids_limit : ℤ

abbrev pub spec_from_settings : Settings → ContainerSpec
spec_from_settings s = record {
  container_name = s.container_name;
  image_name = s.image_name;
  workspace_dir = s.workspace_dir;
  state_dir = s.state_dir;
  anthropic_base_url = s.anthropic_base_url;
  anthropic_api_key = s.anthropic_api_key;
  bifrost_port = s.bifrost_port;
  bifrost_provider_name = s.bifrost_provider_name;
  bifrost_model = s.bifrost_model;
  bifrost_upstream_base_url = s.bifrost_upstream_base_url;
  bifrost_upstream_api_key = s.bifrost_upstream_api_key;
  bifrost_upstream_provider_type = s.bifrost_upstream_provider_type;
  cpu_cores = s.container_cpu_cores;
  memory_mb = s.container_memory_mb;
  disk_gb = s.container_disk_gb;
  pids_limit = s.container_pids_limit;
}

-- The `i64` of a bit pattern: `as i64`, and its products in a release build.
unfoldable pub wrap_i64 : ℕ → ℤ
wrap_i64 n = let m = n % 2 ^ 64 in if ltb m (2 ^ 63) then pos m else negsuc (2 ^ 64 - 1 - m)

-- The fields of `Config` and `HostConfig` that are set.
pub record ContainerConfig : Type 0 where
  pub image : Text
  pub env : List Text
  pub working_dir : Text
  pub nano_cpus : ℤ
  pub memory : ℤ
  pub memory_swap : ℤ
  pub pids_limit : ℤ
  pub readonly_rootfs : Bool
  pub binds : List Text
  pub tmpfs : List (Text × Text)
  pub extra_hosts : List Text

abbrev pub container_env : ContainerSpec → List Text
container_env s =
    (text "ANTHROPIC_BASE_URL=" ++ s.anthropic_base_url)
    ∷ (text "ANTHROPIC_API_KEY=" ++ s.anthropic_api_key)
    ∷ (text "ANTHROPIC_DEFAULT_SONNET_MODEL=" ++ s.bifrost_model)
    ∷ (text "ANTHROPIC_DEFAULT_HAIKU_MODEL=" ++ s.bifrost_model)
    ∷ (text "ANTHROPIC_DEFAULT_OPUS_MODEL=" ++ s.bifrost_model)
    ∷ text "CLAUDE_CONFIG_DIR=/state/claude"
    ∷ text "CLAUDE_CODE_ADDITIONAL_DIRECTORIES_CLAUDE_MD=1"
    ∷ text "CLAUDE_CODE_DISABLE_AUTO_MEMORY=1"
    ∷ text "CLAUDE_CODE_DISABLE_NONESSENTIAL_TRAFFIC=1"
    ∷ text "CLAUDE_CODE_DISABLE_TERMINAL_TITLE=1"
    ∷ text "CLAUDE_CODE_ATTRIBUTION_HEADER=0"
    ∷ (text "BIFROST_PORT=" ++ show_ℕ s.bifrost_port)
    ∷ (text "BIFROST_PROVIDER_NAME=" ++ s.bifrost_provider_name)
    ∷ (text "BIFROST_MODEL=" ++ s.bifrost_model)
    ∷ (text "BIFROST_UPSTREAM_PROVIDER_TYPE=" ++ s.bifrost_upstream_provider_type)
    ∷ (text "BIFROST_UPSTREAM_BASE_URL=" ++ s.bifrost_upstream_base_url)
    ∷ (text "BIFROST_UPSTREAM_API_KEY=" ++ s.bifrost_upstream_api_key)
    ∷ []

unfoldable pub create_config : ContainerSpec → ContainerConfig
unfolding wrap_i64 show_ℕ
create_config s = record {
  image = s.image_name;
  env = container_env s;
  working_dir = text "/workspace";
  nano_cpus = wrap_i64 (s.cpu_cores * 1000000000);
  memory = wrap_i64 (s.memory_mb * 1024 * 1024);
  memory_swap = wrap_i64 (s.memory_mb * 1024 * 1024);
  pids_limit = s.pids_limit;
  readonly_rootfs = true;
  binds = (s.workspace_dir ++ text ":/workspace") ∷ (s.state_dir ++ text ":/state") ∷ [];
  tmpfs = (text "/tmp", text "size=256m,mode=1777") ∷ (text "/run", text "size=64m") ∷ [];
  extra_hosts = text "host.docker.internal:host-gateway" ∷ [];
}
