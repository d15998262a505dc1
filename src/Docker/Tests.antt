-- ===== src/Docker/Tests.antt =====
-- A daemon that knows whether the one container exists and runs.
use dog_bot.Common.{
  Bool, true, false, none, some, Option, unwrap_or, [], if◌then◌else◌, ◌≡◌, refl, arith,
}
use dog_bot.Common.Text.{Text, text}
use dog_bot.Common.Int.{pos}
use dog_bot.Common.Result.{ok, err}
use dog_bot.Docker.Container.{ContainerSpec}
use dog_bot.Docker.{server_error, Docker, ensure_container_running}
use dog_bot.Docker.Ensure.{IsDaemon, ensure_container_running-Runs}

-- Whether the container exists, and whether it runs.
abbrev Host : Type 0
Host = Bool × Bool

abbrev docker : Docker Host
docker = record {
  inspect_container = λ name h. (if h.0 then ok (some h.1) else err (server_error 404 []), h);
  create_container = λ name config h. (ok tt, (true, false));
  start_container = λ name h. (ok tt, (true, true));
  create_exec = λ name options h. (ok [], h);
  start_exec = λ id h. (ok none, h);
  inspect_exec = λ id h. (ok (record { exit_code = none; pid = none }), h);
}

abbrev runs : Text → Host → Bool
runs name h = h.1

docker-IsDaemon : IsDaemon docker runs
docker-IsDaemon = record { reports = reported; starts = λ name h e. refl }
  where
    reported :
        (name : Text) (h : Host) (state : Option Bool)
        → (if h.0 then ok (some h.1) else err (server_error 404 [])) ≡ ok state
        → unwrap_or state false ≡ h.1
    reported name (true, r) state e = ground (arith, e)
    reported name (false, r) state e = absurd (ground (arith, e))

abbrev spec : ContainerSpec
spec = record {
  container_name = text "claude-runner";
  image_name = text "claude";
  workspace_dir = text "/w";
  state_dir = text "/s";
  anthropic_base_url = [];
  anthropic_api_key = [];
  bifrost_port = 8080;
  bifrost_provider_name = [];
  bifrost_model = [];
  bifrost_upstream_base_url = [];
  bifrost_upstream_api_key = [];
  bifrost_upstream_provider_type = [];
  cpu_cores = 2;
  memory_mb = 4096;
  disk_gb = 10;
  pids_limit = pos 256;
}

ensure_container_running-Runs_example :
    runs (text "claude-runner") (ensure_container_running docker spec (false, false)).1 ≡ true
unfolding ensure_container_running
ensure_container_running-Runs_example =
    ensure_container_running-Runs docker runs docker-IsDaemon spec (false, false) refl
