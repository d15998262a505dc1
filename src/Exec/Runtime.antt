-- ===== src/Exec/Runtime.antt =====
-- The runtime of a run over the Docker daemon of docker_client.rs, and what it counts.
use dog_bot.Common.{ℕ, ◌+◌, Bool, Option, ◌≡◌, refl, ◌∙◌, arith}
use dog_bot.Common.Text.{Text}
use dog_bot.Common.Result.{Result, ok, err, map_err}
use dog_bot.Docker.Container.{ContainerSpec, ContainerConfig, create_config}
use dog_bot.Docker.{
  DockerError, server_error, other_error, Docker, ExecOptions, create_and_start, on_inspected,
  ensure_container_running, create_claude_exec, collect_exec_output,
}
use dog_bot.Exec.Runner.{DockerRuntime}
use dog_bot.Exec.Retry.{Counts}

-- `show` is `to_string` of an error.
abbrev pub of_docker :
    {W : Type 0} → Docker W → ContainerSpec → (DockerError → Text) → DockerRuntime W
of_docker docker spec show = record {
  ensure_container_running =
      λ w. let r = ensure_container_running docker spec w in (map_err show r.0, r.1);
  create_claude_exec = λ container cwd command env w.
      let r = create_claude_exec docker container cwd command env w in (map_err show r.0, r.1);
  collect_exec_output =
      λ exec_id w. let r = collect_exec_output docker exec_id w in (map_err show r.0, r.1);
}

-- Of the calls that a run makes to the daemon, `start_exec` alone counts, once each.
pub record CountsStarts {W : Type 0} (docker : Docker W) (started : W → ℕ) : Type 0 where
  pub inspects : (name : Text) (w : W) → started (docker.inspect_container name w).1 ≡ started w
  pub creates :
      (name : Text) (config : ContainerConfig) (w : W)
      → started (docker.create_container name config w).1 ≡ started w
  pub starts_container :
      (name : Text) (w : W) → started (docker.start_container name w).1 ≡ started w
  pub creates_exec :
      (name : Text) (options : ExecOptions) (w : W)
      → started (docker.create_exec name options w).1 ≡ started w
  pub starts_exec :
      (exec_id : Text) (w : W) → started (docker.start_exec exec_id w).1 ≡ 1 + started w
  pub inspects_exec :
      (exec_id : Text) (w : W) → started (docker.inspect_exec exec_id w).1 ≡ started w

module _ {W : Type 0} (docker : Docker W) (started : W → ℕ)
    (counts : CountsStarts docker started) where
  create_and_start-started :
      (spec : ContainerSpec) (w : W) → started (create_and_start docker spec w).1 ≡ started w
  create_and_start-started spec w = ground (
    arith,
    counts.creates spec.container_name (create_config spec) w,
    counts.starts_container spec.container_name
        (docker.create_container spec.container_name (create_config spec) w).1,
  )

  on_inspected-started :
      (spec : ContainerSpec) (r : Result DockerError (Option Bool)) (w : W)
      → started (on_inspected docker spec r w).1 ≡ started w
  on_inspected-started spec (ok running) w =
      ground (arith, counts.starts_container spec.container_name w)
  on_inspected-started spec (err (server_error code message)) w =
      ground (arith, create_and_start-started spec w)
  on_inspected-started spec (err (other_error message)) w = refl

  collect_exec_output-started :
      (exec_id : Text) (w : W) → started (collect_exec_output docker exec_id w).1 ≡ 1 + started w
  unfolding collect_exec_output
  collect_exec_output-started exec_id w = ground (
    arith,
    counts.starts_exec exec_id w,
    counts.inspects_exec exec_id (docker.start_exec exec_id w).1,
  )

  -- Over a daemon of which `start_exec` is counted, the runtime counts the starts as `Counts` says.
  pub of_docker-Counts :
      (spec : ContainerSpec) (show : DockerError → Text)
      → Counts (of_docker docker spec show) started
  unfolding ensure_container_running create_claude_exec
  of_docker-Counts spec show = (
    λ w.
        on_inspected-started spec (docker.inspect_container spec.container_name w).0
          (docker.inspect_container spec.container_name w).1
        ∙ counts.inspects spec.container_name w,
    λ container cwd command env w. counts.creates_exec container _ w,
    collect_exec_output-started,
  )
