-- ===== src/Docker.antt =====
-- agent-runner/src/docker_client.rs: the container of the agent, and the calls of the Docker daemon.
-- The daemon (bollard) is a parameter that acts on a state of any type.
pub mod Container
pub mod Ensure
mod Tests
use dog_bot.Common.{
  ℕ, ◌-◌, Bool, true, false, Option, none, some, List, [], ◌∷◌, ◌++◌, unwrap_or, ◌==◌,
  if◌then◌else◌,
}
use dog_bot.Common.Text.{Text, text}
use dog_bot.Common.Text.Decimal.{show_ℤ}
use dog_bot.Common.Int.{ℤ, pos}
use dog_bot.Common.Result.{Result, ok, err}
use dog_bot.Docker.Container.{ContainerConfig, ContainerSpec, create_config}

pub record ExecOptions : Type 0 where
  pub attach_stdout : Bool
  pub attach_stderr : Bool
  pub cmd : List Text
  pub env : Option (List Text)
  pub working_dir : Option Text

unfoldable pub claude_exec_options : Text → List Text → List Text → ExecOptions
claude_exec_options cwd command env = record {
  attach_stdout = true;
  attach_stderr = true;
  cmd = command;
  env = some env;
  working_dir = some cwd;
}

-- An answer of the daemon with its status code, or any other error.
pub data DockerError : Type 0 where
  server_error : ℕ → Text → DockerError
  other_error : Text → DockerError

-- The streams of an attached exec; the bytes are as `from_utf8_lossy` reads them.
pub data LogOutput : Type 0 where
  std_out std_err console std_in : Text → LogOutput

-- What `inspect_exec` answers.
pub record ExecState : Type 0 where
  pub exit_code : Option ℤ
  pub pid : Option ℤ

abbrev pub Calls : Type 0 → Type 0 → Type 0
Calls W A = W → Result DockerError A × W

-- The daemon. `inspect_container` answers `state.running`; `start_exec` answers what the stream yields, or `none` if it is detached.
pub record Docker (W : Type 0) : Type 0 where
  pub inspect_container : Text → Calls W (Option Bool)
  pub create_container : Text → ContainerConfig → Calls W (Unit {0})
  pub start_container : Text → Calls W (Unit {0})
  pub create_exec : Text → ExecOptions → Calls W Text
  pub start_exec : Text → Calls W (Option (List (Result DockerError LogOutput)))
  pub inspect_exec : Text → Calls W ExecState

module _ {W : Type 0} where
  abbrev pub then_call : {A B : Type 0} → Result DockerError A → (A → Calls W B) → Calls W B
  then_call (ok a) f w = f a w
  then_call (err e) f w = (err e, w)

  infixl 5 ◌>>=◌
  abbrev pub ◌>>=◌ : {A B : Type 0} → Calls W A → (A → Calls W B) → Calls W B
  ◌>>=◌ m f w = let r = m w in then_call r.0 f r.1

  abbrev pub give : {A : Type 0} → Result DockerError A → Calls W A
  give r w = (r, w)

-- The container exists already when `create_container` answers 409.
abbrev pub created : Result DockerError (Unit {0}) → Result DockerError (Unit {0})
created (ok u) = ok u
created (err (server_error code message)) =
    if code == 409 then ok tt else err (server_error code message)
created (err (other_error message)) = err (other_error message)

-- What the stream has given: `stdout` and `stderr`.
unfoldable pub collect_output :
    Text → Text → List (Result DockerError LogOutput) → Result DockerError (Text × Text)
collect_output out error [] = ok (out, error)
collect_output out error (err e ∷ rest) = err e
collect_output out error (ok (std_out s) ∷ rest) = collect_output (out ++ s) error rest
collect_output out error (ok (console s) ∷ rest) = collect_output (out ++ s) error rest
collect_output out error (ok (std_err s) ∷ rest) = collect_output out (error ++ s) rest
collect_output out error (ok (std_in s) ∷ rest) = collect_output out error rest

abbrev pub shell : Text → ExecOptions
shell command = record {
  attach_stdout = false;
  attach_stderr = false;
  cmd = text "sh" ∷ text "-lc" ∷ command ∷ [];
  env = none;
  working_dir = none;
}

module _ {W : Type 0} (docker : Docker W) where
  abbrev pub create : ContainerSpec → Calls W (Unit {0})
  create spec w =
      let r = docker.create_container spec.container_name (create_config spec) w in
      (created r.0, r.1)

  abbrev pub create_and_start : ContainerSpec → Calls W (Unit {0})
  create_and_start spec = do _ ← create spec; docker.start_container spec.container_name

  abbrev pub on_inspected : ContainerSpec → Result DockerError (Option Bool) → Calls W (Unit {0})
  on_inspected spec (ok running) w =
      if unwrap_or running false then (ok tt, w) else docker.start_container spec.container_name w
  on_inspected spec (err (server_error code message)) w =
      if code == 404 then create_and_start spec w else (err (server_error code message), w)
  on_inspected spec (err (other_error message)) w = (err (other_error message), w)

  unfoldable pub ensure_container_running : ContainerSpec → Calls W (Unit {0})
  unfolding create_config
  ensure_container_running spec w =
      let r = docker.inspect_container spec.container_name w in on_inspected spec r.0 r.1

  unfoldable pub create_claude_exec : Text → Text → List Text → List Text → Calls W Text
  unfolding claude_exec_options
  create_claude_exec container_name cwd command env =
      docker.create_exec container_name (claude_exec_options cwd command env)

  abbrev pub attached :
      Option (List (Result DockerError LogOutput)) → Result DockerError (Text × Text)
  attached none = ok ([], [])
  attached (some stream) = collect_output [] [] stream

  unfoldable pub collect_exec_output : Text → Calls W (Text × Text × ℤ)
  unfolding collect_output
  collect_exec_output exec_id = do
    stream ← docker.start_exec exec_id
    collected ← give (attached stream)
    state ← docker.inspect_exec exec_id
    give (ok (collected.0, collected.1, unwrap_or state.exit_code (pos 0)))

  unfoldable pub exec_pid : Text → Calls W (Option ℤ)
  exec_pid exec_id = do state ← docker.inspect_exec exec_id; give (ok state.pid)

  abbrev pub run_shell : Text → Text → Calls W (Unit {0})
  run_shell container_name command = do
    exec_id ← docker.create_exec container_name (shell command)
    _ ← docker.start_exec exec_id
    give (ok tt)

  unfoldable pub kill_pid : Text → ℤ → Text → Calls W (Unit {0})
  unfolding show_ℤ
  kill_pid container_name pid signal =
      run_shell container_name (text "kill -" ++ (signal ++ (b' ' ∷ show_ℤ pid)))

  unfoldable pub kill_claude_execs : Text → Calls W (Unit {0})
  kill_claude_execs container_name =
      run_shell container_name
        (text "pkill -TERM -f 'claude --print' || true; pkill -KILL -f 'claude --print' || true")
