-- ===== src/Docker/Ensure.antt =====
-- That `ensure_container_running` does what its name says.
use dog_bot.Common.{
  Bool, true, false, Option, unwrap_or, ◌==◌, ◌≡◌, refl, sym, ◌∙◌, arith, Bool-cases, inl, inr,
}
use dog_bot.Common.Text.{Text}
use dog_bot.Common.Result.{Result, ok, err}
use dog_bot.Docker.Container.{ContainerSpec}
use dog_bot.Docker.{
  DockerError, server_error, other_error, Docker, create, create_and_start,
  ensure_container_running,
}

-- The daemon as its API describes it: an inspection reports whether the container runs and changes nothing, and a container that was started without an error runs.
pub record IsDaemon {W : Type 0} (docker : Docker W) (runs : Text → W → Bool) : Type 0 where
  pub reports :
      (name : Text) (w : W) (state : Option Bool)
      → (docker.inspect_container name w).0 ≡ ok state
      → unwrap_or state false ≡ runs name (docker.inspect_container name w).1
  pub starts :
      (name : Text) (w : W)
      → (docker.start_container name w).0 ≡ ok tt
      → runs name (docker.start_container name w).1 ≡ true

module _ {W : Type 0} (docker : Docker W) (runs : Text → W → Bool)
    (daemon : IsDaemon docker runs) where
  created_runs :
      (spec : ContainerSpec) (w : W)
      → (create_and_start docker spec w).0 ≡ ok tt
      → runs spec.container_name (create_and_start docker spec w).1 ≡ true
  created_runs spec w h = go (create docker spec w).0 refl
    where
      go :
          (r : Result DockerError (Unit {0}))
          → (create docker spec w).0 ≡ r
          → runs spec.container_name (create_and_start docker spec w).1 ≡ true
      go (err e) k = absurd (ground (arith, h, k))
      go (ok u) k =
          rw k (daemon.starts spec.container_name (create docker spec w).1 (sym (rw k refl) ∙ h))

  -- With a daemon that keeps to its API, whenever `ensure_container_running` answers without an error the container runs: it ran before, was started, or was created and started, also where another caller created it in between.
  pub ensure_container_running-Runs :
      (spec : ContainerSpec) (w : W)
      → (ensure_container_running docker spec w).0 ≡ ok tt
      → runs spec.container_name (ensure_container_running docker spec w).1 ≡ true
  unfolding ensure_container_running
  ensure_container_running-Runs spec w h =
      go (docker.inspect_container spec.container_name w).0 refl
    where
      w' : W
      w' = (docker.inspect_container spec.container_name w).1

      go :
          (r : Result DockerError (Option Bool))
          → (docker.inspect_container spec.container_name w).0 ≡ r
          → runs spec.container_name (ensure_container_running docker spec w).1 ≡ true
      go (ok state) e = elim (Bool-cases (unwrap_or state false)) [
        | inl yes_runs ↦
            rw (e, yes_runs) (sym (daemon.reports spec.container_name w state e) ∙ yes_runs)
        | inr stopped ↦
            rw (e, stopped) (daemon.starts spec.container_name w' (sym (rw (e, stopped) refl) ∙ h))
      ]
      go (err (server_error code message)) e = elim (Bool-cases (code == 404)) [
        | inl missing ↦ rw (e, missing) (created_runs spec w' (sym (rw (e, missing) refl) ∙ h))
        | inr other ↦ absurd (ground (arith, h, e, other))
      ]
      go (err (other_error message)) e = absurd (ground (arith, h, e))
