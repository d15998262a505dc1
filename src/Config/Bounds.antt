-- ===== src/Config/Bounds.antt =====
-- The numbers of the settings fit the widths of their fields.
use dog_bot.Common.{◌^◌, ◌<◌, true, ◌≡◌}
use dog_bot.Common.Text.{Text}
use dog_bot.Common.Int.{fits_i64}
use dog_bot.Common.Result.{Result, ok, err}
use dog_bot.Config.Variables.{ConfigError}
use dog_bot.Config.{Settings}

-- The value, if there is one, has the property.
data Each {A : Type 0} (Q : A → Type 0) : Result ConfigError A → Type 0 where
  given : (a : A) → Q a → Each Q (ok a)
  absent : (e : ConfigError) → Each Q (err e)

abbrev pub IsBounded : Settings → Type 0
IsBounded s =
    (s.default_timeout_secs < 2 ^ 64)
    × (s.max_timeout_secs < 2 ^ 64)
    × (s.bifrost_port < 2 ^ 16)
    × (fits_i64 s.history_run_token_ttl_secs ≡ true)
    × (fits_i64 s.history_retention_days ≡ true)
    × (s.max_concurrent_runs < 2 ^ 64)
    × (s.max_queue_depth < 2 ^ 64)
    × (s.container_cpu_cores < 2 ^ 64)
    × (s.container_memory_mb < 2 ^ 64)
    × (s.container_disk_gb < 2 ^ 64)
    × (fits_i64 s.container_pids_limit ≡ true)
