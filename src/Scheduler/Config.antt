-- ===== src/Scheduler/Config.antt =====
-- The settings of gateway/src/config.ts that the modelled code reads. Times are milliseconds.
use nidora_ai_inference.Base.{ℕ}

pub record Config : Type 0 where
  pub lease_ttl_ms : ℕ
  pub max_poll_wait_ms : ℕ
  pub job_ttl_ms : ℕ
  pub max_attempts : ℕ
  pub cancel_grace_ms : ℕ
  pub pod_stale_ms : ℕ
  pub artifact_ttl_ms : ℕ
  pub job_retention_ms : ℕ
  pub max_input_bytes : ℕ
  pub max_artifact_bytes : ℕ
  pub max_queue_depth : ℕ
