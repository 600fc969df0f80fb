-- ===== src/App/Gates.antt =====
-- gateway/src/app.ts: which requests reach a handler.
use nidora_ai_inference.Base.{ℕ, ◌≡◌, some, List, Str}
use nidora_ai_inference.Auth.{Headers, request_key, admin_key, accepted_keys}
use nidora_ai_inference.Auth.Keys.{Separates}
use nidora_ai_inference.Settings.{Settings}
use nidora_ai_inference.Scheduler.Config.{Config}
use nidora_ai_inference.Routes.State.{Gateway}

-- The digest tells what the headers carry from each secret that differs from it.
pub record Tells (digest : Str → List ℕ) (s : Settings) (h : Headers) : Type 0 where
  pub keys : (key : Str) → request_key h ≡ some key → Separates digest key s.api_keys
  pub admins :
      (key : Str)
      → admin_key h ≡ some key
      → Separates digest key (accepted_keys s.admin_keys s.api_keys)
  pub secrets :
      (key : Str)
      → h.x_agent_secret ≡ some key
      → digest key ≡ digest s.agent_secret
      → key ≡ s.agent_secret
