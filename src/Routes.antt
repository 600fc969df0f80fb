-- ===== src/Routes.antt =====
-- gateway/src/routes: the handlers, as functions from the state of the gateway to its next state and
-- the reply.
pub mod State
pub mod Agent
pub mod Videos
pub mod Pods
pub mod Health
pub mod Models
