-- ===== src/Routes/Agent.antt =====
-- gateway/src/routes/agent.ts: the control plane of the pods.
pub mod Poll
pub mod Files
pub mod Result
pub mod Fence
