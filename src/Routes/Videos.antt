-- ===== src/Routes/Videos.antt =====
-- gateway/src/routes/videos.ts: the API of the clients.
pub mod Params
pub mod Create
pub mod Read
