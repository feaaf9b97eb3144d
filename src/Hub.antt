-- ===== src/Hub.antt =====
-- src/hub: the server that the tools' caller talks to.
pub mod Http
pub mod Model
pub mod Server
pub mod Probes
pub mod Threads
pub mod Env
pub mod Network
