-- ===== src/Addon.antt =====
-- The sidecar of crates/moonlight-addon/src/main.rs: conversions, what a session sends to the host,
-- and the loop that serves the host's messages.
pub mod Convert
pub mod Persist
pub mod Output
pub mod Run
