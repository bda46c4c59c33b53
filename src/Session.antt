-- ===== src/Session.antt =====
-- crates/moonlight-core/src/session.rs: the session engine, its input side and its key table.
pub mod Doc
pub mod Keys
pub mod Input
pub mod State
pub mod Plan
pub mod Engine
pub mod Worker
pub mod Lifecycle
pub mod Frames
