-- ===== src/Proto.antt =====
-- crates/moonlight-addon/src/proto.rs: the wire protocol between the host and the sidecar.
pub mod Messages
pub mod Value
pub mod Json
pub mod Framing
