-- ===== src/Nvhttp.antt =====
-- crates/moonlight-core/src/nvhttp.rs: the GameStream HTTP control protocol.
pub mod Hex
pub mod Xml
pub mod Net
pub mod Requests
pub mod Pairing
