-- ===== src/Tests.antt =====
-- The development at concrete inputs: a small host and the theorems applied to it.
mod World
mod Build
mod Identity
mod Json
mod Wire
mod Session
mod Addon
mod Xtask
mod Frames
mod Mixed
mod Stream
mod Apps
