-- ===== src/Tests.antt =====
-- The theorems applied at concrete inputs.
pub mod Data
mod Text
mod Arena
mod Number
mod Parser
mod Writer
mod Sort
mod Render
mod Build
mod Path
mod Ffi
mod Compat
mod Access
