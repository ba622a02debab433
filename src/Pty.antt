-- ===== src/Pty.antt =====
-- The package pty.
pub mod Values
pub mod SizeCodec
pub mod Config
pub mod Bridge
pub mod Attachment
pub mod History
pub mod Manager
pub mod Observer
pub mod Protocol
pub mod Backend
mod Tests
