-- ===== src/Native.antt =====
-- src/crsdkpy/backend/native.py: the backend in the process, and what it shares with the one
-- behind the host.
pub mod Decode
pub mod Previews
pub mod Measured
pub mod Device
pub mod Bridge
pub mod Backend
pub mod Content
pub mod Frames
pub mod Keeps
pub mod Recording
pub mod Once
pub mod Tests
