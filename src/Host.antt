-- ===== src/Host.antt =====
-- src/crsdkpy/backend/host.py: the backend that drives the vendor's SDK through a helper process.
pub mod Wire
pub mod Transport
pub mod Life
pub mod Sessions
pub mod Access
pub mod Content
pub mod Requests
pub mod Replies
pub mod Ends
pub mod Tables
pub mod Coherent
pub mod Running
pub mod Registry
pub mod Alive
pub mod Handled
pub mod Reach
pub mod Mixins
pub mod Dead
pub mod Tests
