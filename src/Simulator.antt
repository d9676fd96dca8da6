-- ===== src/Simulator.antt =====
-- src/crsdkpy/simulator: the deterministic simulator backend.
pub mod Scenario
pub mod Profiles
pub mod Timeline
pub mod Shooting
pub mod Backend
pub mod Media
pub mod Instance
pub mod Laws
pub mod Quiet
pub mod Safety
pub mod Closed
pub mod Written
pub mod Tests
pub mod Image
