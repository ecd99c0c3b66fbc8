-- ===== src/Storage.antt =====
-- storage/
pub mod Models
pub mod Listing
pub mod Session
pub mod Claims
pub mod Leases
pub mod Sweeps
pub mod Artifacts
pub mod Invariant
pub mod Rules
pub mod RowSteps
pub mod HolderSteps
pub mod ClaimSteps
pub mod AdvanceSteps
pub mod Operations
pub mod Exact
pub mod Results
pub mod Committing
pub mod Settings
pub mod Claiming
pub mod Enqueue
pub mod ArtifactSteps
pub mod History
pub mod Fencing
pub mod Recovery
