-- ===== src/Downloads.antt =====
-- The models that speech recognition needs: their downloads, installations and active versions
-- (storage/model_download.py and the second half of storage/repository.py).
pub mod Status
pub mod Registry
pub mod Installs
pub mod Transfers
pub mod Diagram
pub mod Fit
pub mod Writes
pub mod Backed
pub mod Sound
pub mod Preserve
pub mod Runs
pub mod Results
pub mod Completing
pub mod Refusals
