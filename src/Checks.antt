-- ===== src/Checks.antt =====
-- Sample data, and each theorem at an input that meets its conditions.
mod Samples
mod JobStates
mod JobQueue
mod ModelStore
mod Requests
mod Working
mod Pages
mod Clients
mod Restores
mod Routes
mod Gates
