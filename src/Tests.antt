-- ===== src/Tests.antt =====
-- Runs of the code on small inputs, and each theorem at an input where its hypotheses hold.
mod Fixtures
mod Services
mod Routes
mod Executors
mod Configs
mod Storage
mod Histories
mod Databases
mod Commands
mod Sessions
mod Reports
