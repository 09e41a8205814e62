-- ===== src/Tests.antt =====
-- Runs of the model on one small installation, and each theorem applied to it.
mod Sample
mod Store
mod Render
mod Updater
mod Api
mod Models
mod Diagnostics
mod Cli
mod Docker
mod Lockfile
mod Ca
mod Interleaving
