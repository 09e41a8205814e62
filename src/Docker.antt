-- ===== src/Docker.antt =====
-- controlplane/lmnradius/docker_service.py: one container per instance through the Docker Engine.
pub mod View
pub mod Images
pub mod Paths
pub mod Config
pub mod HostIp
pub mod Env
pub mod Mounts
pub mod Inspect
pub mod Lifecycle
pub mod Removal
pub mod Frames
pub mod Fuel
pub mod Health
