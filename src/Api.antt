-- ===== src/Api.antt =====
-- The partner API's own credentials and limits: src/pwms/api.
pub mod Clients
pub mod Refresh
pub mod SingleUse
pub mod Throttle
pub mod AccessToken
