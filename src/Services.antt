-- ===== src/Services.antt =====
-- The services of the application: WebApps/ARServer/src/services.
pub mod Utf8
pub mod Sessions
pub mod Auth
pub mod Json
pub mod Artwork
pub mod Scene
pub mod Api
