-- ===== src/Utils.antt =====
-- src/utils/: the pure helpers.
pub mod Utf8
pub mod Query
pub mod Base64
pub mod Image
pub mod HttpUrl
