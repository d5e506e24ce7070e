-- ===== src/Storage.antt =====
-- capabilities/storage: the upload of large files in parts.
pub mod Upload
