-- ===== src/Ua.antt =====
-- sippet/ua
pub mod Pointer
pub mod Dialog
pub mod DialogStore
pub mod AuthCache
pub mod AuthTransaction
pub mod UserAgent
