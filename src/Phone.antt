-- ===== src/Phone.antt =====
-- sippet/phone
pub mod CompletionStatus
pub mod Call
pub mod PhoneImpl
