-- ===== src/Message.antt =====
-- sippet/message: the messages, as far as the transactions and the dialogs use them.
pub mod Atom
pub mod Method
pub mod Params
pub mod Protocol
pub mod Header
pub mod Headers
pub mod Request
pub mod Samples
