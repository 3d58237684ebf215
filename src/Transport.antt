-- ===== src/Transport.antt =====
-- sippet/transport
pub mod TimeDelta
pub mod ClientTransaction
pub mod ServerTransaction
pub mod StreamWriter
pub mod CertError
pub mod DatagramWriter
pub mod EndPoint
pub mod TransactionId
pub mod NetworkLayer
pub mod AliasesMap
pub mod MessageReader
pub mod Stamp
