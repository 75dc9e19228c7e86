-- ===== src/Transaction.antt =====
-- sip/transaction.go: the transaction layer.
pub mod Key
pub mod Timers
pub mod Client
pub mod ServerTransaction
