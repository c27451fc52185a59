-- ===== src/Oms.antt =====
-- The order management system, oms/: the tables (`Model`), the order service with its state machine
-- (`Service`, over the helpers of `Orders`), and the split and merge of orders (`Merge`).
pub mod Model
pub mod Webhooks
pub mod Orders
pub mod Service
pub mod Merge
