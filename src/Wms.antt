-- ===== src/Wms.antt =====
-- The warehouse management service, src/wms: picking from stock, and the picking waves,
-- the stock count and the stock adjustment.
pub mod Model
pub mod Picking
pub mod Waves
pub mod Counting
pub mod Adjusting
mod Tests
