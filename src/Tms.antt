-- ===== src/Tms.antt =====
-- The transport management service, src/tms: transport orders, their segments, returns,
-- and the route planner.
pub mod Model
pub mod Requests
pub mod Transports
pub mod Tracking
pub mod Segments
pub mod Returns
pub mod Routing
mod Tests
