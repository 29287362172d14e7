-- ===== src/Dashboard.antt =====
-- The logic of the dashboard that has no view: dashboard/src/lib, dashboard/src/stores and
-- dashboard/src/composables.
pub mod Curl
pub mod Requests
pub mod Deliveries
pub mod Session
