-- ===== src/Publishing/Losses.antt =====
-- A publish whose messages the broker refuses (backend/src/api/services/publish-service.js).
use hook_tracker.World.{World}
