-- ===== src/TravelRule.antt =====
-- oragami-backend/src/travel-rule/travel-rule.service.ts
pub mod Service
pub mod Laws
