-- ===== src/Crank.antt =====
-- oragami-backend/src/crank/nav-crank.service.ts
pub mod Price
pub mod Nav
pub mod Service
pub mod PriceLaws
pub mod PriceComplete
pub mod NavLaws
pub mod ServiceLaws
pub mod Guards
pub mod Spacing
pub mod Baselines
pub mod Records
