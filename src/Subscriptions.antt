-- ===== src/Subscriptions.antt =====
-- coloanex-api/src/subscriptions: buying a subscription, selecting the one that pays, and
-- the administration of plans and subscriptions.
pub mod Lifecycle
pub mod Plans
pub mod Admin
pub mod PlanLaws
pub mod AdminLaws
pub mod Purchase
pub mod Select
pub mod PurchaseLaws
pub mod SelectLaws
