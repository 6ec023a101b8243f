-- ===== src/Payments.antt =====
-- coloanex-api/src/payments and src/payment-configs: a payment from the gateway's answer to the
-- contract's balance.
pub mod Configs
pub mod Apply
pub mod Verify
pub mod Balance
pub mod Repeat
pub mod Posting
pub mod Configuring
pub mod ConfigLaws
pub mod Webhook
pub mod WebhookLaws
