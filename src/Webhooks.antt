-- ===== src/Webhooks.antt =====
-- internal/modules/webhooks: deliveries of events.
mod Retry
mod Delivery
mod Lifecycle
mod Address
mod Reach
mod Signing
mod Examples
