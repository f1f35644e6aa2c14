-- ===== src/Citrineos.antt =====
-- backend/src/citrineos: the calls of CitrineOS, its webhook and the log of its messages.
pub mod Http
pub mod Config
pub mod Api
pub mod Subscription
pub mod Log
pub mod Webhook
pub mod Csv
