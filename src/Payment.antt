-- ===== src/Payment.antt =====
-- The configuration of the payment service: backend/src/payment.
pub mod Types
pub mod Rows
pub mod Crud
pub mod Service
pub mod Connection
