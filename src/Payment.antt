-- ===== src/Payment.antt =====
-- The payment components of src/web_infra/capabilities/payment.
pub mod Status
pub mod Store
pub mod Channel
pub mod Callback
pub mod Risk
pub mod Reconcile
pub mod Reversal
pub mod CloseTask
