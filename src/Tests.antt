-- ===== src/Tests.antt =====
-- The theorems at concrete inputs.
mod SettingsTests
mod ProvisioningTests
mod TestsuiteTests
mod PaymentTests
mod PoolTests
mod UsersTests
mod AuthTests
mod OpsTests
mod AccessTests
mod CitrineosTests
mod FrontendTests
