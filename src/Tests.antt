-- ===== src/Tests.antt =====
-- The theorems at concrete inputs, and runs of the definitions.
mod Data
mod CrankTests
mod BackendTests
mod CredentialTests
mod DepositTests
mod ProgramTests
mod ClientTests
mod OnboardTests
mod ModalTests
mod AssetTests
mod HookTests
mod SetupTests
mod EmbeddingTests
mod TransferTests
mod AnchorTests
mod DebounceTests
