-- ===== src/Tests.antt =====
-- Runs of the models on concrete inputs, and the theorems at inputs that meet their conditions.
pub mod PoolTests
pub mod JobTests
pub mod RunTests
pub mod WinTests
pub mod WebTests
pub mod HttpTests
pub mod DaemonTests
pub mod DocsTests
pub mod AppTests
