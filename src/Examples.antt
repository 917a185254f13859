-- ===== src/Examples.antt =====
-- Tests: a concrete environment, sample tables, and each property at concrete inputs.
mod Tokens
mod Fixture
mod AuthTests
mod OtpTests
mod ChatTests
mod MarketTests
mod PlatformTests
mod GatewayTests
mod CategoryTests
