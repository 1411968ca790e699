-- ===== src/Tests.antt =====
-- Runs at fixed inputs: instances of the theorems, and tests of the definitions.
mod BridgeTests
mod LookupTests
mod StoreTests
mod RatesTests
mod CountryTests
mod PacketTests
mod AnalyzeTests
mod BrokerTests
mod HamqthTests
mod TablesTests
mod AnalyzerTests
