-- ===== src/Types.antt =====
-- The package types: currency, transactions and the rules that hold of them in any context.
pub mod Currency
pub mod Transaction
pub mod Sums
pub mod Crypto
pub mod Words
pub mod Size
pub mod Encoding
pub mod Target
pub mod Errors
pub mod Signatures
pub mod Standalone
pub mod Constants
pub mod Subsidy
pub mod Examples
