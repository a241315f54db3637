-- ===== src/Nav.antt =====
-- Net asset values of backend/src/nav: the confidence band, the reader of the on-chain engine and the
-- engine that chooses between the chain, the signals and the demonstration.
pub mod Band
pub mod Onchain
pub mod Engine
mod Examples
