-- ===== src/Research.antt =====
-- src/rfi/research/: the adjudication of closed investigations. `Contracts` has the records of
-- contracts.py, `Adjudicate` the pass of adjudication.py.
pub mod Contracts
pub mod Adjudicate
pub mod Closed
pub mod Backed
pub mod Adjudicated
pub mod Calibrated
mod Tests
