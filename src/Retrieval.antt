-- ===== src/Retrieval.antt =====
-- src/rfi/retrieval/: governed retrieval results and the evidence packages assembled from them.
-- `Contracts` has the records of the retrieval, knowledge and source-object contracts, `Ranked`,
-- `Assemble` and `Package` have the assembler; the proofs are in the other modules.
pub mod Contracts
pub mod Ranked
pub mod Assemble
pub mod Package
pub mod Exact
pub mod Included
pub mod Answered
pub mod Bounded
pub mod Sample
mod Tests
