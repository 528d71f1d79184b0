-- ===== src/Streams.antt =====
-- src/rfi/streams/: artifact streams, each of which reads a source or other streams. `Graph` has the
-- order in which a chain of streams runs; `Topological`, `Fuel`, `Cycle` and `Acyclic` are about it.
-- `Policy` and `Match` have the selection policies, and `Checks` and `Validated` are
-- about them.
pub mod Graph
pub mod Topological
pub mod Fuel
pub mod Cycle
pub mod Acyclic
pub mod Policy
pub mod Match
pub mod Checks
pub mod Validated
mod Tests
