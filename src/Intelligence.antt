-- ===== src/Intelligence.antt =====
-- src/rfi/intelligence/: the bounded orchestration of retrieval and reasoning. `Contracts` has the
-- records of contracts.py, `Checks` and `Equal` the validations, `Run` the loop and `Execute` the
-- orchestrator of orchestration.py.
pub mod Contracts
pub mod Equal
pub mod Checks
pub mod Draft
pub mod Project
pub mod Run
pub mod Record
pub mod Execute
pub mod Sound
pub mod Loop
pub mod Made
pub mod Governed
pub mod Grounded
pub mod Verdicts
pub mod Claims
pub mod Outcomes
pub mod Gateway
pub mod Planner
pub mod Planned
pub mod Guided
pub mod Accepted
pub mod Sample
mod Tests
mod PlannerTests
