-- ===== src/FetchQueue.antt =====
-- src/rfi/mailing_lists/queue.py: the process-local FIFO of mailing-list fetches.
-- `State` has the jobs and the queue's fields, `Log` the events and the durable history,
-- `Enqueue`, `Cancel` and `View` what operators call, `Worker` and `Monitor` the critical
-- sections of the worker thread, and
-- `System` their interleavings. The proofs are in the other modules.
pub mod State
pub mod Log
pub mod Enqueue
pub mod Cancel
pub mod View
pub mod Worker
pub mod Monitor
pub mod System
pub mod Pending
pub mod Invariant
pub mod Consistent
pub mod Occupancy
pub mod Rewrite
pub mod EnqueueValid
pub mod CancelValid
pub mod WorkerValid
pub mod Safety
pub mod Admission
pub mod Cancellation
pub mod FetchEnd
mod Tests
