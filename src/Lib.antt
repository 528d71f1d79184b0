-- ===== src/Lib.antt =====
-- A verification library for RFI, the repository-first intelligence system of src/rfi: its
-- mailing-list fetch queue, its consulting workspace, its artifact streams, its evidence packages
-- the orchestration of retrieval and reasoning over them, and the adjudication of closed
-- investigations.
--
-- Parts and files
--
-- Common: names of the standard libraries, Boolean tests (Common/Tests), lists over the native
-- numbers (Common/Lists), sorted sets (Common/Sorting), calls that may raise (Common/Errors), dicts in insertion order as association lists (Common/Assoc) and the
-- string methods that the code uses (Common/Text).
--
-- FetchQueue: src/rfi/mailing_lists/queue.py. `State` has FetchJob, QueueEvent and the queue's
-- fields, `Log` has _event, _persist_event and _persist_history, `Enqueue` has enqueue and
-- _trim_jobs, `Cancel` has cancel_all and close, `View` has snapshot, `Worker` has the section
-- of _work that takes a job and the callbacks on_progress and on_activity, and `Monitor` has the
-- monitor loop's section, the section that ends a fetch and the one in `finally`. Each section that
-- holds the lock is one function from a queue to a result and a queue. `System` puts the sections
-- together: a step is one section, run by the worker or by any other thread, and `Reach` has the
-- states that any interleaving of sections reaches; an exception in the worker thread leads through
-- `finally` to the end of the thread. `Invariant` says what all of them keep;
-- `Consistent`, `Occupancy`, `EnqueueValid`, `CancelValid` and `WorkerValid` are
-- about the sections and this invariant, and the other modules draw the conclusions.
--
-- Workspace: src/rfi/workspace/repository.py and contracts.py. `State` has the events and the
-- files, `Redact` has _redact, `Verify` has verify and its loops, `Journal` has events, _append and
-- investigation, and `Operations` has create_investigation, set_status, add_annotation,
-- begin_execution, complete_execution and fail_execution. `Chain` and `Append` are about the hash
-- chain, `Lifecycle` and `Safety` about sequences of operations, `Recovery` has
-- recover_partial_writes and an _append that is cut off, `Summary` is about what is read back and
-- `Redaction` about secrets. An operation takes the identifiers and the times that it would
-- draw as arguments, and returns a result and the workspace that it leaves.
--
-- Streams: src/rfi/streams/service.py. `Graph` has the depth-first search of _topological_order,
-- with the sets as lists, `Topological` is about the order that it returns, `Fuel` about its end and
-- `Cycle` and `Acyclic` about cycles. `Policy` has _validate_policy, with the count that its
-- calls share passed along, `Match` has _matches, and `Checks` and `Validated` are about the two.
--
-- Retrieval: src/rfi/retrieval/evidence.py, and of retrieval/contracts.py, knowledge/contracts.py
-- and source_objects/contracts.py the records of `Contracts`. `Ranked` has _identity and _references, `Assemble`
-- has _context and the loop of assemble over the ranked results, `Package` has _contradictions and
-- the package that assemble returns. `Exact` is about the contexts of one result, `Included` and `Answered` about
-- the loop and `Bounded` about the package.
--
-- Intelligence: src/rfi/intelligence/orchestration.py and contracts.py. `Equal` has the equality of
-- queries and budgets, `Checks` has _validate_plan, _validate_step and _validate_package, `Draft`
-- has _validate_draft, `Project` has _missing and _project, `Run` has the loop of execute, a pass at
-- a time, `Record` has _terminal_record and _failure_record, `Execute` has execute around the loop,
-- and `Gateway` has PackageGateway. `Sound` and `Loop` are about the loop, `Made` about the three
-- kinds of record, `Grounded` and `Claims` about claims, `Verdicts` and `Outcomes` about
-- the status, and `Governed` about every record. `Planner` has DeterministicPlanner of
-- src/rfi/intelligence/deterministic.py; `Planned` and `Accepted` are about its plans and
-- follow-ups, and `Guided` about execute with this planner.
--
-- Research: src/rfi/research/adjudication.py and the records of contracts.py. `Adjudicate` has the
-- review of the candidate claims and _assess_temporal_completeness, `Closed` has _lead and the
-- result of adjudicate. `Backed` is about one claim, `Adjudicated` about the review and
-- `Calibrated` about the result.
--
-- The orchestrator consumes the packages that the assembler makes, through the gateway. The other
-- parts share no state.
--
-- Bounds
--
-- The loops recur on the list that they go through. The recursion of `visit` runs on fuel, two
-- more than the graph has streams: the streams being visited are distinct keys of the graph, and a
-- stream that is none has no dependencies. The loop of `execute` runs on fuel too, one pass more
-- than the budget has iterations, since each pass that goes on completes a step. The interpreter's
-- limit on the depth of recursion is not modelled. Times are whole microseconds, and a time that
-- cannot be read is none.
--
-- Parameters
--
-- The clock, the identifier factory and the reader of times are fields of `Settings`; that two
-- identifiers differ is the hypothesis `AreDistinct`. The SHA-256 digest is an argument of the
-- journal's functions, and so are `str.lower` where keys are redacted and `str.casefold` where
-- policies are matched. The assembler's readers, the digest and the decoding of bytes are the
-- fields of `Sources`. The orchestrator's planner, reasoner and gateway are the fields of
-- `Providers`, any functions that may raise, where the gateway has the number of the call as well,
-- and json.dumps, str.lower and the identities that digests make are those of `Rendering`, and for
-- the planner of `PlannerText`. That a response's references are told apart by their spans is the
-- hypothesis `AreTold`. What the regular expressions of the adjudication find is in `Scopes`. A
-- float is the place of its value among the doubles, and a limit is a natural number. A fetch
-- itself is outside: any outcome may follow, and any progress and activity calls may come before.
--
-- Not modelled
--
-- The other operations on streams, acquisition, feeds, pull sources, the research harness,
-- concepts, the search index and the ranking of retrieval, the deterministic reasoner, the storage
-- in SQLite and the servers. Of the workspace: exports, backups, comparisons, metrics and the text
-- of a journal file, which is put in place by one rename. The names of the journal's files are not
-- modelled either: that the order of the names is the order of the sequence numbers, which `_append`
-- sees to and `verify` does not check, is taken for granted, also where an appended event is the
-- last. Nor is enqueue_all of the queue, a sequence of enqueue calls that holds no lock of its own.
pub mod Common
pub mod FetchQueue
pub mod Intelligence
pub mod Research
pub mod Retrieval
pub mod Streams
pub mod Workspace
