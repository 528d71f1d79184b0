-- ===== src/Workspace/Verify.antt =====
-- `verify` of workspace/repository.py.
use rfi.Common.Lists.{is_empty}
use rfi.Common.{
  ℕ, ◌+◌, String, Bool, true, false, Option, none, some, List, [], ◌∷◌, ◌++◌, ◌==◌, eqb, not,
  if◌then◌else◌,
}
use rfi.Common.Lists.{length}
use rfi.Common.Sorting.{insert_sorted}
use rfi.Common.Assoc.{Dict, lookup}
use rfi.Workspace.State.{
  Payload, Material, JournalEvent, EventFile, unreadable, readable, Metadata, missing, corrupt,
  present, Workspace, Failure, IntegrityReport,
}

-- `a == b` on optional texts
abbrev pub same_option : Option String → Option String → Bool
same_option none none = true
same_option (some a) (some b) = a == b
same_option _ _ = false

-- `_raw_events`: it raises at the first file that it cannot read
unfoldable pub raw_events : List EventFile → Option (List JournalEvent)
raw_events [] = some []
raw_events (unreadable ∷ files) = none
raw_events (readable e ∷ files) = elim (raw_events files) [ none ↦ none | some es ↦ some (e ∷ es) ]

abbrev pub when : Bool → Failure → List Failure
when true f = f ∷ []
when false f = []

unfoldable pub check_metadata : Metadata → List Failure
check_metadata missing = Failure.metadata_missing ∷ []
check_metadata corrupt = Failure.metadata_corrupt ∷ []
check_metadata (present schema_version workspace_id) =
    when (not (eqb schema_version 1)) Failure.unsupported_schema
    ++ when (workspace_id == "") Failure.identity_missing

abbrev pub metadata_files : Metadata → ℕ
metadata_files (present _ _) = 1
metadata_files _ = 0

-- `digest` is the SHA-256 of an event's canonical JSON.
module _ (digest : Material → String) where
  -- the loop over the events, from the expected sequence number and the hash before
  unfoldable pub check_chain : ℕ → Option String → List JournalEvent → List Failure
  check_chain expected previous [] = []
  check_chain expected previous (e ∷ es) =
      when (not (eqb e.sequence expected)) (Failure.sequence_mismatch expected)
      ++ (when (not (same_option e.previous_hash previous)) (Failure.chain_mismatch expected)
          ++ (when (not (e.event_hash == digest e.material)) (Failure.digest_mismatch expected)
              ++ check_chain (expected + 1) (some e.event_hash) es))

-- one exported file against the journal
unfoldable pub check_export : Dict String → Payload → List Failure
check_export files (Payload.investigation_exported _ path sha256) = elim (lookup path files) [
  | none ↦ Failure.export_missing ∷ []
  | some digest ↦ when (not (digest == sha256)) Failure.export_digest_mismatch
]
check_export files _ = []

abbrev pub export_files : Dict String → Payload → ℕ
export_files files (Payload.investigation_exported _ path _) = elim (lookup path files) [
  | none ↦ 0
  | some _ ↦ 1
]
export_files files _ = 0

unfoldable pub check_exports : Dict String → List JournalEvent → List Failure
unfolding check_export
check_exports files [] = []
check_exports files (e ∷ es) = check_export files e.payload ++ check_exports files es

unfoldable pub count_exports : Dict String → List JournalEvent → ℕ
count_exports files [] = 0
count_exports files (e ∷ es) = export_files files e.payload + count_exports files es

abbrev pub started_id : Payload → Option String
started_id (Payload.execution_started execution_id _ _) = some execution_id
started_id _ = none

abbrev pub terminal_id : Payload → Option String
terminal_id (Payload.execution_completed execution_id _ _ _) = some execution_id
terminal_id (Payload.execution_failed execution_id _ _ _) = some execution_id
terminal_id _ = none

-- whether an event's payload names the execution, by `started_id` or `terminal_id`
abbrev pub names : (Payload → Option String) → String → JournalEvent → Bool
names read execution_id e = elim (read e.payload) [ none ↦ false | some k ↦ k == execution_id ]

unfoldable pub has_terminal : String → List JournalEvent → Bool
has_terminal execution_id [] = false
has_terminal execution_id (e ∷ es) =
    if names terminal_id execution_id e then true else has_terminal execution_id es

-- `started - terminal`: the started executions of `es` that have no terminal event in `all`
unfoldable pub open_executions : List JournalEvent → List JournalEvent → List String
unfolding insert_sorted has_terminal
open_executions all [] = []
open_executions all (e ∷ es) =
    let later = open_executions all es in
    elim (started_id e.payload) [
      | none ↦ later
      | some k ↦ if has_terminal k all then later else insert_sorted k later
    ]

-- what `raw` is after the `try`, and its failure
abbrev pub raw_of : List EventFile → List JournalEvent
raw_of files = elim (raw_events files) [ none ↦ [] | some es ↦ es ]

abbrev pub raw_failure : List EventFile → List Failure
raw_failure files = elim (raw_events files) [ none ↦ Failure.unreadable_event ∷ [] | some _ ↦ [] ]

abbrev pub check_partials : List String → List Failure
check_partials [] = []
check_partials (p ∷ ps) = Failure.partial_writes (length (p ∷ ps)) ∷ []

module _ (digest : Material → String) where
  -- `verify`
  unfoldable pub verify : Workspace → IntegrityReport
  unfolding raw_events check_metadata check_chain check_exports count_exports open_executions
  verify ws =
      let raw = raw_of ws.journal in
      let failures =
        check_metadata ws.metadata
        ++ (check_partials ws.partials
            ++ (raw_failure ws.journal
                ++ (check_chain digest 1 none raw ++ check_exports ws.files raw))) in
      record {
        valid = is_empty failures;
        events_checked = length raw;
        files_checked = metadata_files ws.metadata + length raw + count_exports ws.files raw;
        open_executions = open_executions raw raw;
        failures = failures;
      }
