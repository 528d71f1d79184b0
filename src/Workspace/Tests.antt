-- ===== src/Workspace/Tests.antt =====
-- Runs of the model of workspace/repository.py, and the theorems at concrete workspaces.
use mathlib.Core.Path.{subst}
use rfi.Common.{
  ◌≤◌, String, ◌≡◌, ◌≢◌, ◌⊎◌, inl, inr, refl, sym, ap, ◌∙◌, true, false, none, some, List, [], ◌∷◌,
  ◌++◌, eq_iff,
}
use rfi.Common.Text.{strip, decimal}
use rfi.Workspace.State.{
  readable, InvestigationStatus, Payload, Material, JournalEvent, Metadata, Workspace, text, object,
  field, end, number, InvestigationSummary, WorkspaceError, ok, raise,
}
use rfi.Workspace.Redact.{redact}
use rfi.Workspace.Verify.{check_export, check_metadata, raw_of, has_terminal, verify}
use rfi.Workspace.Journal.{Stamp, append, next_event, investigation}
use rfi.Workspace.Operations
use rfi.Workspace.Chain.{IsMaterialOf}
use rfi.Workspace.Append.{IsValid, append-IsValid, verify-tamper_evident}
use rfi.Workspace.Lifecycle.{has_started, terminals}
use rfi.Workspace.Safety.{Step, Reach, fresh, Reach-verifies, Reach-terminal_once}
use rfi.Workspace.Summary.{append-frame, set_status-investigation}
use rfi.Workspace.Recovery.{append_partial, recover_partial_writes, recover_partial_writes-IsValid}
use rfi.Workspace.Redaction.{IsClean, redact-IsClean}

-- tells the events of a journal apart by their numbers
abbrev digest : Material → String
digest m = decimal m.sequence

abbrev lower : String → String
lower s = s

abbrev metadata : Metadata
metadata = Metadata.present 1 "workspace-1"

abbrev first : Stamp
first = record { event_id = "event-1"; timestamp = "2026-01-01T00:00:00Z" }

abbrev second : Stamp
second = record { event_id = "event-2"; timestamp = "2026-01-02T00:00:00Z" }

abbrev third : Stamp
third = record { event_id = "event-3"; timestamp = "2026-01-03T00:00:00Z" }

-- one investigation, and an execution that has started
abbrev created : Workspace
created =
    (Operations.create_investigation digest first "i" " Title " "Purpose" none none
      (fresh metadata)).1

abbrev started : Workspace
started = (Operations.begin_execution digest lower second "x" "i" "Why?" (object end) created).1

abbrev failed : Workspace
failed = (Operations.fail_execution digest third "i" "x" "timeout" false none started).1

failed-Reach : Reach digest lower (fresh metadata) failed
failed-Reach =
    Reach.after
      (Reach.after
        (Reach.after Reach.here
          (Step.create first "i" " Title " "Purpose" none none (fresh metadata)))
        (Step.begin second "x" "i" "Why?" (object end) created))
      (Step.fail third "i" "x" "timeout" false none started)

created-Reach : Reach digest lower (fresh metadata) created
created-Reach =
    Reach.after Reach.here (Step.create first "i" " Title " "Purpose" none none (fresh metadata))

metadata_valid : check_metadata metadata ≡ []
unfolding check_metadata
metadata_valid = refl

-- the second terminal event is refused
failed_twice :
    (Operations.fail_execution digest third "i" "x" "again" false none failed).0
    ≡ raise WorkspaceError.already_terminal
unfolding Operations.fail_execution Operations.begin_execution Operations.create_investigation strip
    decimal
failed_twice = refl

Reach-verifies_example : (verify digest failed).valid ≡ true
Reach-verifies_example = Reach-verifies digest lower metadata_valid failed-Reach

Reach-terminal_once_example :
    (terminals "x" (raw_of failed.journal) ≤ 1)
    × (has_terminal "x" (raw_of failed.journal) ≡ true
        → has_started "x" (raw_of failed.journal) ≡ true)
Reach-terminal_once_example = Reach-terminal_once digest lower "x" metadata_valid failed-Reach

append-IsValid_example :
    let payload = Payload.investigation_status InvestigationStatus.closed in
    let (r, ws') = append digest second "i" payload created in
    let e = next_event digest second (some "i") payload (raw_of created.journal) in
    (r ≡ ok e)
    × IsValid digest ws'
    × (raw_of ws'.journal ≡ raw_of created.journal ++ e ∷ [])
    × (ws' ≡ record created { journal = created.journal ++ readable e ∷ [] })
unfolding check_export
append-IsValid_example =
    append-IsValid digest second "i" (Payload.investigation_status InvestigationStatus.closed)
      created (Reach-verifies digest lower metadata_valid created-Reach) refl

redact-IsClean_example :
    let j = object (field "api_token" (text "s3cret") (field "limit" (number 5) end)) in
    IsClean lower (redact lower j) × (IsClean lower j → redact lower j ≡ j)
redact-IsClean_example =
    redact-IsClean lower (object (field "api_token" (text "s3cret") (field "limit" (number 5) end)))

created-IsValid : IsValid digest created
created-IsValid = Reach-verifies digest lower metadata_valid created-Reach

append-frame_example :
    investigation digest "other"
      (append digest second "i" (Payload.investigation_status InvestigationStatus.closed) created).1
    ≡ investigation digest "other" created
unfolding check_export
append-frame_example =
    append-frame digest second "i" "other" (Payload.investigation_status InvestigationStatus.closed)
      created created-IsValid refl (λ same. cc)

abbrev summary : InvestigationSummary
summary = record {
  investigation_id = "i";
  title = "Title";
  purpose = "Purpose";
  customer = none;
  engagement = none;
  status = InvestigationStatus.open_;
  created_at = "2026-01-01T00:00:00Z";
  updated_at = "2026-01-01T00:00:00Z";
  execution_ids = [];
  annotation_ids = [];
  export_ids = [];
}

created-summary : investigation digest "i" created ≡ ok summary
unfolding investigation Operations.create_investigation strip decimal
created-summary = refl

set_status-investigation_example :
    let (r, ws') = Operations.set_status digest second "i" InvestigationStatus.closed created in
    (r ≡ ok (record summary { status = InvestigationStatus.closed; updated_at = second.timestamp }))
    × (investigation digest "i" ws' ≡ r)
set_status-investigation_example =
    set_status-investigation digest second "i" InvestigationStatus.closed created summary
      created-IsValid created-summary

-- the two events of `started`
abbrev creating : JournalEvent
creating =
    next_event digest first (some "i")
      (Payload.investigation_created "Title" "Purpose" none none InvestigationStatus.open_) []

abbrev starting : JournalEvent
starting =
    next_event digest second (some "i") (Payload.execution_started "x" "Why?" (object end))
      (creating ∷ [])

started-journal : raw_of started.journal ≡ creating ∷ starting ∷ []
unfolding Operations.begin_execution Operations.create_investigation verify next_event strip decimal
    redact
started-journal = refl

either :
    (es : List JournalEvent) (a : Material)
    → es ≡ creating ∷ starting ∷ []
    → IsMaterialOf a es ⊎ IsMaterialOf a es
    → (creating.material ≡ a) ⊎ (starting.material ≡ a)
either es a is there = among (subst (λ fs. IsMaterialOf a fs ⊎ IsMaterialOf a fs) is there)
  where
    among :
        IsMaterialOf a (creating ∷ starting ∷ []) ⊎ IsMaterialOf a (creating ∷ starting ∷ [])
        → (creating.material ≡ a) ⊎ (starting.material ≡ a)
    among (inl (inl x)) = inl x
    among (inl (inr (inl x))) = inr x
    among (inl (inr (inr x))) = absurd x
    among (inr (inl x)) = inl x
    among (inr (inr (inl x))) = inr x
    among (inr (inr (inr x))) = absurd x

false_not_true : false ≢ true
false_not_true e = cc

distinct : digest creating.material ≢ digest starting.material
unfolding next_event decimal
distinct e =
    absurd (false_not_true ((eq_iff (digest creating.material) (digest starting.material)).1 e))

not_empty : (es fs : List JournalEvent) (e : JournalEvent) → es ≡ e ∷ fs → es ≢ []
not_empty es fs e is empty = cc

told_apart :
    (a b : Material)
    → (creating.material ≡ a) ⊎ (starting.material ≡ a)
    → (creating.material ≡ b) ⊎ (starting.material ≡ b)
    → digest a ≡ digest b
    → a ≡ b
told_apart a b (inl x) (inl y) h = sym x ∙ y
told_apart a b (inl x) (inr y) h = absurd (distinct (ap digest x ∙ h ∙ sym (ap digest y)))
told_apart a b (inr x) (inl y) h = absurd (distinct (ap digest y ∙ sym h ∙ sym (ap digest x)))
told_apart a b (inr x) (inr y) h = sym x ∙ y

-- the same journal beside another file
abbrev copied : Workspace
copied = record started { files = ("exports/a.json", "00") ∷ [] }

started-IsValid : IsValid digest started
unfolding verify Operations.create_investigation strip decimal Operations.begin_execution redact
started-IsValid = refl

copied-IsValid : IsValid digest copied
unfolding verify Operations.create_investigation strip decimal Operations.begin_execution redact
copied-IsValid = refl

verify-tamper_evident_example : raw_of started.journal ≡ raw_of copied.journal
verify-tamper_evident_example =
    verify-tamper_evident digest started copied
      (λ a b ia ib h.
        told_apart a b (either (raw_of started.journal) a started-journal ia)
          (either (raw_of started.journal) b started-journal ib) h)
      started-IsValid copied-IsValid
      (not_empty (raw_of started.journal) (starting ∷ []) creating started-journal)
      (not_empty (raw_of copied.journal) (starting ∷ []) creating started-journal) refl

recover_partial_writes-IsValid_example :
    let cut = (append_partial digest "00000000000000000002.partial" created).1 in
    ((verify digest cut).valid ≡ false)
    × ((stamp : Stamp) (k : String) (payload : Payload)
        → append digest stamp k payload cut ≡ (raise WorkspaceError.corrupt_journal, cut))
    × IsValid digest (recover_partial_writes cut).1
    × (raw_of (recover_partial_writes cut).1.journal ≡ raw_of created.journal)
recover_partial_writes-IsValid_example =
    recover_partial_writes-IsValid digest "00000000000000000002.partial" created created-IsValid
