-- ===== src/Workspace/Summary.antt =====
-- What `investigation` of workspace/repository.py reads behind an operation.
use rfi.Common.{
  String, ◌≡◌, ◌≢◌, inl, inr, refl, sym, ap, ◌∙◌, Bool, true, false, Option, none, some, List, [],
  ◌∷◌, ◌++◌, ◌==◌, eq_iff, arith, if◌then◌else◌, Option-cases,
}
use rfi.Workspace.State.{
  InvestigationStatus, Payload, Material, JournalEvent, Workspace, InvestigationSummary,
  WorkspaceError, Result, ok, raise, ◌>>=◌,
}
use rfi.Workspace.Verify.{check_export, raw_of, started_id}
use rfi.Workspace.Journal.{
  Stamp, select, belongs, all_events, events, append, next_event, find_created, last_status,
  last_time, collect, summary_of, investigation, annotation_id, export_id,
}
use rfi.Workspace.Operations
use rfi.Workspace.Operations.{checked, append_and_read, must_exist, creation_checks, creation}
use rfi.Workspace.Append.{IsValid, append-IsValid}
use rfi.Workspace.Lifecycle.{ok_injective}

select-append_one :
    (p : JournalEvent → Bool) (es : List JournalEvent) (e : JournalEvent)
    → select p (es ++ e ∷ []) ≡ (if p e then select p es ++ e ∷ [] else select p es)
unfolding select
select-append_one p [] e = refl
select-append_one p (f ∷ es) e = ground (arith, select-append_one p es e)

find_created-append_one :
    (es : List JournalEvent) (e c : JournalEvent)
    → find_created es ≡ some c
    → find_created (es ++ e ∷ []) ≡ some c
unfolding find_created
find_created-append_one [] e c h = cc
find_created-append_one (f ∷ es) e c h = ground (arith, find_created-append_one es e c)

last_time-append_one :
    (t : String) (es : List JournalEvent) (e : JournalEvent)
    → last_time t (es ++ e ∷ []) ≡ e.timestamp
unfolding last_time
last_time-append_one t [] e = refl
last_time-append_one t (f ∷ es) e = last_time-append_one f.timestamp es e

last_status-append_one :
    (s t : InvestigationStatus) (es : List JournalEvent) (e : JournalEvent)
    → e.payload ≡ Payload.investigation_status t
    → last_status s (es ++ e ∷ []) ≡ t
unfolding last_status
last_status-append_one s t [] e h = rw h refl
last_status-append_one s t (f ∷ es) e h = last_status-append_one _ t es e h

collect-append_one :
    (read : Payload → Option String) (es : List JournalEvent) (e : JournalEvent)
    → read e.payload ≡ none
    → collect read (es ++ e ∷ []) ≡ collect read es
unfolding collect
collect-append_one read [] e h = rw h refl
collect-append_one read (f ∷ es) e h = elim (Option-cases (read f.payload)) [
  | inl unread ↦ rw (unread, collect) (collect-append_one read es e h)
  | inr (k, is) ↦ rw (is, collect) (ap (λ ks. k ∷ ks) (collect-append_one read es e h))
]

-- what `investigation` makes of the events of one
abbrev summary_at : String → List JournalEvent → Result InvestigationSummary
summary_at k es = elim (find_created es) [
  | none ↦ raise WorkspaceError.unknown_investigation
  | some e ↦ summary_of k e.timestamp e.payload es
]

summary_of-append_status :
    (k t : String) (p : Payload) (es : List JournalEvent) (e : JournalEvent)
    (status : InvestigationStatus) (i : InvestigationSummary)
    → e.payload ≡ Payload.investigation_status status
    → summary_of k t p es ≡ ok i
    → summary_of k t p (es ++ e ∷ []) ≡ ok (record i { status = status; updated_at = e.timestamp })
summary_of-append_status k t (Payload.investigation_created a b c d s) es e status i is h =
    let what = ok_injective h in
    (λ j. ok (record {
      investigation_id = k;
      title = a;
      purpose = b;
      customer = c;
      engagement = d;
      status = last_status-append_one s status es e is j;
      created_at = t;
      updated_at = last_time-append_one t es e j;
      execution_ids = collect-append_one started_id es e (ap started_id is) j;
      annotation_ids = collect-append_one annotation_id es e (ap annotation_id is) j;
      export_ids = collect-append_one export_id es e (ap export_id is) j;
    }))
    ∙ ap (λ (x : InvestigationSummary). ok (record x { status = status; updated_at = e.timestamp }))
        what
summary_of-append_status k t (Payload.investigation_status _) es e status i is h = absurd (cc)
summary_of-append_status k t (Payload.operator_annotation _ _ _ _) es e status i is h = absurd (cc)
summary_of-append_status k t (Payload.execution_started _ _ _) es e status i is h = absurd (cc)
summary_of-append_status k t (Payload.execution_completed _ _ _ _) es e status i is h = absurd (cc)
summary_of-append_status k t (Payload.execution_failed _ _ _ _) es e status i is h = absurd (cc)
summary_of-append_status k t (Payload.investigation_exported _ _ _) es e status i is h = absurd (cc)

module _ (digest : Material → String) where
  -- the events of an investigation in a journal that verifies
  events_of_valid :
      (k : String) (ws : Workspace)
      → IsValid digest ws
      → events digest k ws ≡ ok (select (belongs k) (raw_of ws.journal))
  unfolding events all_events
  events_of_valid k ws h = rw h refl

  -- the events of an investigation behind an append
  events-append :
      (stamp : Stamp) (k j : String) (payload : Payload) (ws : Workspace)
      → IsValid digest ws
      → check_export ws.files payload ≡ []
      → events digest j (append digest stamp k payload ws).1
        ≡ ok (
            if k == j
            then select (belongs j) (raw_of ws.journal)
              ++ next_event digest stamp (some k) payload (raw_of ws.journal) ∷ []
            else select (belongs j) (raw_of ws.journal))
  unfolding next_event
  events-append stamp k j payload ws h there =
      let (done, valid, raw, files) = append-IsValid digest stamp k payload ws h there in
      events_of_valid j (append digest stamp k payload ws).1 valid
      ∙ ap ok (
          ap (select (belongs j)) raw
          ∙ select-append_one (belongs j) (raw_of ws.journal)
              (next_event digest stamp (some k) payload (raw_of ws.journal)))

  -- An append to a journal that verifies, for one investigation and with no export that is missing,
  -- changes nothing of what is read of another.
  pub append-frame :
      (stamp : Stamp) (k j : String) (payload : Payload) (ws : Workspace)
      → IsValid digest ws
      → check_export ws.files payload ≡ []
      → k ≢ j
      → investigation digest j (append digest stamp k payload ws).1 ≡ investigation digest j ws
  unfolding investigation
  append-frame stamp k j payload ws h there other =
      let apart : (k == j) ≡ false = ground (arith, eq_iff k j) in
      rw (events-append stamp k j payload ws h there, apart, events_of_valid j ws h) refl

  -- what `investigation` found of one that it could read
  found :
      (k : String) (ws : Workspace) (i : InvestigationSummary)
      → IsValid digest ws
      → investigation digest k ws ≡ ok i
      → let relevant = select (belongs k) (raw_of ws.journal) in
        (c : JournalEvent) × (find_created relevant ≡ some c)
        × (summary_of k c.timestamp c.payload relevant ≡ ok i)
  unfolding investigation
  found k ws i h is =
      let relevant = select (belongs k) (raw_of ws.journal) in
      let read = sym (ap (λ r. r >>= summary_at k) (events_of_valid k ws h)) ∙ is in
      elim (Option-cases (find_created relevant)) [
        | inl missing ↦ absurd (ground arith)
        | inr (c, there) ↦ (c, there, ground arith)
      ]

  read_after :
      (stamp : Stamp) (k : String) (status : InvestigationStatus) (ws : Workspace)
      (i : InvestigationSummary)
      → IsValid digest ws
      → investigation digest k ws ≡ ok i
      → investigation digest k (append digest stamp k (Payload.investigation_status status) ws).1
        ≡ ok (record i { status = status; updated_at = stamp.timestamp })
  unfolding investigation next_event check_export
  read_after stamp k status ws i h is =
      let payload = Payload.investigation_status status in
      let relevant = select (belongs k) (raw_of ws.journal) in
      let e = next_event digest stamp (some k) payload (raw_of ws.journal) in
      let (c, there, reads) = found k ws i h is in
      let same : (k == k) ≡ true = (eq_iff k k).1 refl in
      let reads_on : summary_at k (relevant ++ e ∷ [])
          ≡ ok (record i { status = status; updated_at = stamp.timestamp }) =
        rw (find_created-append_one relevant e c there, summary_at)
          (summary_of-append_status k c.timestamp c.payload relevant e status i refl reads) in
      rw (events-append stamp k k payload ws h refl, same) reads_on

  -- After `set_status`, in a journal that verifies, on an investigation that can be read, the investigation reads as before but
  -- for its status and the time of its last update, and that is what the call returns.
  pub set_status-investigation :
      (stamp : Stamp) (k : String) (status : InvestigationStatus) (ws : Workspace)
      (i : InvestigationSummary)
      → IsValid digest ws
      → investigation digest k ws ≡ ok i
      → let (r, ws') = Operations.set_status digest stamp k status ws in
        (r ≡ ok (record i { status = status; updated_at = stamp.timestamp }))
        × (investigation digest k ws' ≡ r)
  unfolding Operations.set_status check_export
  set_status-investigation stamp k status ws i h is =
      let payload = Payload.investigation_status status in
      let done = append-IsValid digest stamp k payload ws h refl in
      let after = read_after stamp k status ws i h is in rw (is, done.0, after) (refl, refl)
