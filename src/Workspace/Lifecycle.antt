-- ===== src/Workspace/Lifecycle.antt =====
-- The executions of workspace/repository.py over any sequence of operations.
use rfi.Common.{
  ℕ, ◌≤◌, String, ◌≡◌, ◌⊎◌, inl, inr, refl, ap, ◌∙◌, Bool, true, false, none, some, List, [], ◌∷◌,
  ◌++◌, arith, ◌||◌, eq_iff, is_some, Option-cases,
}
use rfi.Common.Lists.{count_if, count_if-append}
use rfi.Workspace.State.{Payload, Material, JournalEvent, Workspace, Result, ok, raise, ◌>>=◌}
use rfi.Workspace.Verify.{check_export, raw_of, names, terminal_id, has_terminal}
use rfi.Workspace.Journal.{
  Stamp, select, belongs, all_events, events, append, next_event, find_started,
}
use rfi.Workspace.Operations.{checked, started_execution, check_open}
use rfi.Workspace.Append.{IsValid, append-IsValid}

pub bind_ok {ℓ κ} :
    {A : Type ℓ} {B : Type κ} (m : Result A) (f : A → Result B) (b : B)
    → (m >>= f) ≡ ok b
    → (a : A) × (m ≡ ok a) × (f a ≡ ok b)
bind_ok (ok a) f b h = (a, refl, h)
bind_ok (raise e) f b h = cc

pub ok_injective {ℓ} : {A : Type ℓ} {a b : A} → ok a ≡ ok b → a ≡ b
ok_injective h = cc

-- whether the execution has a start event
abbrev pub has_started : String → List JournalEvent → Bool
has_started k es = is_some (find_started k es)

-- how many terminal events the execution has
abbrev pub terminals : String → List JournalEvent → ℕ
terminals k = count_if (names terminal_id k)

terminals_of_none :
    (k : String) (es : List JournalEvent) → has_terminal k es ≡ false → terminals k es ≡ 0
unfolding has_terminal
terminals_of_none k [] h = refl
terminals_of_none k (e ∷ es) h = ground (arith, terminals_of_none k es)

has_terminal-append_one :
    (k : String) (es : List JournalEvent) (e : JournalEvent)
    → has_terminal k (es ++ e ∷ []) ≡ (has_terminal k es || names terminal_id k e)
unfolding has_terminal
has_terminal-append_one k [] e = ground arith
has_terminal-append_one k (f ∷ es) e = ground (arith, has_terminal-append_one k es e)

has_started-append_one :
    (k : String) (es : List JournalEvent) (e : JournalEvent)
    → has_started k es ≡ true
    → has_started k (es ++ e ∷ []) ≡ true
unfolding find_started
has_started-append_one k [] e h = cc
has_started-append_one k (f ∷ es) e h = ground (arith, has_started-append_one k es e)

has_started-select :
    (p : JournalEvent → Bool) (k : String) (es : List JournalEvent)
    → has_started k (select p es) ≡ true
    → has_started k es ≡ true
unfolding find_started select
has_started-select p k [] h = h
has_started-select p k (e ∷ es) h = ground (arith, has_started-select p k es)

-- Each execution has at most one terminal event, and one only if it was started.
pub record IsOrderly (es : List JournalEvent) : Type 0 where
  pub once : (k : String) → terminals k es ≤ 1
  pub started_first : (k : String) → has_terminal k es ≡ true → has_started k es ≡ true

-- An event keeps the journal orderly if it ends no execution, or one that runs.
abbrev pub Fits : Payload → List JournalEvent → Type 0
Fits payload es =
    (terminal_id payload ≡ none)
    ⊎ ((k : String) × (terminal_id payload ≡ some k)
        × (has_terminal k es ≡ false)
        × (has_started k es ≡ true))

IsOrderly-append_one :
    (es : List JournalEvent) (e : JournalEvent)
    → IsOrderly es
    → Fits e.payload es
    → IsOrderly (es ++ e ∷ [])
IsOrderly-append_one es e h (inl harmless) = record {
  once = λ k. ground (arith, h.once k, count_if-append (names terminal_id k) es (e ∷ []));
  started_first = λ k t.
      has_started-append_one k es e
        (ground (arith, h.started_first k, has_terminal-append_one k es e));
}
IsOrderly-append_one es e h (inr (j, ends, fresh, began)) = record {
  once = λ k. ground (
    arith,
    h.once k,
    count_if-append (names terminal_id k) es (e ∷ []),
    terminals_of_none k es,
    eq_iff j k,
  );
  started_first = λ k t.
      has_started-append_one k es e
        (ground (arith, h.started_first k, has_terminal-append_one k es e, eq_iff j k));
}

module _ (digest : Material → String) where
  pub record IsSound (ws : Workspace) : Type 0 where
    pub valid : IsValid digest ws
    pub orderly : IsOrderly (raw_of ws.journal)

  pub append-IsSound :
      (stamp : Stamp) (k : String) (payload : Payload) (ws : Workspace)
      → IsSound ws
      → check_export ws.files payload ≡ []
      → Fits payload (raw_of ws.journal)
      → IsSound (append digest stamp k payload ws).1
  unfolding next_event
  append-IsSound stamp k payload ws h there fits =
      let done = append-IsValid digest stamp k payload ws h.valid there in
      record {
        valid = done.1;
        orderly = rw done.2 (
            IsOrderly-append_one (raw_of ws.journal)
              (next_event digest stamp (some k) payload (raw_of ws.journal)) h.orderly fits);
      }

  -- a write behind checks
  pub checked-IsSound {ℓ} :
      {A : Type ℓ} (checks : Result (Unit {0})) (write : Workspace → Result A × Workspace)
      (ws : Workspace)
      → IsSound ws
      → (checks ≡ ok tt → IsSound (write ws).1)
      → IsSound (checked digest checks write ws).1
  checked-IsSound (ok _) write ws h keep = keep refl
  checked-IsSound (raise e) write ws h keep = h

  -- reading the events gives those of the journal
  read_all :
      (ws : Workspace) (es : List JournalEvent)
      → all_events digest ws ≡ ok es
      → raw_of ws.journal ≡ es
  unfolding all_events
  read_all ws es h = ground arith

  pub began :
      (investigation_id k : String) (ws : Workspace) (started : Payload)
      → started_execution digest investigation_id k ws ≡ ok started
      → has_started k (raw_of ws.journal) ≡ true
  unfolding started_execution events
  began i k ws started h =
      let (es, read, found) = bind_ok (events digest i ws) _ started h in
      let (all, read_it, selected) = bind_ok (all_events digest ws) _ es read in
      let there : has_started k es ≡ true = elim (Option-cases (find_started k es)) [
        | inl missing ↦ absurd (ground arith)
        | inr (e, is) ↦ ap is_some is
      ] in
      rw (read_all ws all read_it) (
        has_started-select (belongs i) k all
          (ap (λ r. has_started k r) (ok_injective selected) ∙ there))

  pub still_open :
      (k : String) (ws : Workspace)
      → check_open digest k ws ≡ ok tt
      → has_terminal k (raw_of ws.journal) ≡ false
  unfolding check_open
  still_open k ws h =
      let (all, read, passed) = bind_ok (all_events digest ws) _ tt h in
      rw (read_all ws all read) (ground arith)
