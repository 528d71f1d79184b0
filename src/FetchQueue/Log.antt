-- ===== src/FetchQueue/Log.antt =====
-- `_event`, `_persist_event`, `_persist_history`, `_seconds_since` and `_stale_seconds` of
-- mailing_lists/queue.py. A store that raises is a store whose call is ignored.
use rfi.Common.{
  ℕ, ◌+◌, ◌-◌, String, Bool, true, false, Option, none, some, List, [], ◌∷◌, ◌++◌, ◌==◌,
  if◌then◌else◌,
}
use rfi.Common.Lists.{push_bounded}
use rfi.FetchQueue.State.{
  EventKind, FetchUpToDateResult, FetchJob, QueueEvent, Settings, FetchQueue,
}

-- `event == "progress"`
abbrev pub is_progress : EventKind → Bool
is_progress EventKind.progress = true
is_progress _ = false

unfoldable pub persist_event : Settings → QueueEvent → List QueueEvent → List QueueEvent
persist_event c entry log = if c.has_history then log ++ entry ∷ [] else log

-- `_event`
unfoldable pub record_event :
    Settings → EventKind → Option String → Option String → String → FetchQueue → FetchQueue
unfolding persist_event
record_event c event stream_id stream_name message q =
    let entry : QueueEvent = record {
      sequence = q.sequence + 1;
      occurred_at = c.clock q.ticks;
      event = event;
      stream_id = stream_id;
      stream_name = stream_name;
      message = message;
    } in
    record q {
      sequence = q.sequence + 1;
      ticks = q.ticks + 1;
      events = push_bounded c.event_limit entry q.events;
      durable_events =
          if is_progress event then q.durable_events else persist_event c entry q.durable_events;
    }

-- `job.result.get("windows_completed", 0) if job.result else 0`
abbrev pub windows_of : Option FetchUpToDateResult → ℕ
windows_of none = 0
windows_of (some result) = result.windows_completed

-- `finished_at or self.clock()`, with the number of clock readings that it makes
abbrev pub finished_or_clock : Settings → ℕ → Option String → String × ℕ
finished_or_clock c ticks none = (c.clock ticks, ticks + 1)
finished_or_clock c ticks (some at) = if at == "" then (c.clock ticks, ticks + 1) else (at, ticks)

unfoldable pub persist_history : Settings → FetchJob → FetchQueue → FetchQueue
persist_history c job q =
    let finished = finished_or_clock c q.ticks job.finished_at in
    record q {
      ticks = if c.has_history then finished.1 else q.ticks;
      durable_history =
          if c.has_history
          then q.durable_history
            ++ record {
              stream_id = job.stream_id;
              stream_name = job.stream_name;
              state = job.state;
              message = job.message;
              queued_at = job.queued_at;
              started_at = job.started_at;
              finished_at = finished.0;
              windows_completed = windows_of job.result;
              result = job.result;
            }
              ∷ []
          else q.durable_history;
    }

-- `_seconds_since`, in microseconds, with the instant that `self.now()` returns: 0 where there is
-- no reading or none that parses, and never below 0
unfoldable pub seconds_since : Settings → ℕ → Option String → ℕ
seconds_since c now none = 0
seconds_since c now (some candidate) = elim (c.instant candidate) [ none ↦ 0 | some at ↦ now - at ]

-- `a or b` on optional texts
abbrev pub or_else : Option String → Option String → Option String
or_else none b = b
or_else (some a) b = if a == "" then b else some a

-- `_stale_seconds`
unfoldable pub stale_seconds : Settings → ℕ → FetchJob → ℕ
unfolding seconds_since
stale_seconds c now job =
    seconds_since c now (or_else (or_else job.last_activity_at job.last_progress_at) job.started_at)
