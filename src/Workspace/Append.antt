-- ===== src/Workspace/Append.antt =====
-- What `verify` and `_append` of workspace/repository.py promise of the journal.
use rfi.Common.Lists.{is_empty}
use rfi.Common.{
  String, ◌≡◌, ◌≢◌, ◌⊎◌, refl, sym, ◌∙◌, true, none, some, List, [], ◌∷◌, ◌++◌, arith, Option-cases,
  inl, inr,
}
use rfi.Common.Assoc.{Dict}
use rfi.Workspace.State.{
  Payload, Material, JournalEvent, EventFile, unreadable, readable, Workspace, ok,
}
use rfi.Workspace.Verify.{
  check_metadata, check_chain, check_export, check_exports, check_partials, raw_events, raw_of,
  raw_failure, verify,
}
use rfi.Workspace.Journal.{Stamp, last_hash, next_event, append}
use rfi.Workspace.Chain.{
  split_empty, join_empty, IsChain, last_hash-eq-hash_after, check_chain_sound,
  check_chain_complete, IsChain-append_one, same_chain, AllMaterials, IsMaterialOf, all_materials,
}

raw_events-append_one :
    (files : List EventFile) (e : JournalEvent) (es : List JournalEvent)
    → raw_events files ≡ some es
    → raw_events (files ++ readable e ∷ []) ≡ some (es ++ e ∷ [])
unfolding raw_events
raw_events-append_one [] e es h = cc
raw_events-append_one (unreadable ∷ files) e es h = cc
raw_events-append_one (readable f ∷ files) e es h = elim (Option-cases (raw_events files)) [
  | inl none_read ↦ absurd (ground arith)
  | inr (fs, read) ↦ let rest = raw_events-append_one files e fs read in ground (arith, rest)
]

readable_journal :
    (files : List EventFile)
    → is_empty (raw_failure files) ≡ true
    → raw_events files ≡ some (raw_of files)
readable_journal files h = ground arith

check_exports-append_one :
    (files : Dict String) (es : List JournalEvent) (e : JournalEvent)
    → is_empty (check_exports files es) ≡ true
    → check_export files e.payload ≡ []
    → is_empty (check_exports files (es ++ e ∷ [])) ≡ true
unfolding check_exports
check_exports-append_one files [] e h x = rw x refl
check_exports-append_one files (f ∷ es) e h x =
    let (a, b) = split_empty (check_export files f.payload) (check_exports files es) h in
    join_empty (check_export files f.payload) (check_exports files (es ++ e ∷ [])) a
      (check_exports-append_one files es e b x)

module _ (digest : Material → String) where
  abbrev pub IsValid : Workspace → Type 0
  IsValid ws = (verify digest ws).valid ≡ true

  -- What a valid report says of the workspace.
  pub record Checks (ws : Workspace) : Type 0 where
    pub metadata : is_empty (check_metadata ws.metadata) ≡ true
    pub partials : is_empty (check_partials ws.partials) ≡ true
    pub readable_files : is_empty (raw_failure ws.journal) ≡ true
    pub chain : IsChain digest 1 none (raw_of ws.journal)
    pub exports : is_empty (check_exports ws.files (raw_of ws.journal)) ≡ true

  pub Checks-of_valid : (ws : Workspace) → IsValid ws → Checks ws
  unfolding verify
  Checks-of_valid ws h =
      let raw = raw_of ws.journal in
      let (a, r) = split_empty (check_metadata ws.metadata) _ h in
      let (b, s) = split_empty (check_partials ws.partials) _ r in
      let (d, t) = split_empty (raw_failure ws.journal) _ s in
      let (e, f) = split_empty (check_chain digest 1 none raw) (check_exports ws.files raw) t in
      record {
        metadata = a;
        partials = b;
        readable_files = d;
        chain = check_chain_sound digest 1 none raw e;
        exports = f;
      }

  pub IsValid-of_Checks : (ws : Workspace) → Checks ws → IsValid ws
  unfolding verify
  IsValid-of_Checks ws h =
      let raw = raw_of ws.journal in
      join_empty (check_metadata ws.metadata) _ h.metadata (
        join_empty (check_partials ws.partials) _ h.partials (
          join_empty (raw_failure ws.journal) _ h.readable_files (
            join_empty (check_chain digest 1 none raw) (check_exports ws.files raw)
              (check_chain_complete digest 1 none raw h.chain) h.exports)))

  -- An append to a valid journal succeeds, if an export that the event names is there: it adds a
  -- file with the new event behind the journal's files and changes nothing else of the workspace,
  -- the new event is the last, and the journal verifies again.
  pub append-IsValid :
      (stamp : Stamp) (investigation_id : String) (payload : Payload) (ws : Workspace)
      → IsValid ws
      → check_export ws.files payload ≡ []
      → let (r, ws') = append digest stamp investigation_id payload ws in
        let e = next_event digest stamp (some investigation_id) payload (raw_of ws.journal) in
        (r ≡ ok e)
        × IsValid ws'
        × (raw_of ws'.journal ≡ raw_of ws.journal ++ e ∷ [])
        × (ws' ≡ record ws { journal = ws.journal ++ readable e ∷ [] })
  unfolding append
  append-IsValid stamp k payload ws valid there =
      let h = Checks-of_valid ws valid in
      let raw = raw_of ws.journal in
      let e = next_event digest stamp (some k) payload raw in
      let journal = ws.journal ++ readable e ∷ [] in
      let read : raw_events journal ≡ some (raw ++ e ∷ []) =
        raw_events-append_one ws.journal e raw (readable_journal ws.journal h.readable_files) in
      let raw' : raw_of journal ≡ raw ++ e ∷ [] = rw (read, raw_of) refl in
      let kept : Checks (record ws { journal = journal }) = record {
        metadata = h.metadata;
        partials = h.partials;
        readable_files = rw (read, raw_failure) refl;
        chain = rw raw' (
            IsChain-append_one digest 1 none raw e h.chain (omega arith)
              (last_hash-eq-hash_after raw) refl);
        exports = rw raw' (check_exports-append_one ws.files raw e h.exports there);
      } in
      rw (valid, append)
        (refl, IsValid-of_Checks (record ws { journal = journal }) kept, raw', refl)

  -- Two journals that verify, are not empty and end in the same hash hold the same events, if the
  -- digest has no collision among the events of the two: whoever keeps the last hash detects every
  -- later change of the history.
  pub verify-tamper_evident :
      (ws ws' : Workspace)
      → ((a b : Material)
          → IsMaterialOf a (raw_of ws.journal) ⊎ IsMaterialOf a (raw_of ws'.journal)
          → IsMaterialOf b (raw_of ws.journal) ⊎ IsMaterialOf b (raw_of ws'.journal)
          → digest a ≡ digest b
          → a ≡ b)
      → IsValid ws
      → IsValid ws'
      → raw_of ws.journal ≢ []
      → raw_of ws'.journal ≢ []
      → last_hash (raw_of ws.journal) ≡ last_hash (raw_of ws'.journal)
      → raw_of ws.journal ≡ raw_of ws'.journal
  verify-tamper_evident ws ws' collision_free v v' =
      let P : Material → Type 0 =
        λ m. IsMaterialOf m (raw_of ws.journal) ⊎ IsMaterialOf m (raw_of ws'.journal) in
      same P collision_free (raw_of ws.journal) (raw_of ws'.journal) (Checks-of_valid ws v).chain
        (Checks-of_valid ws' v').chain (all_materials P (raw_of ws.journal) (λ m there. inl there))
        (all_materials P (raw_of ws'.journal) (λ m there. inr there))
    where
      same :
          (P : Material → Type 0)
          → ((a b : Material) → P a → P b → digest a ≡ digest b → a ≡ b)
          → (es fs : List JournalEvent) → IsChain digest 1 none es
          → IsChain digest 1 none fs
          → AllMaterials P es
          → AllMaterials P fs
          → es ≢ []
          → fs ≢ []
          → last_hash es ≡ last_hash fs
          → es ≡ fs
      same P free [] fs ce cf a b ne nf h = absurd (ne refl)
      same P free (e ∷ es) [] ce cf a b ne nf h = absurd (nf refl)
      same P free (e ∷ es) (f ∷ fs) ce cf a b ne nf h =
          same_chain digest P free 1 none none e f es fs ce cf a b
            (sym (last_hash-eq-hash_after (e ∷ es)) ∙ h ∙ last_hash-eq-hash_after (f ∷ fs))
