-- ===== src/Workspace/Recovery.antt =====
-- A partial journal write of workspace/repository.py, and what it takes to recover from it.
use rfi.Common.Lists.{is_empty}
use rfi.Common.{
  String, ◌≡◌, refl, true, false, List, [], ◌∷◌, if◌then◌else◌, sym, ◌∙◌, Bool-cases, inl, inr,
}
use rfi.Common.Lists.{mem}
use rfi.Common.Sorting.{sorted_set}
use rfi.Common.Text.{join}
use rfi.Workspace.State.{Payload, Material, JournalEvent, Workspace, WorkspaceError, Result, raise}
use rfi.Workspace.Verify.{check_partials, raw_of, verify}
use rfi.Workspace.Journal.{Stamp, append}
use rfi.Workspace.Append.{IsValid, Checks, Checks-of_valid, IsValid-of_Checks}

-- `target.relative_to(self.root).as_posix()` of each
unfoldable pub quarantined : List String → List String
unfolding join
quarantined [] = []
quarantined (x ∷ xs) = join "quarantine/" x ∷ quarantined xs

-- the files of a folder after others were moved into it, over what had their names
unfoldable pub moved : List String → List String → List String
moved [] files = files
moved (x ∷ xs) files = let rest = moved xs files in if mem x rest then rest else x ∷ rest

-- `recover_partial_writes`
unfoldable pub recover_partial_writes : Workspace → List String × Workspace
unfolding sorted_set quarantined moved
recover_partial_writes ws =
    let found = sorted_set ws.partials in
    (quarantined found, record ws { partials = []; quarantine = moved found ws.quarantine })

module _ (digest : Material → String) where
  -- `_append` that stops between the write of the partial file and its rename
  unfoldable pub append_partial : String → Workspace → Result JournalEvent × Workspace
  unfolding verify
  append_partial partial ws =
      if (verify digest ws).valid
      then (raise WorkspaceError.partial_write, record ws { partials = partial ∷ ws.partials })
      else (raise WorkspaceError.corrupt_journal, ws)

  not_valid :
      (ws : Workspace)
      → is_empty (check_partials ws.partials) ≡ false
      → (verify digest ws).valid ≡ false
  not_valid ws h = elim (Bool-cases (verify digest ws).valid) [
    | inl v ↦ absurd (contradiction (sym h ∙ (Checks-of_valid digest ws v).partials))
    | inr e ↦ e
  ]
    where
      contradiction : false ≡ true → ⊥
      contradiction e = cc

  -- After an append to a journal that verifies was cut off before the rename, the journal does not
  -- verify and every append is refused; `recover_partial_writes` then makes it verify again, with
  -- the events that it had before the append.
  pub recover_partial_writes-IsValid :
      (partial : String) (ws : Workspace)
      → IsValid digest ws
      → let cut = (append_partial partial ws).1 in
        ((verify digest cut).valid ≡ false)
        × ((stamp : Stamp) (k : String) (payload : Payload)
            → append digest stamp k payload cut ≡ (raise WorkspaceError.corrupt_journal, cut))
        × IsValid digest (recover_partial_writes cut).1
        × (raw_of (recover_partial_writes cut).1.journal ≡ raw_of ws.journal)
  unfolding append_partial recover_partial_writes append
  recover_partial_writes-IsValid partial ws valid =
      let h = Checks-of_valid digest ws valid in
      let cut : Workspace = record ws { partials = partial ∷ ws.partials } in
      let refused = not_valid cut refl in
      let recovered : Checks digest (recover_partial_writes cut).1 = record {
        metadata = h.metadata;
        partials = refl;
        readable_files = h.readable_files;
        chain = h.chain;
        exports = h.exports;
      } in
      rw (valid, append_partial)
        (
          refused,
          λ stamp k payload. rw (refused, append) refl,
          IsValid-of_Checks digest (recover_partial_writes cut).1 recovered,
          refl,
        )
