-- ===== src/Retrieval/Tests.antt =====
-- Runs of the model of retrieval/evidence.py, and the theorems at a concrete response.
use rfi.Common.{◌+◌, ◌≤◌, ◌≡◌, refl, map}
use rfi.Common.Lists.{length, All}
use rfi.Common.Errors.{ok, raise}
use rfi.Common.Assoc.{lookup, assign}
use rfi.Common.Text.{join, decimal}
use rfi.Retrieval.Contracts.{ResultClass, SourceEvidenceResult, RetrievalResponse, EvidencePackage}
use rfi.Retrieval.Ranked.{source, derived, ranked_of, identities, identity, references}
use rfi.Retrieval.Assemble.{excerpt_of, context, collect, excerpts, include, omit, assemble_each}
use rfi.Retrieval.Package.{package_of, assemble}
use rfi.Retrieval.Sample.{env, response, assembled_mail}
use rfi.Retrieval.Bounded.{
  IsAccountedFor, context_bytes, assemble-bounded, IsGrounded, assemble-IsGrounded,
}

assembled : assemble env (response 4) ≡ ok assembled_mail
unfolding assemble identities identity ranked_of assemble_each package_of context excerpt_of collect
    references include omit join decimal lookup assign excerpts
assembled = refl

-- three bytes do not hold the context, so that both results are omitted
left_out : ((p : EvidencePackage) × (assemble env (response 3) ≡ ok p) × (length p.omissions ≡ 2))
unfolding assemble identities identity ranked_of assemble_each package_of context excerpt_of collect
    references include omit join decimal lookup assign excerpts
left_out = (_, refl, refl)

assemble-bounded_example :
    (assembled_mail.bytes_used ≤ assembled_mail.byte_budget)
    × (assembled_mail.byte_budget ≡ (response 4).trace.query.evidence_budget_bytes)
    × (assembled_mail.bytes_used ≡ context_bytes assembled_mail.contexts)
    × (length assembled_mail.source_evidence
          + (length assembled_mail.derived_knowledge + length assembled_mail.omissions)
        ≡ length (response 4).source_results + length (response 4).knowledge_results)
    × IsAccountedFor env (response 4) assembled_mail
assemble-bounded_example = assemble-bounded env (response 4) assembled_mail assembled

assemble-IsGrounded_example :
    All (λ r. IsGrounded env (response 4) assembled_mail (source r)) assembled_mail.source_evidence
    × All
        (λ r. IsGrounded env (response 4) assembled_mail (derived r))
        assembled_mail.derived_knowledge
assemble-IsGrounded_example = assemble-IsGrounded env (response 4) assembled_mail assembled

-- a source result that is labelled as derived knowledge
abbrev relabelled : SourceEvidenceResult → SourceEvidenceResult
relabelled r = record r { result_class = ResultClass.derived_knowledge }

abbrev mislabelled : RetrievalResponse
mislabelled = record (response 4) { source_results = map relabelled (response 4).source_results }

mislabelled_raises : assemble env mislabelled ≡ raise "AssertionError"
unfolding assemble identities identity
mislabelled_raises = refl
