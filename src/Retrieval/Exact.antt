-- ===== src/Retrieval/Exact.antt =====
-- What the loop over a result's references in retrieval/evidence.py gathers.
use rfi.Common.{
  ℕ, ◌+◌, ◌-◌, ◌≤◌, String, ◌≡◌, refl, sym, ap, ◌∙◌, true, false, List, [], ◌∷◌, ◌++◌, ◌==◌, ◌||◌,
  arith, eq_iff, Bool-cases, inl, inr,
}
use mathlib.Core.Path.{subst}
use rfi.Common.Lists.{length, drop, length-take, length-drop, All, All-append}
use rfi.Common.Errors.{Attempt, ok, raise, ◌>>=◌, bind_ok, after_check, ok_injective}
use rfi.Common.Assoc.{Dict}
use rfi.Common.Text.{join}
use rfi.Retrieval.Contracts.{ProvenanceReference, SourceObject, ContextExcerpt}
use rfi.Retrieval.Ranked.{Sources, Key, key_of, same_key, has_key}
use rfi.Retrieval.Assemble.{
  slice, min, is_asserted, rename_error, read_cached, excerpt_of, context, Collected, pend, collect,
  excerpts,
}

rename_ok {ℓ} :
    {A : Type ℓ} (text : String) (m : Attempt A) (a : A) → rename_error text m ≡ ok a → m ≡ ok a
rename_ok text (ok b) a h = h
rename_ok text (raise e) a h = cc

length-slice :
    (start stop : ℕ) (content : List ℕ)
    → stop ≤ length content
    → length (slice start stop content) ≡ stop - start
length-slice start stop content h =
    length-take (stop - start) (drop start content) (omega (arith, length-drop start content))

module _ (env : Sources) (radius : ℕ) where
  -- An excerpt was cut around a span of an artifact that was read and whose digest is its identity,
  -- the span has the digest that the reference asserts, and the source object is where it says.
  pub record IsExact (excerpt : ContextExcerpt) : Type 0 where
    pub content : List ℕ
    pub object : SourceObject
    pub identified : join "artifact-" (env.sha256 content) ≡ excerpt.provenance.artifact_id
    pub exact :
        env.sha256 (slice excerpt.provenance.byte_start excerpt.provenance.byte_end content)
        ≡ excerpt.provenance.content_sha256
    pub found : env.get excerpt.provenance.source_object_id ≡ ok object
    pub asserted : is_asserted object excerpt.provenance ≡ true
    pub around : excerpt ≡ (excerpt_of env excerpt.provenance radius content).0

  context-IsExact :
      (r : ProvenanceReference) (cache : Dict (List ℕ))
      (read : (ContextExcerpt × ℕ) × Dict (List ℕ))
      → context env r radius cache ≡ ok read
      → IsExact read.0.0
        × (read.0.0.provenance ≡ r)
        × (read.0.1 ≡ read.0.0.context_byte_end - read.0.0.context_byte_start)
  unfolding context excerpt_of
  context-IsExact r cache read h =
      let (object, got, h1) =
        bind_ok
          (rename_error (join "provenance source object is absent: " r.source_object_id)
            (env.get r.source_object_id))
          _ read h in
      let (asserted, h2) =
        after_check (is_asserted object r)
          (join "provenance inconsistency for source object: " r.source_object_id) _ read h1 in
      let (file, opened, h3) = bind_ok (read_cached env r.artifact_id cache) _ read h2 in
      let (identified, h4) =
        after_check (join "artifact-" (env.sha256 file.0) == r.artifact_id)
          (join "immutable artifact identity mismatch: " r.artifact_id) _ read h3 in
      let (exact, h5) =
        after_check (env.sha256 (slice r.byte_start r.byte_end file.0) == r.content_sha256)
          (join "exact provenance content mismatch: " r.source_object_id) _ read h4 in
      let whole : (excerpt_of env r radius file.0, file.1) ≡ read = ok_injective h5 in
      let first : IsExact (excerpt_of env r radius file.0).0 = record {
        content = file.0;
        object = object;
        identified = (eq_iff _ _).0 identified;
        exact = (eq_iff _ _).0 exact;
        found =
            rename_ok (join "provenance source object is absent: " r.source_object_id)
              (env.get r.source_object_id) object got;
        asserted = asserted;
        around = refl;
      } in
      let sized =
        length-slice (r.byte_start - radius) (min (length file.0) (r.byte_end + radius)) file.0
          (ground arith) in
      subst
        (λ x.
          IsExact x.0.0
          × (x.0.0.provenance ≡ r)
          × (x.0.1 ≡ x.0.0.context_byte_end - x.0.0.context_byte_start))
        whole (first, refl, sized)

-- the bytes of a context
abbrev pub size_of : ContextExcerpt → ℕ
size_of c = c.context_byte_end - c.context_byte_start

abbrev pub total_size : List (Key × ContextExcerpt) → ℕ
total_size [] = 0
total_size ((_, c) ∷ rest) = size_of c + total_size rest

pub total_size-append :
    (xs ys : List (Key × ContextExcerpt)) → total_size (xs ++ ys) ≡ total_size xs + total_size ys
total_size-append [] ys = omega arith
total_size-append (x ∷ xs) ys = omega (arith, total_size-append xs ys)

pub has_key-append {ℓ} :
    {A : Type ℓ} (k : Key) (xs ys : List (Key × A))
    → has_key k (xs ++ ys) ≡ (has_key k xs || has_key k ys)
has_key-append k [] ys = refl
has_key-append k ((j, _) ∷ xs) ys = ground (arith, has_key-append k xs ys)

pub has_key-excerpts :
    (k : Key) (ps : List (Key × (ContextExcerpt × ℕ))) → has_key k (excerpts ps) ≡ has_key k ps
unfolding excerpts
has_key-excerpts k [] = refl
has_key-excerpts k ((j, _) ∷ ps) = ground (arith, has_key-excerpts k ps)

excerpts-append :
    (ps qs : List (Key × (ContextExcerpt × ℕ))) → excerpts (ps ++ qs) ≡ excerpts ps ++ excerpts qs
unfolding excerpts
excerpts-append [] qs = refl
excerpts-append ((k, (e, _)) ∷ ps) qs = ap (λ xs. (k, e) ∷ xs) (excerpts-append ps qs)

pub same_key_refl : (k : Key) → same_key k k ≡ true
same_key_refl k = ground (
  arith,
  (eq_iff k.artifact_id k.artifact_id).1 refl,
  (eq_iff k.content_sha256 k.content_sha256).1 refl,
)

-- `P` holds of the references that are gathered.
module _ (env : Sources) (radius : ℕ) (P : ProvenanceReference → Type 0) where
  abbrev pub IsEntry : Key × ContextExcerpt → Type 0
  IsEntry (k, e) = (k ≡ key_of e.provenance) × P e.provenance × IsExact env radius e

  pub record IsGathered (c : Collected) : Type 0 where
    pub exact : All IsEntry (excerpts c.pending)
    pub sized : c.required ≡ total_size (excerpts c.pending)

  -- the reference's context is there or pending
  abbrev pub IsCovered : List (Key × ContextExcerpt) → Collected → ProvenanceReference → Type 0
  IsCovered contexts c r = (has_key (key_of r) contexts || has_key (key_of r) c.pending) ≡ true

  pend-IsGathered :
      (r : ProvenanceReference) (c : Collected) (read : (ContextExcerpt × ℕ) × Dict (List ℕ))
      → IsGathered c
      → P r
      → context env r radius c.cache ≡ ok read
      → IsGathered (pend r c read)
  unfolding excerpts
  pend-IsGathered r c read h p e =
      let (exact, is, sized) = context-IsExact env radius r c.cache read e in
      record {
        exact = subst (All IsEntry) (sym (excerpts-append c.pending _)) (
            All-append IsEntry (excerpts c.pending) _ h.exact
              ((sym (ap key_of is), subst P (sym is) p, exact), tt));
        sized =
            let more =
              ap total_size (excerpts-append c.pending ((key_of r, (read.0.0, read.0.1)) ∷ [])) in
            let split =
              total_size-append (excerpts c.pending)
                (excerpts ((key_of r, (read.0.0, read.0.1)) ∷ [])) in
            omega (arith, h.sized, sized, more, split);
      }

  collect-there :
      (contexts : List (Key × ContextExcerpt)) (r : ProvenanceReference)
      (rs : List ProvenanceReference) (c : Collected)
      → IsCovered contexts c r
      → collect env radius contexts (r ∷ rs) c ≡ collect env radius contexts rs c
  unfolding collect
  collect-there contexts r rs c h = rw (h, collect) refl

  collect-new :
      (contexts : List (Key × ContextExcerpt)) (r : ProvenanceReference)
      (rs : List ProvenanceReference) (c : Collected)
      → (has_key (key_of r) contexts || has_key (key_of r) c.pending) ≡ false
      → collect env radius contexts (r ∷ rs) c
        ≡ (do read ← context env r radius c.cache; collect env radius contexts rs (pend r c read))
  unfolding collect
  collect-new contexts r rs c h = rw (h, collect) refl

  pend-grows :
      (r : ProvenanceReference) (c : Collected) (read : (ContextExcerpt × ℕ) × Dict (List ℕ))
      → (has_key (key_of r) (pend r c read).pending ≡ true)
        × ((k : Key) → has_key k c.pending ≡ true → has_key k (pend r c read).pending ≡ true)
  pend-grows r c read =
      let entry = (key_of r, (read.0.0, read.0.1)) ∷ [] in
      (
        has_key-append (key_of r) c.pending entry ∙ ground (arith, same_key_refl (key_of r)),
        λ k m. has_key-append k c.pending entry ∙ ground (arith, m),
      )

  -- What the loop gathers is exact and counted, and it covers the references.
  pub collect_lem :
      (contexts : List (Key × ContextExcerpt)) (refs : List ProvenanceReference) (c c' : Collected)
      → IsGathered c
      → All P refs
      → collect env radius contexts refs c ≡ ok c'
      → IsGathered c'
        × All (IsCovered contexts c') refs
        × ((k : Key) → has_key k c.pending ≡ true → has_key k c'.pending ≡ true)
  unfolding collect
  collect_lem contexts [] c c' h p e =
      let same = ok_injective e in
      (
        subst IsGathered same h,
        tt,
        λ k m. subst (λ (x : Collected). has_key k x.pending ≡ true) same m,
      )
  collect_lem contexts (r ∷ rs) c c' h p e =
      elim (Bool-cases (has_key (key_of r) contexts || has_key (key_of r) c.pending)) [
        | inl there ↦
            let (gathered, covered, grown) =
              collect_lem contexts rs c c' h p.1 (sym (collect-there contexts r rs c there) ∙ e) in
            (gathered, (ground (arith, there, grown (key_of r)), covered), grown)
        | inr new ↦
            let (read, got, rest) =
              bind_ok (context env r radius c.cache)
                (λ x. collect env radius contexts rs (pend r c x)) c'
                (sym (collect-new contexts r rs c new) ∙ e) in
            let (gathered, covered, grown) =
              collect_lem contexts rs (pend r c read) c' (pend-IsGathered r c read h p.0 got) p.1
                rest in
            let (own, more) = pend-grows r c read in
            (gathered, (ground (arith, grown (key_of r) own), covered), λ k m. grown k (more k m))
      ]
