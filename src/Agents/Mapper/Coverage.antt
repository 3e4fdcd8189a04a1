-- ===== src/Agents/Mapper/Coverage.antt =====
-- What a mapping that succeeds says of each extracted service, in order.
use mathlib.Core.Path.{subst, subst₂}
use ai_lead_qualifier.Prelude.{
  Permᴰ, String, ◌≡◌, refl, ◌≤◌, sym, inl, inr, ◌⊎◌, Option, none, some, List, [], ◌∷◌, ◌++◌, arith,
  All, append_assoc, append-nil, length, is_empty, true, Bool-cases,
}
use ai_lead_qualifier.Float.{Float, FloatLaws}
use ai_lead_qualifier.Core.Exceptions.{Answer, ok, raised, ok-injective, Answer-cases}
use ai_lead_qualifier.Core.Config.{Settings}
use ai_lead_qualifier.Database.Catalogue.{Table}
use ai_lead_qualifier.Database.Documents.{Document, Match, Fetch, select_matches}
use ai_lead_qualifier.Database.Documents.Search.{IsFound, similarity_search-IsFound}
use ai_lead_qualifier.Services.Embeddings.{EmbeddingClient, aembed_query}
use ai_lead_qualifier.Agents.State.{AgentState, MappedService}
use ai_lead_qualifier.Agents.Mapper.{
  Mapping, mapped, failed, distance_threshold, search_distance, relevant, best_match, to_mapped,
  add_match, embedding_failure, after_query, search_failure, search_catalogue, map_query, map_loop,
  mapper_node, with_mapping,
}
use ai_lead_qualifier.Agents.Mapper.Matching.{IsChoice, best_match-relevant}

module _ {W : Type 0} ⦃fl : Float W⦄ (settings : Settings W) (svc : EmbeddingClient W)
    (fetch : Fetch W) (tenant_id : String) (IsOwned : List W → Document W → Type 0) where
  -- The search for `q` ran, and `o` is the right choice among the documents that it returned.
  pub record Searched (q : String) (o : Option (Document W)) : Type 0 where
    pub embedding : List W
    pub docs : List (Document W)
    pub embedded : aembed_query settings svc tenant_id q ≡ ok embedding
    pub returned : search_catalogue settings svc fetch tenant_id embedding ≡ ok docs
    pub choice : IsChoice (IsOwned embedding) (distance_threshold settings) docs o

  -- Each query has its best match in both lists, at the same place, or is left out.
  pub data Covers : List String → List (MappedService W) → List (Document W) → Type 0 where
    nothing : Covers [] [] []
    skipped :
        {qs : List String} {ms : List (MappedService W)} {ds : List (Document W)} (q : String)
        → Searched q none
        → Covers qs ms ds
        → Covers (q ∷ qs) ms ds
    matched :
        {qs : List String} {ms : List (MappedService W)} {ds : List (Document W)} (q : String)
        (d : Document W)
        → Searched q (some d)
        → Covers qs ms ds
        → Covers (q ∷ qs) (to_mapped q d ∷ ms) (d ∷ ds)

  pub Covers-length :
      {qs : List String} {ms : List (MappedService W)} {ds : List (Document W)}
      → Covers qs ms ds
      → (length ms ≤ length qs) × (length ms ≡ length ds)
  Covers-length nothing = omega arith
  Covers-length (skipped q s c) = let h = Covers-length c in omega arith
  Covers-length (matched q d s c) = let h = Covers-length c in omega arith

  -- A body of the loop that went through, as its parts.
  map_query_parts :
      (q : String) (ms ms' : List (MappedService W)) (ds ds' : List (Document W))
      → map_query settings svc fetch tenant_id q ms ds ≡ ok (mapped ms' ds')
      → (v : List W) × (docs : List (Document W)) × (aembed_query settings svc tenant_id q ≡ ok v)
        × (search_catalogue settings svc fetch tenant_id v ≡ ok docs)
        × (add_match q (best_match (relevant (distance_threshold settings) docs)) ms ds
            ≡ mapped ms' ds')
  unfolding map_query embedding_failure search_failure
  map_query_parts q ms ms' ds ds' h = elim (Answer-cases (aembed_query settings svc tenant_id q)) [
    | inr (exc, e) ↦ ground arith
    | inl (v, e) ↦ elim (Answer-cases (search_catalogue settings svc fetch tenant_id v)) [
      | inr (exc, e') ↦ ground arith
      | inl (docs, e') ↦ (v, docs, e, e', ground arith)
    ]
  ]

  -- What every document has that a search for an embedding returns.
  abbrev pub OwnsAll : Type 0
  OwnsAll =
      (v : List W) (docs : List (Document W))
      → search_catalogue settings svc fetch tenant_id v ≡ ok docs
      → All (IsOwned v) docs

  map_query-Searched :
      FloatLaws W
      → OwnsAll
      → (q : String) (ms ms' : List (MappedService W)) (ds ds' : List (Document W))
      → map_query settings svc fetch tenant_id q ms ds ≡ ok (mapped ms' ds')
      → (o : Option (Document W)) × Searched q o × (add_match q o ms ds ≡ mapped ms' ds')
  map_query-Searched laws owns q ms ms' ds ds' h =
      let (v, docs, e, e', added) = map_query_parts q ms ms' ds ds' h in
      let t = distance_threshold settings in
      (
        best_match (relevant t docs),
        record {
          embedding = v;
          docs = docs;
          embedded = e;
          returned = e';
          choice = best_match-relevant laws (IsOwned v) t docs (owns v docs e');
        },
        added,
      )

  -- The accumulators grow by what covers the queries.
  abbrev Grows :
      List String → List (MappedService W) → List (Document W) → Answer (Mapping W) → Type 0
  Grows qs ms ds (ok (mapped ms' ds')) =
      (ms₁ : List (MappedService W)) × (ds₁ : List (Document W)) × Covers qs ms₁ ds₁
      × (ms' ≡ ms ++ ms₁)
      × (ds' ≡ ds ++ ds₁)
  Grows qs ms ds _ = Unit

  Grows-cons :
      (q : String) (qs : List String) (ms ms₀ : List (MappedService W)) (ds ds₀ : List (Document W))
      (o : Option (Document W)) (r : Answer (Mapping W))
      → Searched q o
      → add_match q o ms ds ≡ mapped ms₀ ds₀
      → Grows qs ms₀ ds₀ r
      → Grows (q ∷ qs) ms ds r
  unfolding add_match
  Grows-cons q qs ms ms₀ ds ds₀ o (raised exc) s e g = tt
  Grows-cons q qs ms ms₀ ds ds₀ o (ok (failed detail)) s e g = tt
  Grows-cons q qs ms ms₀ ds ds₀ none (ok (mapped ms' ds')) s e (ms₁, ds₁, c, p, p') =
      (ms₁, ds₁, skipped q s c, ground arith, ground arith)
  Grows-cons q qs ms ms₀ ds ds₀ (some d) (ok (mapped ms' ds')) s e (ms₁, ds₁, c, p, p') = (
    to_mapped q d ∷ ms₁,
    d ∷ ds₁,
    matched q d s c,
    cc (p, e, append_assoc ms (to_mapped q d ∷ []) ms₁),
    cc (p', e, append_assoc ds (d ∷ []) ds₁),
  )

  after_query-Grows :
      FloatLaws W
      → OwnsAll
      → (q : String) (qs : List String) (ms : List (MappedService W)) (ds : List (Document W))
        (rest : List (MappedService W) → List (Document W) → Answer (Mapping W))
        (r : Answer (Mapping W))
      → map_query settings svc fetch tenant_id q ms ds ≡ r
      → ((ms₀ : List (MappedService W)) (ds₀ : List (Document W)) → Grows qs ms₀ ds₀ (rest ms₀ ds₀))
      → Grows (q ∷ qs) ms ds (after_query rest r)
  after_query-Grows laws owns q qs ms ds rest (raised exc) e g = tt
  after_query-Grows laws owns q qs ms ds rest (ok (failed detail)) e g = tt
  after_query-Grows laws owns q qs ms ds rest (ok (mapped ms₀ ds₀)) e g =
      let (o, s, added) = map_query-Searched laws owns q ms ms₀ ds ds₀ e in
      Grows-cons q qs ms ms₀ ds ds₀ o (rest ms₀ ds₀) s added (g ms₀ ds₀)

  map_loop-Grows :
      FloatLaws W
      → OwnsAll
      → (qs : List String) (ms : List (MappedService W)) (ds : List (Document W))
      → Grows qs ms ds (map_loop settings svc fetch tenant_id qs ms ds)
  unfolding map_loop
  map_loop-Grows laws owns [] ms ds = ([], [], nothing, sym (append-nil ms), sym (append-nil ds))
  map_loop-Grows laws owns (q ∷ qs) ms ds =
      after_query-Grows laws owns q qs ms ds (map_loop settings svc fetch tenant_id qs)
        (map_query settings svc fetch tenant_id q ms ds) refl (map_loop-Grows laws owns qs)

  -- A mapping that goes through covers the extracted services in order.
  pub map_loop-Covers :
      FloatLaws W
      → OwnsAll
      → (qs : List String) (ms : List (MappedService W)) (ds : List (Document W))
      → map_loop settings svc fetch tenant_id qs [] [] ≡ ok (mapped ms ds)
      → Covers qs ms ds
  map_loop-Covers laws owns qs ms ds h =
      let (ms₁, ds₁, c, p, p') : Grows qs [] [] (ok (mapped ms ds)) =
        subst (Grows qs [] []) h (map_loop-Grows laws owns qs [] []) in
      subst₂ (Covers qs) (sym p) (sym p') c

module _ {W : Type 0} ⦃fl : Float W⦄ (distance : List W → List W → W)
    (order_by_distance : List (Match W) → List (Match W)) (table : Table W) (settings : Settings W)
    (svc : EmbeddingClient W) where
  -- What the node writes on a table: a cover of the extracted services by documents of rows that the
  -- tenant owns, or empty lists with an `error_detail`.
  abbrev pub IsMapped : AgentState W → AgentState W → Type 0
  IsMapped s s' =
      Covers settings svc (select_matches distance order_by_distance table) s.lead.tenant_id
        (λ v. IsFound distance table v s.lead.tenant_id (search_distance settings))
        s.extracted_services s'.mapped_services s'.retrieved_docs
      ⊎ ((s'.mapped_services ≡ [])
          × (s'.retrieved_docs ≡ [])
          × ((detail : String) × (s'.error_detail ≡ some detail)))

module _ {W : Type 0} ⦃fl : Float W⦄ (laws : FloatLaws W) (distance : List W → List W → W)
    (order_by_distance : List (Match W) → List (Match W))
    (sorts : (ms : List (Match W)) → Permᴰ (order_by_distance ms) ms) (table : Table W)
    (settings : Settings W) (svc : EmbeddingClient W) where
  abbrev fetch : Fetch W
  fetch = select_matches distance order_by_distance table

  search_catalogue-IsFound :
      (tenant_id : String) (v : List W) (docs : List (Document W))
      → search_catalogue settings svc fetch tenant_id v ≡ ok docs
      → All (IsFound distance table v tenant_id (search_distance settings)) docs
  unfolding search_catalogue
  search_catalogue-IsFound tenant_id v docs e =
      (similarity_search-IsFound distance table v tenant_id (search_distance settings)
        order_by_distance sorts settings none docs e).0

  with_mapping-IsMapped :
      (s : AgentState W) (m : Mapping W)
      → map_loop settings svc fetch s.lead.tenant_id s.extracted_services [] [] ≡ ok m
      → IsMapped distance order_by_distance table settings svc s
          (with_mapping settings svc fetch s.lead.tenant_id s m)
  unfolding with_mapping
  with_mapping-IsMapped s (mapped ms ds) h = inl (
      map_loop-Covers settings svc fetch s.lead.tenant_id
        (λ v. IsFound distance table v s.lead.tenant_id (search_distance settings)) laws
        (search_catalogue-IsFound s.lead.tenant_id) s.extracted_services ms ds h)
  with_mapping-IsMapped s (failed detail) h = inr (refl, refl, (detail, refl))

  is_empty-nil : {A : Type 0} (xs : List A) → is_empty xs ≡ true → xs ≡ []
  is_empty-nil [] h = refl
  is_empty-nil (x ∷ xs) h = cc

  -- By the laws of the order of floats, which leave out NaN, and where the database's order rearranges
  -- the rows of the query: when the mapper returns on a table, its two lists cover the extracted
  -- services in order. Each service is left out because the search found nothing within the
  -- distance threshold, or stands in both lists at the same place with the nearest of all the
  -- documents that the search returned, which lies within the threshold and is that of a row of the
  -- table which the lead's tenant owns. Otherwise both lists are empty and `error_detail` is set.
  pub mapper_node-IsMapped :
      (s s' : AgentState W)
      → mapper_node settings svc fetch s ≡ ok s'
      → IsMapped distance order_by_distance table settings svc s s'
  unfolding mapper_node
  mapper_node-IsMapped s s' h =
      let P = IsMapped distance order_by_distance table settings svc s in
      elim (Bool-cases (is_empty s.extracted_services)) [
        | inl none_extracted ↦
            let e : record s { mapped_services = []; retrieved_docs = [] } ≡ s' =
              ok-injective (rw none_extracted at h) in
            subst P e (inl (rw (is_empty-nil _ none_extracted) nothing))
        | inr some_extracted ↦
            elim (Answer-cases
              (map_loop settings svc fetch s.lead.tenant_id s.extracted_services [] [])) [
                | inl (m, e) ↦
                    subst P (ok-injective (rw (some_extracted, e) at h))
                      (with_mapping-IsMapped s m e)
                | inr (x, e) ↦ ground arith
              ]
      ]
