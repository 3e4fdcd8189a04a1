-- ===== src/Database/Documents/Search.antt =====
-- What `similarity_search` finds in the table catalogue_items.
use mathlib.Core.Path.{subst}
use ai_lead_qualifier.Prelude.{
  ℕ, ◌<◌, ◌⊎◌, ltb, String, true, false, ◌≡◌, refl, sym, ◌∙◌, ap, inl, inr, Option, none, some,
  List, [], ◌∷◌, arith, All, take, take_all, length, Memᴰ, Permᴰ, perm_symm, Memᴰ-take, Memᴰ-Permᴰ,
  length-Permᴰ, Bool-cases,
}
use ai_lead_qualifier.Float.{Float, float_lt, ◌≼◌}
use ai_lead_qualifier.Core.Exceptions.{ok, ok-injective}
use ai_lead_qualifier.Core.Config.{Settings}
use ai_lead_qualifier.Database.Catalogue.{Row, Table}
use ai_lead_qualifier.Database.Catalogue.Isolation.{own}
use ai_lead_qualifier.Database.Documents.Selecting.{
  IsSelected, select_from-IsSelected, select_from-complete, length-select_from,
}
use ai_lead_qualifier.Database.Documents.{
  Match, Document, result_limit, is_beyond, search_threshold, to_document, to_documents, to_match,
  select_from, select_matches, similarity_search,
}

module _ {W : Type 0} ⦃fl : Float W⦄ (distance : List W → List W → W) where
  -- A row of the table that the tenant owns, not beyond a positive `max_distance`.
  pub record IsCandidate (table : Table W) (v : List W) (tenant_id : String)
      (max_distance : Option W) (row : Row W) : Type 0 where
    pub stored : Memᴰ row table
    pub owner : row.tenant_id ≡ tenant_id
    pub near :
        (t : W)
        → max_distance ≡ some t
        → float_lt (fl.literal 0) t ≡ true
        → distance row.embedding v ≼ t

  -- The document is that of a candidate.
  pub record IsFound (table : Table W) (v : List W) (tenant_id : String) (max_distance : Option W)
      (d : Document W) : Type 0 where
    pub row : Row W
    pub candidate : IsCandidate table v tenant_id max_distance row
    pub service : d.metadata.service ≡ row.service
    pub price : d.metadata.price ≡ row.price
    pub price_type : d.metadata.price_type ≡ row.price_type
    pub far : d.metadata.distance ≡ distance row.embedding v
    pub tenant : d.metadata.tenant_id ≡ tenant_id

  -- The two tests of the threshold, and what they say.
  is_beyond-near :
      (max_distance : Option W) (d t : W)
      → is_beyond (search_threshold max_distance) d ≡ false
      → max_distance ≡ some t
      → float_lt (fl.literal 0) t ≡ true
      → d ≼ t
  is_beyond-near max_distance d t h e positive =
      let b : is_beyond (search_threshold (some t)) d ≡ false = rw e at h in ground arith

  near-is_beyond :
      (max_distance : Option W) (d : W)
      → ((t : W) → max_distance ≡ some t → float_lt (fl.literal 0) t ≡ true → d ≼ t)
      → is_beyond (search_threshold max_distance) d ≡ false
  near-is_beyond none d h = refl
  near-is_beyond (some t) d h = elim (Bool-cases (float_lt (fl.literal 0) t)) [
    | inl positive ↦ let p = h t refl positive in rw positive (ground arith)
    | inr zero_or_less ↦ rw zero_or_less refl
  ]

  module _ (table : Table W) (v : List W) (tenant_id : String) (max_distance : Option W) where
    to_documents-IsFound :
        (ms : List (Match W))
        → ((m : Match W) → Memᴰ m ms → IsSelected distance table v tenant_id m)
        → All
            (IsFound table v tenant_id max_distance)
            (to_documents (search_threshold max_distance) tenant_id ms)
    unfolding to_documents to_document IsSelected
    to_documents-IsFound [] h = tt
    to_documents-IsFound (m ∷ ms) h =
        let later = to_documents-IsFound ms (λ n i. h n (Memᴰ.tail i)) in
        elim (Bool-cases (is_beyond (search_threshold max_distance) m.distance)) [
          | inl beyond ↦ rw beyond later
          | inr within ↦
              let (row, stored, owner, e) = h m (Memᴰ.head refl) in
              let near : is_beyond (search_threshold max_distance) (distance row.embedding v)
                  ≡ false =
                ap (λ n. is_beyond (search_threshold max_distance) n.distance) (sym e) ∙ within in
              let found : IsFound table v tenant_id max_distance (to_document tenant_id m) =
                record {
                  row = row;
                  candidate = record {
                    stored = stored;
                    owner = owner;
                    near = λ t. is_beyond-near max_distance (distance row.embedding v) t near;
                  };
                  service = ap (λ n. n.service) e;
                  price = ap (λ n. n.price) e;
                  price_type = ap (λ n. n.price_type) e;
                  far = ap (λ n. n.distance) e;
                  tenant = refl;
                } in
              rw within (found, later)
        ]

    to_documents-complete :
        (row : Row W) (ms : List (Match W))
        → IsCandidate table v tenant_id max_distance row
        → Memᴰ (to_match distance v row) ms
        → Memᴰ
            (to_document tenant_id (to_match distance v row))
            (to_documents (search_threshold max_distance) tenant_id ms)
    unfolding to_documents
    to_documents-complete row [] c i = elim i [ ]
    to_documents-complete row (m ∷ ms) c (Memᴰ.head e) =
        let within : is_beyond (search_threshold max_distance) m.distance ≡ false =
          ap (λ n. is_beyond (search_threshold max_distance) n.distance) (sym e)
          ∙ near-is_beyond max_distance (distance row.embedding v) c.near in
        rw within (Memᴰ.head (ap (to_document tenant_id) e))
    to_documents-complete row (m ∷ ms) c (Memᴰ.tail i) =
        let later = to_documents-complete row ms c i in
        elim (Bool-cases (is_beyond (search_threshold max_distance) m.distance)) [
          | inl beyond ↦ rw beyond later
          | inr within ↦ rw within (Memᴰ.tail later)
        ]

    -- Every candidate has its document.
    abbrev pub IsComplete : List (Document W) → Type 0
    IsComplete docs =
        (row : Row W)
        → IsCandidate table v tenant_id max_distance row
        → Memᴰ (to_document tenant_id (to_match distance v row)) docs

    pub similarity_search-IsFound :
        (order_by_distance : List (Match W) → List (Match W))
        → ((ms : List (Match W)) → Permᴰ (order_by_distance ms) ms)
        → (settings : Settings W) (n_results : Option ℕ) (docs : List (Document W))
        → similarity_search settings
            (select_matches distance order_by_distance table)
            v
            tenant_id
            n_results
            max_distance
          ≡ ok docs
        → All (IsFound table v tenant_id max_distance) docs
          × ((result_limit n_results settings.pgvector_n_results < length (own tenant_id table))
              ⊎ IsComplete docs)
    unfolding similarity_search select_matches
    similarity_search-IsFound order_by_distance sorts settings n_results docs h =
        let limit = result_limit n_results settings.pgvector_n_results in
        let ms = select_from distance v tenant_id table in
        let taken = take limit (order_by_distance ms) in
        let e : to_documents (search_threshold max_distance) tenant_id taken ≡ docs =
          ok-injective h in
        (
          subst (All (IsFound table v tenant_id max_distance)) e (
              to_documents-IsFound taken λ m i.
                select_from-IsSelected distance table v tenant_id m
                  (Memᴰ-Permᴰ (sorts ms) (Memᴰ-take limit (order_by_distance ms) i))),
          elim (Bool-cases (ltb limit (length (own tenant_id table)))) [
            | inl more ↦ inl (ground arith)
            | inr fits ↦
                let all : take limit (order_by_distance ms) ≡ order_by_distance ms =
                  take_all limit (order_by_distance ms) (
                    ground (
                      arith,
                      length-Permᴰ (sorts ms),
                      length-select_from distance table v tenant_id,
                    )) in
                inr λ row c. subst (Memᴰ (to_document tenant_id (to_match distance v row))) e (
                  to_documents-complete row taken c (
                    subst (Memᴰ (to_match distance v row)) (sym all) (
                      Memᴰ-Permᴰ (perm_symm (sorts ms))
                        (select_from-complete distance table v tenant_id row c.stored c.owner))))
          ],
        )
