-- ===== src/Services/Tests.antt =====
-- The embedding service on a concrete client, and a key of the object store.
use ai_lead_qualifier.Prelude.{String, ◌≡◌, refl, [], ◌∷◌}
use ai_lead_qualifier.Float.{fixed_float}
use ai_lead_qualifier.Agents.Fixtures.{settings, embeddings}
use ai_lead_qualifier.Core.Exceptions.{ok}
use ai_lead_qualifier.Services.Embeddings.{aembed_query, aembed_documents}
use ai_lead_qualifier.Services.Storage.{is_safe}
use ai_lead_qualifier.Services.Storage.Keys.{make_object_key-injective}

query_vector : aembed_query settings embeddings "acme" "logo" ≡ ok (1 ∷ 2 ∷ [])
unfolding aembed_query
query_vector = refl

batch_vectors : aembed_documents settings embeddings "acme" ("logo" ∷ []) ≡ ok ((1 ∷ 2 ∷ []) ∷ [])
unfolding aembed_documents
batch_vectors = refl

abbrev acme : String
acme = "acme"

make_object_key-injective_example : acme ≡ acme
unfolding is_safe
make_object_key-injective_example =
    make_object_key-injective acme acme "0f" "0f" ".csv" ".csv" refl refl refl refl refl refl refl
      refl refl
