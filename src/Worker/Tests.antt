-- ===== src/Worker/Tests.antt =====
-- The embedding of one item is renewed, by itself and after an update.
use ai_lead_qualifier.Prelude.{List, none, true, any, str_eq, ◌⊎◌, some, [], ◌∷◌, ◌≡◌, refl}
use ai_lead_qualifier.Float.{Fixed, fixed_float}
use ai_lead_qualifier.Core.Text.{show}
use ai_lead_qualifier.Core.Exceptions.{ok}
use ai_lead_qualifier.Agents.Fixtures.{settings, embeddings}
use ai_lead_qualifier.Services.Embeddings.{aembed_documents}
use ai_lead_qualifier.Ingestion.Fixtures.{pydantic, json}
use ai_lead_qualifier.Api.Catalogue.{
  StoredRow, Store, CatalogueItemPatch, chk_hybrid_pricing_logic, fetch_item,
}
use ai_lead_qualifier.Api.Catalogue.Constraints.{is_priced, IsTable, own}
use ai_lead_qualifier.Api.Catalogue.Editing.{Calls, patch_catalogue_item}
use ai_lead_qualifier.Worker.History.{patched, embedded, History, start, call, History-IsTable}
use ai_lead_qualifier.Worker.{TaskCalls, update_embedding_task}
use ai_lead_qualifier.Worker.Embedding.{IsEmbedded, update_embedding_task-IsEmbedded}

abbrev logo : StoredRow Fixed
logo = record {
  id = "1";
  row = record {
    tenant_id = "acme";
    service = "Logo";
    price = some 500000;
    price_type = "FIXED";
    description = "";
    embedding = [];
    metadata = [];
  };
}

abbrev calls : TaskCalls Fixed
calls = record {
  json = json;
  pydantic = pydantic;
  repr = show;
  embeddings = embeddings;
  parse_uuid = λ id. ok id;
  execute = ok tt;
}

abbrev with_vector : StoredRow Fixed
with_vector = record logo { row = record logo.row { embedding = 1 ∷ 2 ∷ [] } }

updated :
    update_embedding_task settings calls "1" "acme" (logo ∷ []) (logo ∷ [])
    ≡ ok (with_vector ∷ [], "updated")
unfolding update_embedding_task aembed_documents
updated = refl

update_embedding_task-IsEmbedded_example :
    IsEmbedded settings calls "acme" (logo ∷ []) (with_vector ∷ []) "updated"
update_embedding_task-IsEmbedded_example =
    update_embedding_task-IsEmbedded settings calls "1" "acme" (logo ∷ []) (with_vector ∷ [])
      "updated" updated

abbrev foreign : StoredRow Fixed
foreign = record {
  id = "2";
  row = record logo.row { tenant_id = "other"; price = none; price_type = "VARIABLE" };
}

abbrev store : Store Fixed
store = record { items = logo ∷ foreign ∷ []; audit_log = []; jobs = [] }

store-IsTable : IsTable store.items
unfolding is_priced
store-IsTable = record {
  ids = (refl, (refl, tt));
  keys = (refl, (refl, tt));
  priced = (refl, (refl, tt));
}

abbrev patch_calls : Calls
patch_calls = record { parse_uuid = λ id. ok id; commit = ok tt; enqueue_job = ok tt }

abbrev renamed : CatalogueItemPatch Fixed
renamed = record {
  service = some "Logo e marchio";
  price = none;
  price_type = none;
  description = none;
}

abbrev edited : Store Fixed
edited = (patch_catalogue_item show patch_calls "1" renamed "acme" store.items store).0

re_embedded :
    (items : List (StoredRow Fixed)) × (update_embedding_task settings calls "1" "acme" edited.items
        edited.items
      ≡ ok (items, "updated"))
unfolding update_embedding_task aembed_documents patch_catalogue_item fetch_item
    chk_hybrid_pricing_logic
re_embedded = (_, refl)

history :
    History settings show store ("acme" ∷ "acme" ∷ []) (record edited { items = re_embedded.0 })
history =
    call (call start (patched patch_calls "1" renamed store.items))
      (embedded calls "1" "updated" edited.items re_embedded.0 re_embedded.1)

History-IsTable_example :
    IsTable re_embedded.0
    × ((any (λ t. str_eq t "other") ("acme" ∷ "acme" ∷ []) ≡ true)
        ⊎ (own "other" re_embedded.0 ≡ own "other" store.items))
History-IsTable_example = History-IsTable settings show "other" store-IsTable history
