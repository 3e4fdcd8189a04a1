-- ===== src/Lib.antt =====
-- AI Lead Qualifier: a model of the backend (backend/) and the theorems that make it correct.
--
-- The program takes a lead, a free text from a customer, and answers with a quote. The lead goes
-- through a graph of nodes over one shared state (backend/core/graph.py): the sanitizer masks
-- personal data, the extractor asks a language model for the services that the text requests, the
-- mapper looks each of them up in the tenant's catalogue by embedding distance, the evaluator
-- scores the result, and a router goes on to the calculator, back to the extractor, or suspends
-- the run for a human review. The calculator sums the prices and the delivery node hands the quote
-- over, with retries. A second graph (backend/ingestion/graph.py) fills the catalogue from a file
-- that the tenant uploads.
--
-- Which file models what:
--   Core/Exceptions    exceptions as values: a call returns `ok`, or `raised` with class and message.
--   Core/Text, Json    the Python string and JSON operations that the code uses.
--   Core/Config        backend/core/config.py, the settings that the modelled code reads.
--   Float              Python floats without NaN: a record of operations, with laws that are named
--                      hypotheses; Float/Decimal meets them with fixed-point numbers.
--   Database/Documents backend/database/vector_store.py: similarity_search, and its query on a table.
--   Database/Catalogue the same file's upsert_items and wipe_tenant on the table catalogue_items.
--   Services/Embeddings
--                      backend/services/embeddings.py: aembed_query and aembed_documents.
--   Agents/State       backend/core/state.py: LeadContext and AgentState, field by field.
--   Agents/Sanitizer, Extractor, Mapper, Evaluator, Calculator
--                      backend/agents/*.py: each node as a function of the state.
--   Agents/Delivery    backend/agents/delivery.py and backend/adapters/*.py.
--   Graph              backend/core/graph.py: `next` holds the edges and routers, `execute` the node of
--                      a superstep, `run` the engine's loop, `ainvoke` a whole run.
--   Ingestion/Items    backend/ingestion/models.py: ServiceItem and its validators.
--   Ingestion/State, Chunks, Normalizer, Nodes, Validator, Finalizer
--                      backend/ingestion/models.py and graph.py: the state, and the nodes that read a
--                      file, normalize it chunk by chunk, validate the items and write them.
--   Ingestion/Pipeline backend/ingestion/graph.py: the routers, a run (`ingest`) and its resumption.
--   Leads              backend/worker/tasks.py and backend/api/routes.py: submission, the task that
--                      runs a lead, polling, approval and the resumed run.
--   Services/Storage   backend/services/storage.py: the object keys and the calls of S3.
--   Database/Profiles  backend/database/profiles.py: the rows of tenant_profiles.
--   Database/Migration backend/scripts/migrate_profiles_to_db.py: the profiles of the JSON files.
--   Api/Auth           backend/api/dependencies.py, and get_token of backend/api/routes.py.
--   Api/Uploads, Tenants, Ingest
--                      backend/api/routes.py: upload_catalogue; the profile of a tenant and the wipe of
--                      its rows; the stream of an ingestion run and approve_ingestion.
--   Api/Catalogue      backend/api/catalogue_routes.py: Editing is patch_catalogue_item on the table
--                      with its constraints, the audit log and the queue; Listing is the paged list.
--   Api/Health         backend/main.py: the health check.
--   Worker             backend/worker/tasks.py: update_embedding_task and run_ingestion_task.
--                      Worker/History: updates of the catalogue and embedding tasks, interleaved.
--   Logging            backend/core/logging_setup.py: the processors and the log context.
-- The files below a component prove what they are named for, and the Tests files run the code on
-- concrete leads.
--
-- What lies outside the program is a parameter: the regular expressions, json, the language
-- models, the embedding client, the rows that Postgres returns, pgvector's distance and the
-- database's orderings, the HTTP client, Pydantic's coercions, the S3 client, the JWT library, the
-- JSONB column, the queue and the file readers. The records `World` of Graph and `Services` of
-- Ingestion/State give their answers in each superstep, so every interleaving of failures is one
-- choice of them. The calls that write log
-- events are left out. LangGraph's engine runs one node in each superstep and
-- raises GraphRecursionError after `recursion_limit` of them; `run` has that limit as its fuel,
-- and the first result below says how much is enough. A negative max_retry_count acts as 0.
-- `similarity_search` always sets the metadata keys that the nodes read, so the defaults of `.get`
-- for those keys never apply and are not modelled.
--
-- Where a handler reads a row and writes it later, as the PATCH and the embedding task do, the two
-- statements see tables of their own, so another transaction can come between them.
--
-- Not modelled: rate limits and response headers, the dependencies that fetch shared resources,
-- the configuration of logging and of the queue, checkpoint storage, schema migrations but for the
-- two constraints of catalogue_items, the other scripts, application wiring, the load test and the
-- frontend.
pub mod Prelude
pub mod Float
pub mod Core
pub mod Database
pub mod Services
pub mod Agents
pub mod Graph
pub mod Ingestion
pub mod Leads
pub mod Logging
pub mod Api
pub mod Worker
