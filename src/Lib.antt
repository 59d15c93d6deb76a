-- ===== src/Lib.antt =====
-- A model of the backend of Keel, a knowledge base with a chat over a workspace's documents, and
-- theorems about it.
--
-- The program. An HTTP request comes with an access token or an API key (backend/app/core/deps.py,
-- core/security.py, core/rate_limit.py), runs in one session over the database (core/database.py) and
-- calls a service (backend/app/services). Documents are queued by the document service, and the worker
-- (backend/ingestion) parses, tags, chunks, embeds and indexes them; a search reads the vector store
-- (backend/app/stores/vector_store.py) and the graph of entities, and assembles a context for the chat,
-- whose turns are stored. Files come in by the ingestion endpoints (backend/app/api/ingest.py) and from
-- Google Drive by the connectors, and are kept in the object storage (stores/storage.py).
--
-- The files.
--   Prelude: Booleans, lists, text as code points, tables of rows by key.
--   Core.Errors, Core.Settings: core/errors.py, core/config.py. An exception is a value of `Exc`.
--   Core.Session: core/database.py. `Run` is code over a state that returns or raises, `Exec` is such
--     code over a session, which keeps what is committed beside what it works on; `get_db` commits at
--     the end of a request that returns and rolls back one that raises.
--   Core.Security, Core.Principal: core/security.py, core/deps.py, function by function.
--   Models: backend/app/models, one record for a table.
--   Auth: services/auth_service.py. `start_session` is the common end of `login` and `refresh`.
--   Users, ApiKeys: services/user_service.py, services/apikey_service.py.
--   RateLimit: core/rate_limit.py; `serve` is a run of calls of one key.
--   Documents: services/document_service.py, over a world of a session, files and sent messages.
--   Drive: connectors/google_drive.py, over `Libraries`.
--   Connectors: services/connector_service.py, on the same world; `sync_files` is the loop of `sync`,
--     `sync_file` its body, `best_effort` its `except` clause, `serve_all` a run of requests.
--   Chat: services/chat_service.py. `persist` is `_persist`; `gather` is what `stream_answer` and
--     `answer_once` do before they call the model, `closing` the end of a stream.
--   Storage: stores/storage.py. `complete_local` and `complete_s3` are `complete_multipart` of the two
--     backends; Storage.Refinement has the objects as a function from paths to contents.
--   Documents.Env.takes says which rows the database takes; in Connectors.Sync, `Open` is the loop's
--     world with whether its session is still usable after a row that was refused.
--   Ingest: api/ingest.py and common.py; `store` is what comes before the check of the size.
--   Ner, Graph: services/ner.py, stores/graph_store.py; an upsert is the list of its statements.
--   Dashboard: services/dashboard_service.py.
--   WorkspaceSettings: services/settings_service.py.
--   Worker: backend/ingestion/worker_flow.py and tasks.py. The steps of `run` are functions of their
--     own (`fetch`, `parse`, `tag`, `chunk`, `embed_rows`, `map_graph`, `finish`), composed by
--     `pipeline`; `handle` is its `except` clauses, `ingest_document` the task, `deliver` its
--     deliveries one after the other.
--   Parsing, Chunking: services/parsing.py, services/chunking.py.
--   VectorStore, Retrieval: stores/vector_store.py, services/retrieval_service.py.
--   Gateway, Gateway.Stream, Gateway.Bucket: services/llm_gateway.py, usage.py and tagging_service.py.
--   Fixtures and the modules named Tests: concrete data and runs.
--
-- Parameters. Code of other projects is a field of a record: `Crypto` (bcrypt, SHA-256, JWT, random
-- tokens), `SortedSets` (Redis), `Qdrant`, `Sql` (ILIKE and ORDER BY), `Parsers` (Docling, UTF-8, CSV),
-- the tokenizer, `Libraries` (HTTP, HMAC, Fernet), `Retry` (what the task library does with a retry),
-- json.loads, the order of rows in Chat and Dashboard. What is relied on of it is a record of laws
-- beside it (`CryptoLaws`, `QdrantLaws`, `SqlLaws`, `OrderLaws`). The worker takes the services that it
-- calls as the interface `Services`. The records named `Env` also hold the clock and the identifiers
-- that are drawn.
--
-- Numbers. Identifiers are numbers; times are seconds, in RateLimit microseconds; similarities are
-- ten-thousandths; the token bucket counts in the time that refills one call.
-- Python's integers are unbounded, and those of the model are natural numbers.
--
-- Fuel. `windows` and `batches` have the length of their list as fuel, and each round drops at least one
-- element; `trim` has the length of its piece, and each round shortens it; `digits` has more fuel than
-- its number has digits. `deliver` takes the number of deliveries, of which four are enough.
--
-- Not modelled: the routers but for those of ingestion, since they only call the services; the search
-- endpoints and the setup of collections and of constraints in the graph; middleware; the adapters of
-- model providers, which call the vendor's code; migrations and scripts; the timestamps of creation but
-- for those of messages and logged calls; the confidence of a mention, which is always 1; costs of
-- calls; clients that leave a stream; logging.
pub mod Prelude
pub mod Core
pub mod Models
pub mod Auth
pub mod Users
pub mod ApiKeys
pub mod RateLimit
pub mod Parsing
pub mod Chunking
pub mod VectorStore
pub mod Retrieval
pub mod Fixtures
pub mod Documents
pub mod Drive
pub mod Connectors
pub mod Chat
pub mod Storage
pub mod Ingest
pub mod WorkspaceSettings
pub mod Ner
pub mod Dashboard
pub mod Graph
pub mod Worker
pub mod Gateway
