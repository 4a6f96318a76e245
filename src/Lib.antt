-- ===== src/Lib.antt =====
-- Personal Vault RAG: a server that indexes the documents of vaults, answers searches over them
-- and pays an embedding provider for it within a monthly allowance.
--
-- The program. A connector uploads files to the server (app/main.py, app/catalog.py), which
-- registers documents and versions and queues jobs. A worker (app/worker.py) claims the jobs: it
-- extracts the text and previews of a staged file (app/extraction.py), embeds them through the
-- provider (app/provider.py), which reserves the cost in a ledger first (app/budget.py), and cleans
-- up what has expired. A search (app/retrieval.py) fuses three rankings, loads the chunks from the
-- catalog and lets the provider rerank them. Clients reach the server with bearer tokens
-- (app/security.py), which an OAuth exchange or a pairing code grants (app/oauth.py, app/main.py).
-- All of it shares one SQLite database (app/db.py).
--
-- Which file models which part, with its proofs in the modules below it:
--   Prelude, Table   shared types and names, and the operations of SQL on tables, which are lists of
--                    rows: SELECT, UPDATE, DELETE, ORDER BY, and their laws
--   Db               app/db.py: the tables as records; Db.Content and Db.Transfers the rest of them
--   Budget           app/budget.py: the ledger, the estimates and the months of UTC
--   Provider         app/provider.py: the three paid calls
--   Jobs             the queue: create_job of app/catalog.py; claim_job, finish_job and the queue's
--                    part of fail_job of app/worker.py
--   Catalog          app/catalog.py: complete_reconcile here; Catalog.Upload register_upload,
--                    Catalog.Embedding enqueue_missing_embedding_jobs, Catalog.Cleanup
--                    cleanup_expired and the capacity; Catalog.Seen the request `seen` of app/main.py
--   Extraction       _split of app/extraction.py
--   Worker           app/worker.py: Worker.Evidence _replace_chunks and _replace_visual_evidence,
--                    Worker.Extract process_extract and process_render_visual, Worker.Embed
--                    process_embed_text and process_embed_visual, Worker.Inspect
--                    process_temporary_inspection and fail_job, Worker.Dispatch process_job and a
--                    round of the loop of main
--   Retrieval        app/retrieval.py: search with _load_chunks, the fusion, the reordering and the
--                    selection, and the prefixes of paths
--   Security         app/security.py: principals, scopes, tokens and signed links
--   Access           app/oauth.py and the requests of app/main.py that write vaults, tokens, codes,
--                    clients and pairing codes: the tables and forms here, Access.Requests the
--                    requests
--   Ingest           the request `ingest` of app/main.py: the stream of an upload, its staged file and
--                    the catalog
--   Mcp              app/mcp_server.py: VaultTokenVerifier and current_vault here; Mcp.Download
--                    _safe_remote_url and _download_openai_file, Mcp.Inspection
--                    inspect_chat_attachment and get_chat_inspection
--   Artifacts        save_chat_note and save_chat_artifact of app/mcp_server.py; Artifacts.Requests
--                    the requests of app/main.py by which a connector lists, fetches and completes
--                    artifacts, Artifacts.SavedPaths the path of a delivered one
--   Views            fetch_chunk of app/retrieval.py, the requests for passages and pages of
--                    app/main.py and fetch_evidence of app/mcp_server.py; Views.Previews
--                    api_visual_preview, Views.Links the links of search, Views.Tool inspect_visual
--   Tests            rows and runs on concrete input
--
-- How the code is read. A table is a list of rows in the order of their insertion. A transaction is
-- one function on the state, since SQLite runs writing transactions one after another; an operation
-- of several transactions is their composition, and where it raises in between, the result keeps
-- what was committed. A history of operations is an inductive relation, and each operation is one
-- step of it, except in the ledger, where the reservation and the settlement of one call are two
-- steps, and in the exchanges of codes and tokens, whose connections are steps of their own too: other
-- requests may come between them. An exception is a value: its text, or the status and detail of an HTTP error. A foreign key
-- with ON DELETE CASCADE deletes in the model too where an operation deletes the parent, and a
-- UNIQUE constraint raises where an operation can meet it.
-- Money is in micro-dollars and times are counted in microseconds, both natural numbers, where the
-- source has floats for times. Sets of scopes are lists of which only membership is asked.
--
-- What is an argument: the clock, new identifiers and tokens, digests, signatures and the PKCE
-- transformation, the decryption of the provider's key, the provider's answers, the vector store's
-- answers, the full text query's ranking, the readers of file formats, the sizes of preview files,
-- the printing and parsing of locators, the parsing and joining of URLs, the resolution of names
-- and the responses to downloads. A theorem that needs more of them than that they answer names it
-- among its hypotheses. The library that asks for the required scopes of a token before a tool runs is
-- an argument too. The vectors that the provider answers for a batch are not modelled, only that the
-- provider's call and the vector store's may fail one after the other. A reservation is stamped with
-- the time of its step, where the source reads the clock just before the transaction.
--
-- Fuel. The walk to the month of a day takes one step for each month and gets the day's number over
-- 28, plus one, which no walk exceeds, since no month is shorter. The cut of a long passage gets
-- the passage's length, and each piece it cuts off has a character at least. The batches of a job
-- get the number of items, and each batch takes one at least.
--
-- What is not modelled: the requests that change the settings of a vault or a source, the readers of
-- file formats, table cells and calculations on them, the
-- directories of previews, the start of the worker, the HTML of pages, requests for status and
-- settings, the tool that reports the status, the configuration, and the connector, which is a program
-- in another language.
pub mod Access
pub mod Artifacts
pub mod Budget
pub mod Catalog
pub mod Db
pub mod Extraction
pub mod Ingest
pub mod Jobs
pub mod Mcp
pub mod Prelude
pub mod Provider
pub mod Retrieval
pub mod Security
pub mod Table
pub mod Tests
pub mod Views
pub mod Worker
