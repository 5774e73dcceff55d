-- ===== src/Lib.antt =====
-- A model of the backend of lbpr: components with contracts, a service and in-memory adapters each,
-- behind HTTP routes. Paths are from the root of the repository. The clients of the backend are
-- tenants; a request goes through the rate limiter's middleware to the routes of a component, whose
-- service keeps the component's state and calls the other components by ports.
--
-- Shared modules. Prelude passes on the names of the libraries, with Boolean tests, lists measured by
-- native numbers (Prelude/Lists) and integers (Prelude/Int). Dict is Python's dict with text keys,
-- Value the JSON values of metadata, Text the methods of `str` that are used.
--
-- RateLimiter models components/ratelimiter. Policy is contracts.py; Bucket and Store are the state
-- dicts and store.py; Service is service.py (`consume`, `reset`, `snapshot`, the closures `upd` of the
-- two algorithms); Middleware is middleware.py (`dispatch`). Steps, Entries, Traffic and Keys hold the
-- lemmas on one call and on sequences of calls; Throughput, Retry, Reports, Duality, Keys and
-- Middleware/Dispatch the theorems. The source computes with floats; the model computes the same
-- expressions exactly, with time in ticks of `ticks` to a second and tokens in units of
-- `period * ticks` to a token, in which every stored amount is a natural number. So rounding of floats
-- is not modelled. Floats says for which policies, times and costs the floats are these numbers: periods
-- and ticks that are powers of two, amounts below 2 ^ 52. For others, such as a period of 3 or 29 seconds,
-- the source rounds, and its decisions and waits can differ from the model's. A method of the store holds its lock and is one step.
--
-- Chat models components/chatservice. Contracts is contracts.py; Action is the monad of state and
-- exceptions; Service and Posting are service.py, with the ids and times that a call draws as an
-- argument; Http is http.py. The ports ILLMAdapter and IRetrievalAdapter are arguments whose calls
-- answer or raise. Invariant, Runs, Transcript, Answers, Tenancy, Listing and Http/Handled hold the
-- theorems. Logging is left out, and so are the fields that nothing reads.
--
-- Indexer models components/indexer. Contracts is contracts.py and the requests of schemas.py with
-- their validators; Chunker is SimpleChunker, whose `while` loop runs on as much fuel as the text has
-- words, which suffices since a step is at least one word (Chunker/Coverage); Store is InMemoryJobStore
-- and InMemoryVectorStore; Service is service.py. View and Settles say how a step changes what a job
-- shows, Outcome and Jobs compose them into `create_job`, Upsert is about the vector store. The
-- embedder and the vector store of the service are arguments whose calls answer or raise. The routes,
-- which only forward, and DummyEmbedder, a hash, are not modelled.
--
-- Ingestion models components/ingestionservice. Contracts is contracts.py, Repository repository.py,
-- Frame and Service are service.py and ports.py, Http http.py. The job is one object that the repository and the
-- service share: every assignment to it is followed by a call that stores it, and the model stores it
-- there. Wants says what a request asks for, Tracked and Loops follow the job through the three loops, Outcome through the submission;
-- Tenants is about the routes.
--
-- VectorStore models components/vectorstoreadapter with its in-memory adapter (adapters/inmemory.py):
-- Models is models.py and errors.py, Filter the two functions on filters, over Python's comparisons of
-- values as a parameter, Adapter the class, and Ranking its `query` with `_cosine`, where the float
-- arithmetic of a score and the order of scores are a parameter. Fetching, Matching and Ranked hold
-- the theorems. The Pinecone adapter only calls a service and is not modelled.
--
-- Auth models components/authservice. Contracts is contracts.py and config.py, Signer crypto.py over
-- the functions of base64, json and hmac as fields of a record, Users models.py over PBKDF2, Service
-- service.py and the routes `login` and `refresh` of routes.py. What the libraries do is named in
-- `Laws`, `ReadsBack` and `HashLaws`. Base64, Signing and Forgery are about tokens, Grants, Sessions,
-- Scopes and Access about whom a token lets in, Passwords about whom a password finds. The route `me` and
-- deps.py, which call what the service does not have, are not modelled.
--
-- Blob models components/blobstorageadapter with the adapter of adapters/local_fs.py, of which
-- adapters/local/_fs.py is a copy. Contracts is contracts.py and errors.py, Paths, Adapter, Reader and
-- Listing the adapter, Service service.py. The file system and pathlib are the interface Files, whose
-- `Laws` say what their documentation says. The loop of `reader` runs on as much fuel as the blob has
-- bytes, and one more, which suffices since a round reads a byte at least (Ranges). Contents states
-- the abstract store, RoundTrip, Ranges, Pages and Following what is read and listed. The S3 adapter
-- only calls a service and is not modelled.
--
-- Llm models components/llmadapter: Contracts is contracts.py, Fake providers/fake.py, Service
-- service.py, the stubs of the other providers and routes.py. The loop over `range` runs on as much
-- fuel as the text has characters, which suffices since a round is a character at least (Streams).
--
-- Search models components/searchservice: Contracts is contracts.py, Filter and Store are
-- adapters_inmemory.py, Core core.py and the tenant and the route of service.py. Comparisons of values,
-- the cosine and the order of scores are parameters. Ranks and Windows hold the theorems. The fusion of
-- core.py, which nothing calls, and the hashed embedding are not modelled.
--
-- Metadata models components/metadataservice: Contracts is contracts.py, Keywords, Guess and Service are
-- service.py. UTF-8, SHA-256, `str.lower` and the rounding of the reading time are parameters. Extracts
-- is about what is kept.
--
-- Gateway models components/apigateway: Contracts is contracts.py and errors.py, Ports is ports.py,
-- Fakes and Routes are routers/public.py. The routes work over any ports; a route answers, or raises what
-- is no ApiGatewayError. Bearer and Gate are about callers who may not be
-- served. The probes, app.py, settings.py and
-- observability.py, which set the framework up, are not modelled.
--
-- Embedding models components/embeddingadapter: Contracts is contracts.py, Fake is adapter_fake.py and
-- Service is the route of service.py. SHA-256, UTF-8 and the floats are parameters. The loop that hashes
-- runs on fuel, one more than the dimensions, since every digest has 32 bytes and a dimension takes 4;
-- Shapes shows that this is enough. The OpenAI adapter only calls a service and is not modelled.
--
-- Not modelled: the scripts that generate documents (md_generator.py, scripts, track_progress.py).
pub mod Prelude
pub mod Dict
pub mod Value
pub mod Auth
pub mod Blob
pub mod Chat
pub mod Embedding
pub mod Gateway
pub mod Indexer
pub mod Ingestion
pub mod Llm
pub mod Metadata
pub mod RateLimiter
pub mod Search
pub mod Text
pub mod VectorStore
