-- ===== src/Lib.antt =====
-- Secure file system: the API service, which keeps files as erasure-coded shards on a fleet of
-- storage nodes and gives them out over signed links, and the storage node.
--
-- How the parts interact. The API service encodes an upload into k + m blocks, commits a row for
-- the file and for each shard, and sends each block to a node of its own; a node writes it beside
-- its digest. A download checks the link, reads k blocks, decodes them and checks the digest of
-- the whole file. A worker probes the nodes, collects what failed uploads and deletions left, and
-- rebuilds lost shards.
--
-- Files, each with the code that it models (paths from the root of the repository):
--   - Base and its children: lists, dictionaries, results, decidable equality and Boolean tests.
--   - Python and its children: what the code uses of Python, written out: str and UTF-8, int and
--     decimal text, hex, base64url, uuid.UUID, hmac.compare_digest. Unicode's tables
--     (Python/Unicode) and SHA-256 with HMAC (Python/Hashlib) are parameters.
--   - Http: the requests and responses between the service and a node.
--   - StorageNode/Storage: src/storage_node/storage.py. A disk is a dictionary with the history of
--     the states it passed through; the faults of the operating system are an argument, so that
--     each operation runs through each of its error paths. Atomic, Reading, Ids and Deleting hold
--     the proofs. Views is the map that a directory stands for, Contract what the store promises
--     with no directory in it, and Refinement runs calls one after the other and compares.
--   - StorageNode/Router: src/storage_node/router.py and main.py. `serve` is one request: the
--     token, the identifier, then the endpoint. Guards, Steps and Endpoints hold the proofs.
--   - Erasure: src/api_service/services/erasure.py over zfec, a parameter (Erasure/Codec), with
--     the laws of one (k, n) named and met by a concrete code of two blocks and their sum.
--   - Signing: src/api_service/services/signing.py: `sign`, and `verify` with its checks in order.
--   - RateLimit: src/api_service/services/rate_limit.py. The clock counts nanoseconds and a token
--     6 * 10^10 parts, so that the refill is exact; the source computes in floats.
--   - Database: src/api_service/db/models.py, rows as records and tables as lists. What the
--     database does on a violated constraint is not modelled: Schema states the constraints.
--   - Schema: the constraints of migrations/versions/7d5619c519c1_initial_schema.py and the widths
--     of its columns, as predicates on the tables. Tables, Rows and Added hold the lemmas on rows;
--     Uploading, Deleting and Removing follow the operations of the service.
--   - Network: the network, a parameter: any function of an address, a request and a hidden state.
--     The world of the service is that state, what is committed, the open session, and each
--     request sent with what was committed at that time.
--   - NodeClient: src/api_service/services/node_client.py.
--   - Files: src/api_service/services/files.py, and audit.py. Uploading, Reading and Deleting
--     model its three parts; their children hold the proofs, and Fetching, Growing, Serving and
--     Returning of Reading those of the loop that reads the shards.
--   - Maintenance: src/api_service/services/maintenance.py. Health, Collection, Moving, Repair,
--     Scrub and Cycle model the jobs; Health/Streaks, StaleFiles, RepairedRows and the modules
--     named Keeping hold the proofs.
--   - Config: src/api_service/config.py, the bounds on fields, the key ring and the range checks.
--   - Worker: src/api_service/worker.py. The advisory lock is a field of a cluster of workers, and
--     `run` a step relation over it; Exclusive has the proofs.
--   - Filenames: src/api_service/services/filenames.py. sanitize_filename stands in it and its
--     proof in Safe; Disposition and ContentType have one function each with its proof.
--   - Middleware: src/api_service/middleware.py. An application is a tree that receives and sends
--     messages, run on the server's own functions or on those of the body limit. Query has
--     redact_query, and Stack the two layers in the order of src/api_service/main.py, whose
--     nosniff, which Starlette calls, is there as what it does to the headers; BodyLimit and
--     Redacted have the proofs.
--   - Api: src/api_service/deps.py, with Api/Users for services/auth.py, Api/Files for
--     routers/files.py (with Revoking for links to a file that is deleted later) and Api/Download
--     for routers/download.py; their children hold the proofs.
--   - Fleet: the network made of storage nodes: it hands each request of NodeClient to `serve` of
--     StorageNode/Router on the disk at its address. Keeping, Stored and Puts follow a shard from
--     its PUT to its GET, Candidates and RoundTrip an upload to its reading, LastRow and Download
--     an upload over a link to its download.
--   - Scripts: scripts/create_user.py (Users, with Issuing and Rotation for its proofs) and
--     scripts/seed_storage_nodes.py (Nodes, with Registering).
--   - Tests: runs of the definitions at concrete inputs.
--
-- Names follow the source; a method that changes state takes it and gives it back, and what raises
-- returns a Result. What the code draws at random or reads from a clock is an argument.
--
-- Fuel: the loop of fetch_blocks takes as much fuel as there are candidates, which is enough since
-- each round reads one at least; Files/Reading/Rounds states the loop with no fuel. Every other
-- loop is structural.
--
-- Simplifications. Requests that asyncio.gather runs at once run in the order of the list; the
-- network may still answer each as it likes. A commit succeeds. Texts of error messages and log
-- lines are not kept.
--
-- Not modelled: the handlers of a database that does not answer, and of the migrations the server
-- defaults and the indexes.
pub mod Base
pub mod Python
pub mod Http
pub mod Erasure
pub mod RateLimit
pub mod Signing
pub mod StorageNode
pub mod Database
pub mod Network
pub mod NodeClient
pub mod Files
pub mod Maintenance
pub mod Config
pub mod Filenames
pub mod Middleware
pub mod Worker
pub mod Scripts
pub mod Fleet
pub mod Schema
pub mod Api
mod Tests
