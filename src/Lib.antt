-- ===== src/Lib.antt =====
-- Neuralese: a visual builder of neural networks, a service that compiles its graphs and trains them,
-- an on-premises training runtime, and a backend for accounts, classrooms, billing and the assistant.
-- This library models the parts of its Python code that hold the logic of data and state.
--
-- * Codec models core/dataset_compression.py of the training runtime
--   (runtime/onnx-training/code-snapshot/onprem_runtime), which packs a data set into blocks and
--   unpacks them: Codec/Rle the run-length code and `_adaptive_block`, Codec/Num the integers of a
--   numeric column, Codec/Encode the blocks of the four column types, Codec/Column `_build_column`
--   and `compress_blocks`, Codec/Decode `_decode_column_block`, and Codec/Packet
--   `decompress_dataset_packet`. Codec/RoundTrip and Codec/ColumnRoundTrip join the two directions.
-- * Sync models core/dataset_sync.py of the runtime, the cache of blocks that clients send in frames
--   after `prepare_sync` has told them what is missing: Sync/Grid the columns of blocks and hashes,
--   Sync/Frame the frames, Sync/Cache `DatasetSyncCache`. Sync/Consistent, Sync/Complete and
--   Sync/Runs hold the proofs about single calls, about one run over frames and about sequences of calls.
-- * Engine models core/engine.py, core/jobs.py and core/events.py of the runtime: Engine/Jobs a job
--   and `_run_job`, Engine/Cleanup the table of jobs and `cleanup_jobs`, and Engine/Kept is about what that
--   leaves. Engine/History is a step relation in which the run, the stop requests and a subscriber
--   interleave.
-- * Axon models services/backend/axon/limits.py: Axon/Limits is `AxonLimiter`, Axon/Windows the
--   limits over windows of time.
-- * Auth models services/backend/auth/jwt.py (Auth/Tokens) and services/backend/auth/attempts.py
--   (Auth/Attempts); Auth/Lifecycle has the changes of a login's status, and Auth/Runs
--   whatever sequence of calls reaches the store.
-- * Storage models services/backend/storage: Storage/Paths has fs_utils.py and `Node._resolve_rel` of
--   fs_node.py, Storage/Database the keys of fs_core.py, Storage/Entries its `_get_entry` and `_save_entry`
--   with `Node.read` and `Node.write`. Storage/Split and Storage/Resolve are about the parts of paths,
--   Storage/Prefix about the keys that are deleted, Storage/Written about reading what was written.
-- * Billing models services/backend/billing/service.py: Billing/Service is `BillingService`, over
--   dictionaries for its documents, and Billing/Deactivation is about refunds.
-- * Topo models services/api/nns/topofuse/plan.py: Topo/Graph the nodes and edges of a graph, Topo/Labels
--   the refinement of labels, Topo/Sort `_canonical_toposort`, Topo/Plan `compile_plan` and
--   `topo_signature`, with Python's order on tuples in Topo/Compare. Topo/Sound, Topo/Order, Topo/Ends,
--   Topo/Fuel, Topo/Extract and Topo/Forward hold the proofs.
-- * Run models services/api/nns/graph_core.py: Run/Inbox the boxes of values that nodes wait for, Run/Graph
--   `execute_graph`; Run/Full and Run/Once are about what nodes receive and how often they run.
-- * Sections models services/api/nns/sections: Sections/Partition and Sections/Chains have partition.py,
--   Sections/Store, Sections/Match, Sections/Register and Sections/Apply have section_registry.py and
--   module_cache.py. Sections/Fresh, Sections/Sorted, Sections/Covers and Sections/Plans are about the partition, Sections/Longest,
--   Sections/Shared, Sections/Layers and Sections/Applied about matching, persisting and reuse. The plans of
--   a partition are what the registry is given.
-- * Users models services/backend/users: Users/Names the names, Users/Service `UserService`, with
--   Users/Valid, Users/Consistent, Users/Claim and Users/Unique about them.
-- * Summary models services/backend/axon/graph_summary.py: Summary/Reach the search of a graph and the joins
--   of branches, Summary/Render `_render_flow`; Summary/Walks, Summary/Complete and Summary/Ends are about them.
-- * Prelude has the shared types and lemmas, Python the parts of the language that the
--   components use: dynamic values, byte strings, hexadecimal and UTF-8. Tests has the examples.
--
-- State is passed explicitly: a method takes the object's state and returns the new one beside its
-- result, also when it raises. The clock and random draws are arguments; JSON, SHA-256, PyJWT, the
-- trainer and what the floating-point unit computes are parameters, and so are the functions of nodes, Torch
-- modules and the hashes of keys. The order in which Python walks a set is a parameter where it can matter.
-- Every loop is structural recursion over the list it walks, or over the number of its rounds (blocks of a
-- column, columns of a row), but four, which run on fuel: the sort of a graph has a round for each node, as a
-- round takes one away; the walk along a chain has one step more than there are nodes with parameters, as
-- each step visits a new one; the search of a graph has one step more than there are edges, as each node is
-- expanded once; and the rendering of a flow goes one level deeper than there are nodes, as no node is twice
-- on the path to the root. Times are whole seconds.
--
-- Not modelled: the routes and web servers, Torch and ONNX training itself, the executors and exports of
-- services/api/nns, the assistant's prompts and model calls, the database engine, and the code in other
-- languages. These are listed with their reasons in the manifest of the project.
pub mod Prelude
pub mod Python
pub mod Auth
pub mod Axon
pub mod Billing
pub mod Codec
pub mod Engine
pub mod Run
pub mod Sections
pub mod Storage
pub mod Summary
pub mod Sync
pub mod Tests
pub mod Topo
pub mod Users
