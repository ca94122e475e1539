-- ===== src/Lib.antt =====
-- A model of JMDN-FastSync, the protocol by which a blockchain node catches up with its peers, and
-- the theorems that make its core correct.
--
-- The program. Two nodes compare their chains: the bisection compares Merkle trees of block ranges
-- and sub-ranges, or PoTS compares a map of block hashes, and both end in a tag that names the
-- blocks to be synchronised. HeaderSync and DataSync cut the tag into requests of a bounded size.
-- What is received is written to a write-ahead log first, with checkpoints, and then to the node's
-- database; at last the balances of the tagged accounts are reconciled.
--
-- The serving side is the router: it checks the token of each request, compares the trees, and
-- serves headers, bodies and trees. For the synchronisation of accounts it computes which accounts
-- a client lacks and hands them page by page to a dispatcher, whose workers deliver them.
--
-- The parts, and where they are modelled:
--
--   Common             numbers, tests, lists, sorting and 64-bit arithmetic that the parts share
--   Tag                core/protocol/tagging/tag.go: Tagging, TagBlock, TagRange, TagAccounts
--     Tag/Packing      the loop that buildBatches and buildDataBatches share
--     Tag/Divide       core/protocol/router/helper/helper.go: DivideTags
--   Wire               common/proto/{phase,ack,availability/auth,headersync,datasync}
--   Checksum           internal/checksum, common/checksum/checksum_priorsync: the PriorSync checksum
--   HeaderSync/Batches core/headersync/headersync.go: buildBatches, makeBatchRequest
--   HeaderSync/Queue   core/headersync/headersync.go: processQueue, fetchWorker
--   HeaderSync/Confirm core/headersync/headersync.go: SyncConfirmation and what it calls
--   HeaderSync/Rounds  core/headersync/headersync.go: HeaderSync, with its rounds
--   DataSync/Batches   core/datasync/datasync.go: buildDataBatches, makeDataBatchRequest
--   DataSync/Queue     core/datasync/datasync.go: dataFetchWorker, processDataQueue,
--                      processAndWriteBatch
--   Pots               core/pots/helper and core/protocol/router/helper/pots: CompareMaps,
--                      GenerateTagsFromMap, ProcessPoTSRequest
--   Wal/Operations     common/WAL/operations.go: NewWAL, WriteEvent, flushBuffer, GetEvent,
--                      truncateBeforeUnlocked, CreateCheckpoint
--   Wal/Durable        WriteEvent and Flush, as DataSync and Reconcile call them
--   Wal/Replay         common/WAL/operations.go: ReplayEvents, ReplayEventsByType
--   Wal/Events         common/WAL/adapter.go: Serialize, Deserialize, EventFactory
--   Wal/Hydration      common/WAL/hydration/hydration.go
--   Wal/Buffered       common/WAL/async_buffer.go: the coalescing stack
--   Merkle             core/protocol/merkle/merkle.go: GenerateMerkleTree,
--                      GenerateMerkleTreeWithConfig
--   Merkle/Snapshot    helper/merkle/merkle_converter.go
--   Bisection          core/protocol/router/bisection.go: dataBisect and what it calls
--   Router             core/protocol/router/{data_router,auth_helper}.go: Authenticate, HandleAvailability,
--                      HandlePriorSync, HandleMerkle, HandleHeaderSync, HandleDataSync,
--                      HandlePoTSync, and what they serve: SYNC_REQUEST, SYNC_REQUEST_V2,
--                      REQUEST_MERKLE, HEADER_SYNC, DATA_SYNC, FULL_SYNC
--   Router/Accounts    core/protocol/router: HandleAccountsFetch, FetchAccountsByAddresses
--   Router/Upload      core/protocol/router and core/sync/sync_protocols.go: HandleAccountsSync;
--                      core/accountsync/accountsync.go: makeChunk
--   AccountSync/Dispatcher  core/protocol/router/helper/accounts/dispatcher: AccountDispatcher,
--                      and its producers and workers as a step relation, in which a send to
--                      the channel and its count are two steps
--   AccountSync/Difference  core/protocol/router/helper/accounts/accounts_tag.go:
--                      ComputeAccountDiff
--   Reconcile          core/reconsillation/reconsillation.go: calculateAccountState,
--                      computeAccountUpdate, computeUpdateFromDelta, Reconcile, ReconcileWithDeltas
--   Tests              every theorem at a concrete input
--
-- Conventions. A handler that reads a field of a missing message panics, which is an outcome of
-- its own (`Answer` of Common/Result). A method takes the state and returns the new state beside
-- its result; an error is `none` where its text does not matter. Numbers are natural numbers;
-- where the source computes with uint64 the wrap-around is written out (add64, sub64 of Common). A
-- Go map is a list of pairs with distinct keys. `sort.Slice`, which leaves the order of ranges
-- with one start open, is taken to keep it.
--
-- Parameters. The segmented log of tidwall/wal with its documented laws (indices are written in
-- order, what was written can be read) and JSON, in Wal/Log; the JSON and protobuf encodings of
-- events, in Wal/Events; the builder, the block iterator and the length from which make panics, in
-- Merkle; the Merkle library, the peer's answers and the generation of local sub-trees, in
-- Bisection; the block store, in Pots and Router; the token cache, the hash functions, the
-- protobuf and hex encodings and the texts of the Merkle library's errors, in Checksum and Router,
-- with the ranges on which the generation of a tree panics; the network, as a state that each call
-- changes, and the database, in DataSync/Queue and HeaderSync; the rate limiter and the new UUID,
-- in Router/Availability; the string functions of Go, in Router/Accounts; the client's tree of
-- nonces, the iterator over the accounts and the calls of the dispatcher, in
-- AccountSync/Difference; the session's tree of nonces and the result of the dispatch, in
-- Router/Upload; the account manager, the headers of the blocks and the accounts that a remote
-- returns, in Reconcile. Tests fills them with concrete functions. The results of the workers of
-- DataSync are the sequence in which they arrive. HeaderSync fetches its batches and asks for its
-- tokens one after the other in the model. Locks and the parallel requests of a layer are not
-- modelled: a request of the bisection depends on its own range only, and a method of the log
-- holds its lock throughout. The workers of a reconciliation only read, so that it takes their
-- results in the order in which they arrive.
--
-- Fuel. The inner loop of buildDataBatches and the loop of DivideTags run on fuel, and more fuel
-- than a range has blocks is enough. The bisection runs on fuel for its layers, and seven rounds
-- are enough, since the layer threshold is 6. FULL_SYNC gives DivideTags more fuel than there are
-- blocks. The loop of DataSync that writes the batches that have waited runs on fuel above their
-- number.
--
-- Not modelled: the panic of the conversion of a snapshot without its configuration in the
-- bisection, the libp2p streams, logging, the generated protocol code, the start and the
-- cancellation of workers, and, so far, the header cache, the other streams of core/sync and the
-- clients' sessions.
pub mod Common
pub mod Tag
pub mod Wire
pub mod Checksum
pub mod HeaderSync
pub mod DataSync
pub mod Pots
pub mod Wal
pub mod Merkle
pub mod Bisection
pub mod Router
pub mod AccountSync
pub mod Reconcile
pub mod Tests
