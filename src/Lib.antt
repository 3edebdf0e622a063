-- ===== src/Lib.antt =====
-- A model of SimSearch, a distributed store of documents, with proofs about its router, its partition
-- servers, their raft groups and their engine.
--
-- The router takes requests over RPC (service/router/router_rpc.cc), finds the connections of a space
-- (space_manager.cc, by the index map of utils/), checks the documents and ids (common/dto.cc), sorts them
-- by partition, reads each partition from one of its replicas (space_connection.cc,
-- partition_connection.cc, clients/ps_rpc_client.cc), and writes to the leader of the partition's raft
-- group (raft_store/raft_client.cc). A partition server gets its id from a master and keeps it on disk
-- (service/ps/local_storager.cc, local_mata.cc), registers (ps_register.cc), makes and deletes its space
-- (ps_rpc.cc), and passes writes and reads (raft_rpc.cc) to its raft group (raft_store/raft_store.cc),
-- which applies the documents to the engine of gamma. The repository's own engine (engine/engine.cc) keeps
-- documents in two files. Servers reach the masters over http (utils/brpc_http.h) and etcd by its json
-- interface (clients/etcd_client.cc). The paths below are from the repository's root.
--
--   Prelude     tests, lists, maps and texts; a text is the list of its bytes
--   Utils       utils/numeric_util.cc (Hash, Numeric), utils/one_writer_multi_reader_map.cc (IndexMap),
--               utils/file_tool.cc (FileTool), utils/brpc_http.h (BrpcHttp), utils/net.cc (Net)
--   Common      the messages (idl/rpc_service_idl), common/common.cc, common/common_type.cc
--   Dto         common/dto.cc: CheckPbDoc and CheckPbIds (Checks), the conversions for the engine (Gamma)
--   External    what the code uses of files, of converters of messages, of the network, of http, of the
--               rpc server, of the parser of the configuration, of braft and of gamma
--   Engine      engine/engine.cc; Mget is in Engine/Mget
--   Raft        raft_store/raft_client.cc, common/brpc_options.h (Client); raft_store/raft_store.cc (Block,
--               with the bytes of a log entry in Log, on_apply in Apply, snapshots in Snapshot and the calls
--               of the system in Disk)
--   Clients     clients/ps_rpc_client.cc (PsRpc), clients/etcd_client.cc (Etcd, with
--               its calls in Calls and the reader of a watch in ReadBody),
--               clients/dynamic_resource.h (DynamicResource)
--   Router      service/router/: local_spaces.cc (LocalSpaces), space_manager.cc (Manager, Hashing),
--               space_connection.cc (Space), partition_connection.cc (Partition), router_rpc.cc (Rpc,
--               with Upsert and Delete in Writes),
--               UpsertDocsToPs of the manager (Upsert), router_server.cc (Server), router_register.cc
--               (Register); service/router_main.cc (Main)
--   Ps          service/ps/: local_mata.cc (LocalMata), local_storager.cc (LocalStorager), ps_rpc.cc (Rpc),
--               raft_rpc.cc (RaftRpc), ps_register.cc (Register), brpc_server.cc (Server), MockGet
--               (Mock); service/ps_main.cc (Main, the whole program in Program)
--   Cluster     the router's clients, the handlers of a partition server and a raft group together
--   Conf        config/conf.cc; config/toml_conf.cc (Toml)
--   Examples    the theorems at concrete inputs
--
-- State and errors. A class is a record, and a method is a function from the record, and from the world
-- where it calls out, to its results and the record after. A mutex held for a whole method makes it one
-- step. A message is a text that is empty where nothing is wrong, as in the source; a null pointer is
-- `none`, and so is a result where the source stops the process or goes on with undefined behaviour.
-- Three unguarded accesses are total here and give some value instead: the partition at an index beyond
-- a space's list (Router/Space), the partition of a key where there are none (Utils/Hash) and the
-- connection of a client that was never given to Init (Raft/Client). The master refuses a space with no
-- partitions or no replicas (master/entity/dto.go); a theorem that does not ask for the same includes
-- those values. A `std::map` is an association list in the order of its keys. Log lines are left out. The
-- calls of braft on a block are a step relation (Raft/Block/Leader).
--
-- Parameters. The hash of the standard library is any function. A file system (`FileSystem`, and `Files`
-- through descriptors), the calls of brpc and braft with the random numbers (`Network`, `Http`,
-- `Braft`), the engine of gamma (`Gamma`) and the converters of protobuf (`Codec`, and `Conversion`
-- where a response may be left half parsed) are records of functions on a world of any type, so a server
-- may answer anything at any time. What is assumed of them stands in those records: a text whose write did
-- not fail is read back (a write may fail, and the source does not look), a file that could be deleted is
-- gone, a write at the end of a file appends to it and leaves the others, a random number is within its
-- bounds, and a message that was printed is parsed as it was. The manager takes its connections as a
-- `Connector`, which Router/Space implements. The client of a group asks its network for what
-- Raft/Client/Keeps says, and Cluster gives such a network: brpc carries each call to the handler at an
-- address and braft gives the entries that it commits to on_apply, with any choice of what arrives, who
-- leads and what is committed.
--
-- Bounds. The retries are the source's: three rounds of a write and of a read, three questions for a
-- leader, a hundred backup names, as many rounds of an etcd operation as nodes, the given number of a
-- post. The registration of a server that has a space is repeated without end in the source; its rounds
-- are fuel here, and `running` says that they were used up. So are those of the waits for a signal and
-- of the closing of a descriptor (Prelude/Retry), where none says so. A number in decimal has fuel for
-- more digits than it has.
-- Indices of the index map are int16_t, so the theorems on the manager ask for at most 32768 places.
-- Lengths in the engine's records are int16_t and positions int64_t, which the theorems on the engine
-- ask of a batch. The load of the engine counts its records and computes their positions in int, which
-- holds less than 2^31 bytes of metadata: beyond it the load is `none`, and the theorem on the load asks
-- for less. The length of a request in a log entry has 32 bits, so the theorems on the log ask for
-- requests of less than 2^32 bytes.
--
-- Not modelled: the parser of the command line, logging, the router's mock handlers, whose bodies are
-- commented out, the threads that run the loops, the tests and examples, and the master, which is in Go.
mod Prelude
pub mod Utils
pub mod Common
pub mod Dto
pub mod External
pub mod Raft
pub mod Clients
pub mod Router
pub mod Engine
pub mod Ps
pub mod Conf
pub mod Cluster
mod Examples
