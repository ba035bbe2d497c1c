-- ===== src/Lib.antt =====
-- The open workload scheduler: a master and its nodes keep plannings of jobs in MySQL databases,
-- start the jobs that are ready, and talk to one another through a Thrift service.
--
-- Parts, and the files that model them:
-- - Model: the data types of src/model.thrift.
-- - Convertions: src/convertions.cpp, the texts of the enums (build_*_from_string and back), and in
--   Convertions/Times build_unix_time_from_hhmm_time and build_human_readable_time. Convertions/RoundTrip and Convertions/Duration hold
--   proofs.
-- - Config: src/cfg.cpp, class Config (parse_file, get_param, check_syntax, set_private_attributes).
--   Config/Parsing and Config/Entries hold proofs.
-- - Database: src/database.cpp, class Mysql (init and end of a connection, atomic_execute,
--   standalone_execute, query_one_row, query_full_result, load_file, init_domain_structure).
--   Database/Journal says what a server with transactions makes of the calls. Database/Transactions,
--   Database/Ends, Database/Connections, Database/Skeleton and the modules of Database/Journal hold proofs.
-- - Sqlite: src/database.cpp, class Sqlite, the other database, which include/common.h leaves out.
--   Sqlite/Transactions and Sqlite/Queries hold proofs.
-- - Domain: src/domain.cpp, class Domain. Domain/State has the attributes and the mutex;
--   Domain/Insertions and Domain/Updates the operations that write; Domain/Removal remove_node;
--   Domain/Rows and Domain/Reads the operations that read; Domain/Ready the two versions of
--   get_ready_jobs; Domain/Planning the constructor, set_next_planning and switch_planning.
--   Domain/Mutex, Domain/Deadlock, Domain/Atomicity, Domain/JobInsertion, Domain/StartTime,
--   Domain/RowReading, Domain/ReadBack, Domain/Journal and Domain/Series (what reaches the database), Domain/Frame (what an
--   operation leaves alone) and Domain/Switching hold proofs.
-- - Router: src/router.cpp and include/router.h, class Router. Router/Index is one index of gateways,
--   Router/Table the routing table, Router/Peers update_peers_list and reach_master; Router/Routes,
--   Router/Deletion, Router/Discovery and Router/Weights hold proofs.
-- - JobRun: src/job.cpp, class Job (the constructor, run, update_state). JobRun/Journal holds proofs.
-- - Server: src/rpc_server.cpp, class ows_rpcHandler. Server/State has the checks of the arguments and
--   the forwarding, Server/Routing hello, reach_master and the plannings, Server/Nodes and Server/Jobs
--   the calls about nodes and jobs, Server/Remote the same service as other nodes offer it.
--   Server/Forwarding and Server/Greeting hold proofs.
-- - Threads: the threads that share one Domain, as steps (Step): an update arrives, its thread gets
--   updates_mutex, and the update returns or throws; a read takes no mutex, and neither does the move of
--   the start time. That the mutex excludes the other updates from lock to unlock, which makes an update
--   one step, is built into Step. Threads/Order, Threads/Progress and Threads/Journal hold proofs.
-- - Network: several nodes. The service that a node uses (Remote) is what the handlers of the others
--   answer (one_hop, within), where a node listens at its bind_port (Rpc_Server::run).
--   Network/Clauses has the throws
--   clauses of src/model.thrift: an exception that a call does not declare arrives as one of Thrift's.
--   Network/Throwing, Network/Relay and Network/Delivery follow the updates of a job through the
--   gateways, Network/Questions the reads; Network/Discovery has the steps in
--   which the nodes find their peers and the master.
-- - RpcClient: src/rpc_client.cpp, class Rpc_Client (open is open_handler). RpcClient/Handlers holds
--   proofs.
-- - Master: src/master.cpp and src/client.cpp, one round of each loop. Master/Rounds and Master/Frame
--   hold proofs.
-- - Startup: main of src/client.cpp and src/master.cpp, from the configuration file to the rounds:
--   client_start with its three waiting loops (find_peers, wait_for_master, wait_for_node), and
--   master_start with master_body, the try around the constructor of the domain and the rounds.
--   Startup/Options has the options of both programs, client_main and master_main, and Startup/Daemon
--   daemonize and signal_handler, which src/client.cpp and src/master.cpp have alike and never use.
--   Startup/Peers, Startup/Master, Startup/Client, Startup/Rounds, Startup/Construction and
--   Startup/LastMinute hold proofs.
-- - Base, Effect, StringMap, Platform: shared names, state passing with the ways a call can end (with
--   the rules for what a step keeps, Effect/Keeps, its invariants, Effect/Preserves, what holds behind it,
--   Effect/Ensures, and of its value, Effect/Yields), std::map, and what comes from outside the repository. Tests: the theorems at concrete inputs.
--
-- How they interact: a handler (Server) checks its arguments, then asks its Domain, or a remote node
-- through the gateway that its Router gives; the Domain turns an operation into statements and hands
-- them to the Database as one transaction, under its mutex; the rounds (Master) ask the Domain for
-- ready jobs, and run them (JobRun). Startup puts the parts together: the router finds the peers and the
-- master, then the domain is made, then the rounds run.
--
-- Representation. M S A is a function from a state to an Outcome and the state behind it. An
-- Outcome is a returned value, an exception, undefined behaviour (such as a read through a null
-- pointer or of a connection that has been freed), or a wait for ever on a held mutex. What was written before an exception stays
-- written. A Mysql object is the list of the calls made to the library, newest first; a server is
-- a function from that list to answers, so that every server whose answers depend on its history
-- is covered. Functions that read the clock take the times as arguments. Numbers are integers over
-- the native natural numbers; the casts to 16-bit fields are written out, and `times` in
-- Domain/Planning writes out the overflow of int. The message of an exception is cut to its first
-- constant part, save where a theorem speaks of it.
--
-- Transactions. What the server keeps is a parameter too, a Journal for each list of calls:
-- IsTransactional states what MySQL documents of BEGIN, COMMIT, ROLLBACK and the end of a connection (a
-- COMMIT without a good answer may have taken place or not), for
-- statements (IsPlain) that do not end a transaction by themselves and for queries (IsRead) that change
-- nothing. Tests/Journal has such a function.
--
-- Parameters (Platform, SqliteLibrary, Neighbours, GetNode, Remote, Execution, Insert): MySQL,
-- SQLite, Boost's regular expressions and lexical casts, the lines of files, the answers of other
-- nodes, the exit status of a command, what the other threads do to the domain while it runs, and where Boost puts a new element in an ordered index. Of
-- the last, IsInsertion says that it keeps the order and adds the one element, and Tests/Network
-- has such a function; of the calls to other nodes, some theorems say that they end, or that they
-- are answered.
--
-- Recursion is on lists and texts, and in Network on the number of nodes that a call may cross: a call
-- that goes further has no answer, delivers says how many nodes are enough, and circles_never_end that in
-- a circle no number is. A waiting loop takes the list of its
-- rounds, each with what the network answers then, and says whether it still waits behind them;
-- the loop of the master takes the times that its rounds read.
--
-- Not modelled: what Thrift does with a connection, steps of other threads inside an update that
-- holds the mutex, what a forwarded call changes on the other nodes (Network follows its answer),
-- how Boost reads the command line, logs, the destructor of class Sqlite, which only calls the
-- library, Router::get_node, which is called but exists in a comment only (a parameter), and the
-- headers without an implementation (include/node.h, include/day.h, include/shell.h).
pub mod Base
pub mod Effect
pub mod StringMap
pub mod Platform
pub mod Model
pub mod Convertions
pub mod Config
pub mod Database
pub mod Sqlite
pub mod Threads
pub mod Network
pub mod RpcClient
pub mod Router
pub mod Domain
pub mod JobRun
pub mod Server
pub mod Startup
pub mod Master
pub mod Tests
