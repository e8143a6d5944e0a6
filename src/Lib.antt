-- ===== src/Lib.antt =====
-- fileSyncer: a server that keeps the files of its users, replicated over several processes. A
-- client's request becomes a transaction; the coordinator runs it, has every replica run it,
-- counts the votes, and sends out whether to commit. The replicas elect a coordinator, and a
-- client keeps a directory in step with the server. This is a model of that program.
--
-- The parts, with paths from the repository's root:
-- - ServerState (src/server/ServerState.h, .cpp): users, sessions, files and ids in memory. A
--   `std::map` is Prelude/Map, an association list in the order of its keys, with `emplace` that
--   leaves an entry that is there.
-- - Disk: `std::filesystem` and the file streams that the server uses, as a table of paths.
-- - Utils (src/common/utils.cpp): the digest of a file and its printed form. Utils/Decimal is `<<`
--   and `>>` of an `int`.
-- - Config: the home directory, the server's directory and the xxHash function, which are
--   parameters of everything; and the paths of ServerState.cpp.
-- - Transaction (src/server/transactions/Transaction.h, .cpp and the five derived classes): a
--   transaction works on a copy of the state and on temporary files `p~`, and `commit` publishes
--   both. Transaction/Monad has the effects: an exception is `thrown`, a use of the deleted
--   work state is `undefined`.
-- - Manager (src/server/transactions/TransactionManager.h, .cpp): the two-phase commit. The votes
--   and results that other threads bring in are lists, in the order in which they come in, and a
--   call that still waits at the end of its list is `waits`. A call of `doTransaction` takes what
--   `getActiveServers` gives each of the three times it is asked, the votes that come in while the
--   transaction runs and those that come in while it waits.
-- - Manager/Wire: a transaction as a message, and TransactionRequestHandler.cpp of the same
--   directory. Messages: the client's messages of proto/message.proto.
-- - Service (src/server/service/ServiceRequestHandler.cpp): Service has the handlers, Service/Login
--   `handleLogin`, and Service/Dispatch `handleRequest`. What other threads do between two locks
--   is an argument of the handlers.
-- - Link (src/common/MessageComunication.h, src/server/interfaces/RequestHandler.h): the bytes of a
--   header, and the loops that send and receive, over what `send` and `recv` return.
-- - Connection (src/common/Connection.h): the client's end of a link, with its state; Connection/Calls has
--   requests and answers, over a codec that stands for protobuf. Listener
--   (src/server/interfaces/Listener.h): the accept loop and its end.
-- - Lock (src/common/RwLock.h): the lock around the shared state and the wait for its changes, as steps of
--   readers and writers. The other modules take a lock as exclusive use of the state.
-- - Replica (src/server/Replica.h, .cpp): what a server knows of another one, and the heartbeat.
-- - Server (src/server/Server.h, .cpp): a server with its replicas, and the change of the
--   coordinator. Server/Bully is Election.cpp with `startElection` and the loop of `start`,
--   Server/Admin is src/server/admin/AdminRequestHandler.cpp, and Server/ConfigFile reads config.txt.
--   An election is given what it hears in each of its rounds, and a call that would go on after
--   the last of them is `hangs`. Server/Reach puts turns of the loop, admin requests and
--   the ends of heartbeats in a row, and Server/Begin is the constructor with `start`.
-- - Client (src/client/mainClient.cpp): the commands; Client/Session (ClientConnection.h, .cpp,
--   ClientRequestHandler.cpp) is the login and the move to another server, Client/Watch the events of the
--   directory, Client/Updates the messages of a subscription, Client/Terminal the command line,
--   Client/Commands the commands as they are run, Client/Main the beginning of `main`.
--   What the server answers is an argument; Client/Synced, Client/RoundTrip and
--   Client/Follows put Service in its place.
-- - ServerState/Startup: `ServerState::init`, the state that is read from the disk at the start. Its
--   children follow the scan: what it removes (Sweep), what it finds in a user's directory (Files)
--   and in the server's (Users). Recovery stops a transaction on its way, or lets
--   it be committed (Created), and starts from the disk that it leaves.
--
-- Numbers: an `int` is an integer with its wrap-around at 2 ^ 31 written out in Prelude/Int.
-- Texts are lists of bytes.
--
-- Fuel: `hash_input` has one round more than the file has bytes, and every read that goes on takes
-- a byte; `show_nat` has one round more than the number, which every round divides by ten. The
-- theorems on both give the result at this fuel, with nothing left over.
--
-- Not modelled: the sockets and the threads (what the system calls return is an argument), the
-- bytes of protobuf, what the server prints, the setting up of inotify, and
-- `main` of the server.
mod Prelude
pub mod ServerState
mod Disk
mod Utils
mod Config
pub mod Transaction
pub mod Manager
pub mod Recovery
mod Messages
pub mod Service
pub mod Link
pub mod Connection
pub mod Listener
pub mod Lock
pub mod Replica
pub mod Server
pub mod Client
mod Samples
