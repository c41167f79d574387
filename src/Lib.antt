-- ===== src/Lib.antt =====
-- A model of the key-value store of this repository, a small Amazon DynamoDB in C: a hash table
-- that a server answers requests from, over TCP connections, and the theorems about it.
--
-- The program. A server (source/server_hashtable.c, source/server_network.c) keeps one table
-- (source/table.c), an array of lists (source/list.c) of entries (source/entry.c), which pair a key
-- with a block of data (source/block.c). Its skeleton (source/server_skeleton.c) turns a request
-- message into calls of the table and the same message into the reply. Messages
-- (source/htmessages.proto) travel as two bytes of size and the bytes that protobuf-c packs
-- (network_send and network_receive), and these bytes through write_all and read_all
-- (source/message.c). Clients call the same operations through a stub (source/client_stub.c), from a
-- terminal (source/client_hashtable.c). Servers form a chain by the names of their ZooKeeper nodes:
-- each passes the messages of its clients to the next one, a new one copies the table of the one before
-- it, and clients write to the first and read from the last.
--
-- The files.
--   Prelude: shared names, Boolean tests, lists, `int`.
--   Memory: runs that may fault, and the allocator. `malloc` asks an oracle, which any theorem may
--     choose; the state counts the calls, the blocks granted and the blocks freed. Memory.Spend is
--     what these do when every request is granted (IsAmple).
--   Strings: C strings and strcmp.
--   Block, Entry, LinkedList, Table: the files source/block.c, entry.c, list.c and table.c, function
--     by function, under the names of the C functions; Table.Keys and Table.Destroy are the two
--     halves of table.c that walk the whole table.
--   Assoc: what a list stands for, a sorted association list; Table.Buckets: what a table stands
--     for, association lists under a hash, and through them a map; Table.Session: operations on a
--     table against operations on that map.
--   Messages: source/htmessages.proto. Skeleton: source/server_skeleton.c, msgPut as msg_put and so
--     on; Skeleton.Entries is the loop of msgGetTable and Skeleton.Stats the counters.
--   Sockets: source/message.c. Network: network_send and network_receive of
--     source/server_network.c.
--   Stub: the requests of source/client_stub.c and what the client makes of the answers. The
--     connection is a parameter (Stub.Link) with one operation, network_send_receive. Stub.Server
--     fills it in two ways, by a server that runs `invoke` on each request: server_link carries every
--     message whole, and framed_link carries frames, whose sizes have 16 bits. Stub.Remote and
--     Stub.Listing are about the first one, Stub.Framed is about the second one.
--   Replica: the copy of the previous server's table in `main` of source/server_hashtable.c, over a
--     link to that server.
--   Atoi: `atoi` of the C library, and decimal numbers.
--   Chain: node names, child_watcher, handle_next_server and get_previous_server of
--     source/server_network.c; Chain.Ends and Chain.Client are handle_client_connection of
--     source/client_hashtable.c.
--   Network.Effects and Network.Keeps: the worlds in which sending and receiving end.
--   Service: clientThread of source/server_network.c for one connection, a round of its loop as `serve`.
--     What each round finds outside, the next server and the clock, is given in advance.
--     Service.Session follows a client through many messages.
--   Startup: server_network_init of source/server_network.c. Startup.Address: the address it publishes.
--   Listener: network_main_loop, network_terminate and server_network_close of source/server_network.c;
--     what accept gives, and where SIGINT comes, is given in advance.
--   ServerHashtable: main of source/server_hashtable.c, which puts Startup, Chain, Replica, Remote and
--     Listener together.
--   Threads: the threads of all clients and the reader-writer lock, as moves of a system. A thread that
--     fails to pass a message on moves as one that hangs up.
--   Replication: the servers of a chain together: the connections between them as queues of whole
--     messages, and the threads that pass messages on and handle them. Replication.Effects is what requests do to the map
--     that a table stands for.
--   Remote: source/client_network.c, and rtable_connect and rtable_disconnect of
--     source/client_stub.c, over what the system answers (Remote.System).
--   Commands: the terminal of source/client_hashtable.c; the typed bytes are read as lines
--     of at most 1023 bytes, a line is parsed to a request (Commands.Lines)
--     and executed against links to the first and the last server.
--   ClientHashtable: main of source/client_hashtable.c, which puts Chain.Client and Commands together, and
--     abrupt_disconnect. Commands.Steps is about the commands whose values keep their end.
--   Serialization: source/serialization.c, which no program of the makefile uses.
--   Tests: the definitions and the theorems at concrete inputs.
--
-- Words. A message fits a frame (FitsFrame) if it packs into at least one and less than 2^16 bytes,
-- which the codec unpacks again. A key is hashable (IsKey) if it is ASCII and its characters sum to
-- less than 2^31. A table is valid (IsTable) if it has a list, its lists are sorted by their keys,
-- each key is hashable and stands in the list of its hash, and no value is empty. A number fits an
-- int if it is less than 2^31.
--
-- The C machine. `int` has 32 bits, and an overflow of its sums and products is a fault (signed_overflow), as
-- is a NULL pointer that is read (null_pointer) and an index outside an array (out_of_bounds); sizes
-- are those of LP64. `char` is signed, as it is on x86-64. A pointer that is tested is an Option,
-- what lies behind it is a value; a function that changes what a pointer leads to returns the
-- changed value. The list operations are over the nodes in their order; a node has no address, so
-- the aliasing of nodes is not part of the model, and a use of freed memory is not a fault in it. A
-- block count that balances says that as many blocks are freed as were granted. Loops are recursion
-- on the list that they walk or on the number of rounds, so no fuel is needed. The loops of write_all
-- and read_all follow a list of what the system answers to each call; such a run is none where it
-- waits for more. Their sizes are below 2^31, as their `int` parameters demand.
--
-- Not modelled. protobuf-c packs and unpacks (the parameter Codec), and what it allocates is not
-- counted. ZooKeeper's calls are parameters (zoo_get, and the list of the nodes), and so are the
-- connections of child_watcher and handle_client_connection (Chain.Watcher.Environment). The memory
-- for node lists, paths and addresses is taken to be there. The statistics and the table of one
-- connection in Service are not changed by other threads in between. In Replication a message is
-- passed on in one piece, while network_send makes two calls of write_all without a lock: with one
-- client, one thread writes to each connection, and with more clients the runs are those in which no
-- frame is cut into another. No connection fails there, no write blocks, no server joins or leaves,
-- and what a server answers to the one before it is not followed. The blocks that
-- handle_client_connection takes and the buffers of the frames that framed_link carries are not
-- counted. SIGINT comes to a server only while it waits for a connection. The text of what is
-- printed, and what the client does after a quit that could close neither connection are outside.
-- The generated code source/htmessages.pb-c.c is not modelled.
pub mod Prelude
pub mod Memory
pub mod Strings
pub mod Block
pub mod Entry
pub mod LinkedList
pub mod Assoc
pub mod Table
pub mod Messages
pub mod Skeleton
pub mod Sockets
pub mod Network
pub mod Atoi
pub mod Chain
pub mod ClientHashtable
pub mod Commands
pub mod Listener
pub mod Remote
pub mod Replica
pub mod Replication
pub mod Serialization
pub mod ServerHashtable
pub mod Service
pub mod Startup
pub mod Stub
pub mod Threads
pub mod Tests
