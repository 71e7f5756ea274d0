-- ===== src/Lib.antt =====
-- A distributed, local-first shopping list: clients keep their lists in a local database and merge
-- them with those of a ring of servers. The program is one Rust crate, in src/.
--
-- The parts, and the files that model them:
--   * src/crdt.rs, the replicated data: Crdt/GCounter (GCounter), Crdt/PnCounter (PNCounter),
--     Crdt/LwwReg (LWWReg), Crdt/Item (Item), Crdt/AworMap (AWORMap, ShoppingList). Their child
--     modules prove what merging does.
--   * src/hash_ring.rs, the consistent hash ring: HashRing, over the ordered map of BTreeMap.
--     A server joins with add_node, and get_preference_list finds the servers of a list.
--   * src/storage.rs, the databases: Storage/Server (ServerStorage) and Storage/Client
--     (ClientStorage), over interfaces of the SQL statements that the source prepares.
--   * src/server.rs, the servers: Server/Failure (FailureTable), Server/Quorum (QuoromState),
--     Server/Peer (the state of Peer, and sending), Server/Peer/Handlers (handle_incoming, leave,
--     hinted_handoff), Server/Peer/Requests (handle_incoming_proxy, handle_incoming_put and the
--     sending to replicas) and Server/Peer/Startup (join, failure_detection, and what listen and
--     listen_proxy do with a frame). Server/Cluster has several servers, one step for each handler
--     or timer, and the messages between them. Server/Message has the messages of src/message.rs.
--   * src/cli.rs, the screens of the client as a state machine: Cli. Cli/Session has `render`, which
--     runs them over the client and its database.
--   * src/client.rs, what a client reads, retrieves and changes: Client (Client).
--   * src/proxy.rs, which frames go to which server: Proxy (Proxy).
--   * src/main.rs, what the process does on its command line: Main. Storage/Files has the paths of
--     the databases of src/storage.rs, and how they are opened.
-- A server gets a list from the proxy, finds the replicas on its ring, sends them the list, counts
-- their answers in a quorum state, and stores or merges the list when the quorum is reached.
--
-- How the code is translated:
--   * A method on `&mut self` is a function to the new state. A mutex is the state it guards, but
--     where a handler locks a mutex that it holds, the result is `blocked`.
--   * A method that waits for a quorum is two functions, one up to the wait and one behind it, so
--     that other messages may be handled between them.
--   * Sums of u64 counts and the casts between u64 and i64 wrap around at 2 ^ 64, as in a release
--     build; a debug build panics there. A clock of 32 bits wraps at 2 ^ 32.
--   * A HashMap is an association list with one entry for each key, whose order stands for the
--     arbitrary order of iteration; a BTreeMap is a list in the order of its keys. A Uuid is its
--     128-bit number. What an error says is not modelled.
--   * The one loop on fuel is the search for another node, `next_available`, which is `none` where
--     the fuel runs out: it need not end, so no fuel is enough in general, but one round is where the
--     server knows all servers of its ring. `decimal` has fuel for every digit of the number it
--     prints.
--
-- External has what comes from other crates, as parameters: Hashing (uuid and md5), Serde
-- (serde_json) and ListTable (the SQLite table of a server), with the documented behaviour that the
-- proofs rely on; ClientDb in Storage/Client has the statements of the client's database, of which
-- ClientTables in Storage/Client/Tables says what they do to its tables: primary keys, conflicts and
-- new row numbers. Network in Server/Peer has what ZeroMQ does with a message to a server or, through
-- the proxy, to a client, Exchange in Client what comes of one, Wire in Server/Message how frames are
-- read, and Files in Storage/Files the file system. Sample has small concrete instances, tables in
-- memory among them, on which the modules named Tests run the code and apply the theorems.
--
-- Not modelled: the polling of the sockets, the sleeping of the timers, the schema of a database and
-- what is printed. In Server/Cluster a handler is one step: the interleaving of two handlers of one
-- server inside their locks is not modelled, nor one that stops midway, where it waits for a lock of
-- another one. A handler that waits for its own lock leaves what it did before, and its server goes
-- on, as the source runs each handler as a task of its own. It takes all steps then, also those that
-- would need that lock in the source.
pub mod Common
pub mod HashMap
pub mod BTreeMap
pub mod Crdt
pub mod External
pub mod HashRing
pub mod Storage
pub mod Server
pub mod Cli
pub mod Client
pub mod Proxy
pub mod Main
pub mod Sample
