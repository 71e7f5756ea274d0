-- ===== src/Main.antt =====
-- src/main.rs: what the process does on its command line. What is printed, and the loops and timers
-- that keep the servers running, are not modelled: Server/Cluster has the steps of running servers.
pub mod Ports
pub mod Users
mod Tests
use Prim.Native.String.{◌++◌ as append}
use sdle_shopping_list.Common.{
  ℕ, suc, ◌+◌, get_elem?, Uuid, String, string_eq, ◌==◌, Bool, true, false, Option, none, some,
  List, [], ◌∷◌, if◌then◌else◌,
}
use sdle_shopping_list.Common.Result.{Result, ok, err, ◌>>=◌, ◌>>◌, ok_or, succeeds}
use sdle_shopping_list.Common.Text.{trim, all_chars, is_ascii_alphabetic, parse_u16}
use sdle_shopping_list.Common.Text.Decimal.{decimal}
use sdle_shopping_list.External.{Hashing, Platform}
use sdle_shopping_list.HashRing.{HashRing}
use sdle_shopping_list.Storage.Client.{ClientDb}
use sdle_shopping_list.Storage.Client.Identity.{MetadataTable}
use sdle_shopping_list.Storage.Files.{Files, new_server}
use sdle_shopping_list.Client.{new as new_client}
use sdle_shopping_list.Server.Message.{Msg, Frame, Wire, leave}
use sdle_shopping_list.Server.Peer.{Peer, new as new_peer}
use sdle_shopping_list.Server.Peer.Startup.{join}
use sdle_shopping_list.Proxy.{new as new_proxy}
use sdle_shopping_list.Cli.{State, InputRule, custom, read_validated_input}
use sdle_shopping_list.Cli.Session.{Input, session, new as new_screen}

-- The text of `data/port.txt`, where the folder and the file can be written.
unfoldable pub write_port : Bool → ℕ → Result String
write_port true port = ok (append (decimal (suc port) port) "\n")
write_port false port = err

-- The file may not be there. A text that is no port panics: an error here.
unfoldable pub read_port : Option String → Result ℕ
read_port none = err
read_port (some contents) = ok_or (parse_u16 (trim contents))

abbrev pub seed_addr : String
seed_addr = "tcp://127.0.0.1:6000"

-- `format!("tcp://127.0.0.1:{}", port)`
unfoldable pub local_addr : ℕ → String
local_addr port = append "tcp://127.0.0.1:" (decimal (suc port) port)

abbrev pub username_rules : List InputRule
username_rules = custom (all_chars is_ascii_alphabetic) ∷ []

-- A server that the process creates: its fresh identifier, whether its sockets can be opened, and
-- what its `join` meets.
pub record Spawn : Type 0 where
  pub uuid : Uuid
  pub sockets : Bool
  pub hello_sent : Bool
  pub rounds : List (Option Frame)
  pub disconnected : Bool

pub record Serving (T : Type 0) : Type 0 where
  pub peers : List (Peer T)
  pub port_txt : Result String

module _ (x : Platform) where
  -- An error of `join` is printed, and the server is started all the same.
  unfoldable pub joined : Wire → Spawn → Peer x.Table → Peer x.Table
  joined w s p = (join w p s.hello_sent s.rounds s.disconnected).0

  module _ (files : Files x.Table) where
    -- `Peer::new`
    unfoldable pub create : Spawn → String → Result (Peer x.Table)
    unfolding new_server
    create s addr = do
      succeeds s.sockets
      storage ← new_server files x.hashing s.uuid
      ok (new_peer x s.uuid addr storage.db_conn)

    -- The branch "server": five servers are created, and the last four join the first.
    unfoldable pub serve :
        Wire → Bool → Spawn → Spawn → Spawn → Spawn → Spawn → Result (Serving x.Table)
    unfolding create joined
    serve w writes s1 s2 s3 s4 s5 = do
      let port : ℕ = 6001
      p1 ← create s1 seed_addr
      p2 ← create s2 (local_addr port)
      let port = port + 1
      p3 ← create s3 (local_addr port)
      let port = port + 1
      p4 ← create s4 (local_addr port)
      let port = port + 1
      p5 ← create s5 (local_addr port)
      let port = port + 1
      ok (record {
        peers = p1 ∷ joined w s2 p2 ∷ joined w s3 p3 ∷ joined w s4 p4 ∷ joined w s5 p5 ∷ [];
        port_txt = write_port writes port;
      })

-- What a process meets: the lines for the user's name, a fresh identifier, whether its sockets open
-- and send, what each screen meets, the five servers, and whether the port can be written.
pub record World (D : Type 0) : Type 0 where
  pub username_lines : List String
  pub new_id : Uuid
  pub connects : Bool
  pub screens : List (Input D)
  pub s1 : Spawn
  pub s2 : Spawn
  pub s3 : Spawn
  pub s4 : Spawn
  pub s5 : Spawn
  pub writes : Bool

-- What it comes to: it ends with the usage and status 1; it has told the user something; the screens
-- have run; servers run; the proxy runs; a message to leave is sent to an address.
pub data Ran (T D : Type 0) : Type 0 where
  usage : Ran T D
  told : Ran T D
  screens_ran : Result (State × D) → Ran T D
  serving : Serving T → Ran T D
  proxying : HashRing → Ran T D
  leaving : String → Msg → Ran T D

module _ (sql : ClientDb) (metadata : MetadataTable sql.Db) (client_files : Files sql.Db) where
  -- The branch "client". An error, too, where no line is a valid name: the process waits for more.
  unfoldable pub run_client : Hashing → World sql.Db → Result (Result (State × sql.Db))
  unfolding new_client
  run_client c world = do
    read ← ok_or (read_validated_input username_rules world.username_lines)
    client ← new_client client_files c metadata read.0 world.new_id world.connects
    ok (session c sql client.id world.screens new_screen client.storage_handler.db_conn)

  module _ (x : Platform) (files : Files x.Table) (w : Wire) where
    unfoldable pub remove_peer : Bool → Option String → Result (Ran x.Table sql.Db)
    remove_peer connects none = ok told
    remove_peer true (some port) = ok (leaving (append "tcp://127.0.0.1:" port) leave)
    remove_peer false (some port) = err

    -- The match on the command.
    unfoldable pub command : World sql.Db → String → Option String → Result (Ran x.Table sql.Db)
    unfolding run_client serve remove_peer
    command world run_opt port =
        if run_opt == "client"
        then run_client x.hashing world >>= (λ ran. ok (screens_ran ran))
        else if run_opt == "server"
        then serve x files w world.writes world.s1 world.s2 world.s3 world.s4 world.s5
          >>= (λ started. ok (serving started))
        else if run_opt == "proxy"
        then succeeds world.connects >>= (λ _. ok (proxying new_proxy))
        else if run_opt == "add-peer"
        then ok told
        else if run_opt == "remove-peer"
        then remove_peer world.connects port
        else ok usage

    unfoldable pub main : World sql.Db → List String → Result (Ran x.Table sql.Db)
    unfolding command
    main world args = elim (get_elem? args 1) [
      | none ↦ ok usage
      | some run_opt ↦ command world run_opt (get_elem? args 2)
    ]
