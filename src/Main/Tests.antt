-- ===== src/Main/Tests.antt =====
-- Processes that serve, and users who enter their names.
use sdle_shopping_list.Common.{
  Uuid, nat_eq, String, true, false, Option, some, [], ◌∷◌, ◌≡◌, refl, arith,
}
use sdle_shopping_list.Common.Result.{ok}
use sdle_shopping_list.Common.Text.{trim, all_chars, is_ascii_alphabetic}
use sdle_shopping_list.Common.Text.Decimal.{decimal}
use sdle_shopping_list.Sample.{platform, hashing, Rows}
use sdle_shopping_list.Storage.Files.{Files, ClientStorage, new_client, new_server}
use sdle_shopping_list.Storage.Tests.{identity}
use sdle_shopping_list.Server.Peer.{Peer, new as new_peer}
use sdle_shopping_list.Proxy.Tests.{wire}
use sdle_shopping_list.Cli.{read_validated_input, is_valid}
use sdle_shopping_list.Storage.Client.Identity.{request_client_id}
use sdle_shopping_list.Main.{
  username_rules, Spawn, Serving, write_port, read_port, seed_addr, local_addr, create, joined,
  serve,
}
use sdle_shopping_list.Main.Ports.{read_port-write_port}
use sdle_shopping_list.Main.Users.{users_apart}

written : write_port true 6005 ≡ ok "6005\n"
unfolding write_port decimal
written = refl

read_port_example : read_port (some "6005\n") ≡ ok 6005
read_port_example = read_port-write_port true 6005 "6005\n" (omega arith) written

abbrev files : Files Rows
files = record { current_dir = ok "/home"; create_dir_all = λ path. true; open_db = λ path. ok [] }

abbrev spawn : Uuid → Spawn
spawn u = record { uuid = u; sockets = true; hello_sent = false; rounds = []; disconnected = true }

abbrev created : Uuid → String → Peer Rows
created u addr = joined platform wire (spawn u) (new_peer platform u addr [])

abbrev five : Serving Rows
five = record {
  peers =
      new_peer platform 1 seed_addr []
      ∷ created 2 (local_addr 6001)
      ∷ created 3 (local_addr 6002)
      ∷ created 4 (local_addr 6003)
      ∷ created 5 (local_addr 6004)
      ∷ [];
  port_txt = write_port true 6005;
}

served : serve platform files wire true (spawn 1) (spawn 2) (spawn 3) (spawn 4) (spawn 5) ≡ ok five
unfolding serve create new_server
served = refl

abbrev client_files : Files (Option String)
client_files = record {
  current_dir = ok "/home";
  create_dir_all = λ path. true;
  open_db = λ path. ok (some "uuu");
}

abbrev of_bob : ClientStorage (Option String)
of_bob = record {
  client_id = 3;
  db_path = "/home/data/clientstorage/bob/client.db";
  db_conn = some "uuu";
  cached_lists = [];
}

entered :
    (line : String)
    → trim line ≡ "bob"
    → read_validated_input username_rules ("1" ∷ line ∷ []) ≡ some ("bob", [])
unfolding read_validated_input is_valid all_chars is_ascii_alphabetic trim
entered line h = rw h refl

opened : (new_id : Uuid) → new_client client_files hashing identity "bob" new_id ≡ ok of_bob
unfolding new_client request_client_id
opened new_id = refl

users_apart_example : ◌≡◌ {A = String} "bob" "bob"
users_apart_example =
    users_apart client_files hashing identity ("1" ∷ " bob" ∷ []) ("1" ∷ "bob\n" ∷ []) "bob" "bob"
      [] [] 8 9 of_bob of_bob (entered " bob" (unfold trim in refl))
      (entered "bob\n" (unfold trim in refl)) (opened 8) (opened 9) refl
