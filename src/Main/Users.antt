-- ===== src/Main/Users.antt =====
-- The users of src/main.rs and their databases.
use sdle_shopping_list.Common.{Uuid, String, some, List, ◌≡◌, ap, ◌∙◌, arith}
use sdle_shopping_list.Common.Result.{ok, >>=-eq-ok}
use sdle_shopping_list.External.{Hashing}
use sdle_shopping_list.Cli.{read_validated_input}
use sdle_shopping_list.Cli.Input.{read_valid, name_valid}
use sdle_shopping_list.Storage.Client.Identity.{MetadataTable, request_client_id}
use sdle_shopping_list.Storage.Files.{Files, ClientStorage, client_db_path, new_client}
use sdle_shopping_list.Storage.Files.Paths.{client_db_path-inj}
use sdle_shopping_list.Main.{username_rules}

module _ {Db : Type 0} (files : Files Db) (c : Hashing) (metadata : MetadataTable Db) where
  opened_path :
      (username : String) (new_id : Uuid) (opened : ClientStorage Db)
      → new_client files c metadata username new_id ≡ ok opened
      → client_db_path files username ≡ ok opened.db_path
  unfolding new_client
  opened_path username new_id opened h =
      let (path, found, h') = >>=-eq-ok (client_db_path files username) _ h in
      let (db, o, h'') = >>=-eq-ok (files.open_db path) _ h' in
      let (r, q, e) = >>=-eq-ok (request_client_id c metadata db new_id) _ h'' in
      let same : path ≡ opened.db_path = ground (arith, e) in found ∙ ap ok same

  -- Two users whose names the prompt has accepted, and whose databases are the same file, have the
  -- same name.
  pub users_apart :
      (lines lines' : List String) (u v : String) (rest rest' : List String) (id id' : Uuid)
      (first second : ClientStorage Db)
      → read_validated_input username_rules lines ≡ some (u, rest)
      → read_validated_input username_rules lines' ≡ some (v, rest')
      → new_client files c metadata u id ≡ ok first
      → new_client files c metadata v id' ≡ ok second
      → first.db_path ≡ second.db_path
      → u ≡ v
  users_apart lines lines' u v rest rest' id id' first second hu hv nu nv same =
      client_db_path-inj files u v second.db_path
        (name_valid u (read_valid username_rules lines u rest hu))
        (name_valid v (read_valid username_rules lines' v rest' hv))
        (opened_path u id first nu ∙ ap ok same) (opened_path v id' second nv)
