-- ===== src/Storage/Files.antt =====
-- Where src/storage.rs keeps the databases, and how it opens them: `compute_db_path` and `new` of
-- `ClientStorage` and `ServerStorage`.
pub mod Paths
use Prim.Native.Char.{Char, code}
use Prim.Native.String.{◌++◌ as append, ◌∷◌ as cons_char, [] as no_char}
use sdle_shopping_list.Common.{
  ℕ, eqb, Uuid, String, Bool, true, false, not, List, [], if◌then◌else◌,
}
use sdle_shopping_list.Common.Result.{Result, ok, err, ◌>>=◌}
use sdle_shopping_list.Crdt.AworMap.{ShoppingList}
use sdle_shopping_list.External.{Hashing}
use sdle_shopping_list.Storage.Client.Identity.{MetadataTable, request_client_id}

-- `PathBuf::push` of the standard library on Unix: an absolute path replaces the old one, and a
-- separator is put where the old one does not end with it.
unfoldable pub is_absolute : String → Bool
is_absolute no_char = false
is_absolute (cons_char c s) = eqb (code c) b'/'

unfoldable pub need_sep : String → Bool
need_sep no_char = false
need_sep (cons_char c no_char) = not (eqb (code c) b'/')
need_sep (cons_char c (cons_char d s)) = need_sep (cons_char d s)

unfoldable pub push : String → String → String
unfolding is_absolute need_sep
push root path =
    if is_absolute path
    then path
    else if need_sep root
    then append root (append "/" path)
    else append root path

-- The file system: `current_dir`, `create_dir_all`, and opening a database with its pragmas and its
-- schema.
pub record Files (Db : Type 0) : Type 0 where
  pub current_dir : Result String
  pub create_dir_all : String → Bool
  pub open_db : String → Result Db

pub record ClientStorage (Db : Type 0) : Type 0 where
  pub client_id : Uuid
  pub db_path : String
  pub db_conn : Db
  pub cached_lists : List ShoppingList

pub record ServerStorage (Db : Type 0) : Type 0 where
  pub server_id : Uuid
  pub db_path : String
  pub db_conn : Db

abbrev pub if_created : Bool → String → Result String
if_created true path = ok path
if_created false path = err

module _ {Db : Type 0} (files : Files Db) where
  unfoldable pub client_db_path : String → Result String
  unfolding push
  client_db_path username = do
    root ← files.current_dir
    let root = push (push (push root "data") "clientstorage") username
    if_created (files.create_dir_all root) (push root "client.db")

  unfoldable pub server_db_path : String → Result String
  unfolding push
  server_db_path uuid = do
    root ← files.current_dir
    let root = push (push root "data") "serverstorage"
    if_created (files.create_dir_all root) (push root (append "server-" (append uuid ".db")))

  module _ (c : Hashing) where
    -- `new_id` is `Uuid::new_v4()`.
    unfoldable pub new_client : MetadataTable Db → String → Uuid → Result (ClientStorage Db)
    unfolding client_db_path
    new_client sql username new_id = do
      db_path ← client_db_path username
      db ← files.open_db db_path
      requested ← request_client_id c sql db new_id
      ok (record {
        client_id = requested.0;
        db_path = db_path;
        db_conn = requested.1;
        cached_lists = [];
      })

    unfoldable pub new_server : Uuid → Result (ServerStorage Db)
    unfolding server_db_path
    new_server server_id = do
      db_path ← server_db_path (c.uuid_string server_id)
      db_conn ← files.open_db db_path
      ok (record { server_id = server_id; db_path = db_path; db_conn = db_conn })
