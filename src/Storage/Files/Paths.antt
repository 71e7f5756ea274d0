-- ===== src/Storage/Files/Paths.antt =====
-- Two users, and two servers, have different databases.
use text.Mathlib.TextLemmas.{
  append_assoc, nil-append, cons-append, append_cancel_left, append_cancel_right, length-append,
}
use Prim.Native.Char.{Char}
use Prim.Native.String.{◌++◌ as append, ◌∷◌ as cons_char, [] as no_char, count}
use sdle_shopping_list.Common.{
  Uuid, String, Bool, true, false, ◌≡◌, refl, sym, ap, Bool-cases, inl, inr, ◌∙◌, arith, some_inj,
}
use sdle_shopping_list.Common.Result.{ok, >>=-eq-ok}
use sdle_shopping_list.Common.Text.{all_chars, is_ascii_alphabetic}
use sdle_shopping_list.External.{Hashing}
use sdle_shopping_list.Storage.Files.{
  is_absolute, need_sep, push, Files, client_db_path, server_db_path,
}

-- A text ends as its last part does.
need_sep-append :
    (s : String) (c : Char) (t : String)
    → need_sep (append s (cons_char c t)) ≡ need_sep (cons_char c t)
unfolding need_sep
need_sep-append no_char c t = rw nil-append refl
need_sep-append (cons_char d no_char) c t = rw (cons-append, nil-append) refl
need_sep-append (cons_char d (cons_char e s)) c t =
    let rest = cons_char c t in
    ap need_sep (cons-append d (cons_char e s) rest ∙ ap (cons_char d) (cons-append e s rest))
    ∙ ap need_sep (sym (cons-append e s rest))
    ∙ need_sep-append (cons_char e s) c t

push-relative :
    (root path : String)
    → is_absolute path ≡ false
    → need_sep root ≡ true
    → push root path ≡ append root (append "/" path)
unfolding push
push-relative root path h k = rw (h, k) refl

-- A folder that was just entered under a name with an end.
entered :
    (root : String) (c : Char) (t : String)
    → need_sep (cons_char c t) ≡ true
    → is_absolute (cons_char c t) ≡ false
    → need_sep (push root (cons_char c t)) ≡ true
unfolding push
entered root c t h k = elim (Bool-cases (need_sep root)) [
  | inl sep ↦
      rw (k, sep)
        (ap need_sep (sym (append_assoc root "/" (cons_char c t)))
          ∙ need_sep-append (append root "/") c t
          ∙ h)
  | inr none ↦ rw (k, none) (need_sep-append root c t ∙ h)
]

letters-need_sep :
    (c : Char) (s : String)
    → all_chars is_ascii_alphabetic (cons_char c s) ≡ true
    → need_sep (cons_char c s) ≡ true
unfolding need_sep all_chars is_ascii_alphabetic
letters-need_sep c no_char h = ground arith
letters-need_sep c (cons_char d s) h = ground (arith, letters-need_sep d s)

letters-is_absolute : (s : String) → all_chars is_ascii_alphabetic s ≡ true → is_absolute s ≡ false
unfolding is_absolute all_chars is_ascii_alphabetic
letters-is_absolute no_char h = refl
letters-is_absolute (cons_char c s) h = ground arith

-- Where a user's database lies below the folder of all clients.
abbrev user_file : String → String
user_file no_char = "client.db"
user_file (cons_char c s) = append (cons_char c s) "/client.db"

clients : String → String
clients root = push (push root "data") "clientstorage"

clients-need_sep : (root : String) → need_sep (clients root) ≡ true
unfolding clients need_sep is_absolute
clients-need_sep root = entered (push root "data") _ _ refl refl

user_path :
    (root u : String)
    → all_chars is_ascii_alphabetic u ≡ true
    → push (push (clients root) u) "client.db" ≡ append (clients root) (append "/" (user_file u))
unfolding push is_absolute need_sep
user_path root no_char h =
    let r = clients root in
    let slash : need_sep (append r "/") ≡ false = need_sep-append r _ "" in
    rw (push-relative r "" refl (clients-need_sep root))
      (rw slash refl ∙ append_assoc r "/" "client.db")
user_path root (cons_char c s) h =
    let r = clients root in
    let u = cons_char c s in
    let named : append "/" u ≡ cons_char "/" u =
      cons-append "/" "" u ∙ ap (cons_char "/") (nil-append u) in
    let ends : need_sep (append r (append "/" u)) ≡ true =
      ap (λ t. need_sep (append r t)) named ∙ need_sep-append r "/" u ∙ letters-need_sep c s h in
    rw (push-relative r u (letters-is_absolute u h) (clients-need_sep root)) (
      push-relative (append r (append "/" u)) "client.db" refl ends
      ∙ append_assoc r (append "/" u) "/client.db"
      ∙ ap (append r) (append_assoc "/" u "/client.db"))

user_file-inj : (u v : String) → user_file u ≡ user_file v → u ≡ v
user_file-inj no_char no_char h = refl
user_file-inj no_char (cons_char c s) h =
    absurd (omega (arith, ap count h, length-append (cons_char c s) "/client.db"))
user_file-inj (cons_char c s) no_char h =
    absurd (omega (arith, ap count h, length-append (cons_char c s) "/client.db"))
user_file-inj (cons_char c s) (cons_char d t) h =
    append_cancel_right (cons_char c s) (cons_char d t) "/client.db" h

-- The path that is computed, where the folder is created.
client_db_path_lem :
    {Db : Type 0}
    → (files : Files Db) (root u path : String) → files.current_dir ≡ ok root
    → all_chars is_ascii_alphabetic u ≡ true
    → client_db_path files u ≡ ok path
    → path ≡ append (clients root) (append "/" (user_file u))
unfolding client_db_path clients
client_db_path_lem files root u path d l h = go (files.create_dir_all (push (clients root) u)) refl
  where
    go :
        (b : Bool)
        → files.create_dir_all (push (clients root) u) ≡ b
        → path ≡ append (clients root) (append "/" (user_file u))
    go true e = ground (arith, rw (d, e) at h, user_path root u l)
    go false e = absurd (ground (arith, rw (d, e) at h))

-- Two users whose names have letters only have different databases.
pub client_db_path-inj :
    {Db : Type 0}
    → (files : Files Db) (u v path : String) → all_chars is_ascii_alphabetic u ≡ true
    → all_chars is_ascii_alphabetic v ≡ true
    → client_db_path files u ≡ ok path
    → client_db_path files v ≡ ok path
    → u ≡ v
unfolding client_db_path
client_db_path-inj files u v path lu lv hu hv =
    let (root, d, e) = >>=-eq-ok files.current_dir _ hu in
    let same =
      sym (client_db_path_lem files root u path d lu hu)
      ∙ client_db_path_lem files root v path d lv hv in
    user_file-inj u v (
      append_cancel_left "/" (user_file u) (user_file v) (
        append_cancel_left (clients root) (append "/" (user_file u)) (append "/" (user_file v))
          same))

servers : String → String
servers root = push (push root "data") "serverstorage"

servers-need_sep : (root : String) → need_sep (servers root) ≡ true
unfolding servers need_sep is_absolute
servers-need_sep root = entered (push root "data") _ _ refl refl

abbrev server_file : String → String
server_file id = append "server-" (append id ".db")

server_db_path_lem :
    {Db : Type 0}
    → (files : Files Db) (root id path : String) → files.current_dir ≡ ok root
    → server_db_path files id ≡ ok path
    → path ≡ append (servers root) (append "/" (server_file id))
unfolding server_db_path servers is_absolute
server_db_path_lem files root id path d h = go (files.create_dir_all (servers root)) refl
  where
    relative : is_absolute (server_file id) ≡ false
    relative = rw (cons-append "s" "erver-" (append id ".db")) refl

    go :
        (b : Bool)
        → files.create_dir_all (servers root) ≡ b
        → path ≡ append (servers root) (append "/" (server_file id))
    go true e =
        let pushed =
          push-relative (servers root) (server_file id) relative (servers-need_sep root) in
        ground (arith, rw (d, e) at h, pushed)
    go false e = absurd (ground (arith, rw (d, e) at h))

-- Two servers have different databases.
pub server_db_path-inj :
    {Db : Type 0}
    → (files : Files Db) (c : Hashing) (u v : Uuid) (path : String)
    → server_db_path files (c.uuid_string u) ≡ ok path
    → server_db_path files (c.uuid_string v) ≡ ok path
    → u ≡ v
unfolding server_db_path
server_db_path-inj files c u v path hu hv =
    let (root, d, e) = >>=-eq-ok files.current_dir _ hu in
    let s = c.uuid_string u in
    let t = c.uuid_string v in
    let same =
      sym (server_db_path_lem files root s path d hu) ∙ server_db_path_lem files root t path d hv in
    let printed : s ≡ t = append_cancel_right s t ".db" (
      append_cancel_left "server-" (append s ".db") (append t ".db") (
        append_cancel_left "/" (server_file s) (server_file t) (
          append_cancel_left (servers root) (append "/" (server_file s))
            (append "/" (server_file t)) same))) in
    some_inj (sym (c.parse_str-uuid_string u) ∙ ap c.parse_str printed ∙ c.parse_str-uuid_string v)
