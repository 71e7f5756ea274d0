-- ===== src/Server/Message/Unused.antt =====
-- The types `Request` and `Response` of src/message.rs, which no other code of the program uses.
use sdle_shopping_list.Common.{ℕ, List, String, Uuid}
use sdle_shopping_list.Common.Int.{ℤ}

pub data Request : Type 0 where
  create_list : String → Request
  add_item : Uuid → String → ℤ → Request
  remove_item : Uuid → String → Request
  get_list : Uuid → Request
  -- bytes
  sync_state : Uuid → List ℕ → Request

pub data Response : Type 0 where
  success : Uuid → Response
  list_state : List String → Response
  error : String → Response
