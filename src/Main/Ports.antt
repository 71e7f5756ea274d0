-- ===== src/Main/Ports.antt =====
-- The file of the next port of src/main.rs.
use sdle_shopping_list.Common.{
  ℕ, ◌<◌, ◌^◌, String, Bool, true, false, some, ◌≡◌, sym, ap, ◌∙◌, arith,
}
use sdle_shopping_list.Common.Result.{Result, ok, err, ok_or}
use sdle_shopping_list.Common.Text.{parse_u16, trim}
use sdle_shopping_list.Common.Text.Decimal.{parse_u16-decimal}
use sdle_shopping_list.Main.{write_port, read_port}

-- A port of 16 bits that has been written is read back.
pub read_port-write_port :
    (writes : Bool) (port : ℕ) (contents : String)
    → port < 2 ^ 16
    → write_port writes port ≡ ok contents
    → read_port (some contents) ≡ ok port
unfolding write_port read_port
read_port-write_port false port contents h e = absurd (ground (arith, e))
read_port-write_port true port contents h e =
    let same : ok_or (parse_u16 (trim contents)) ≡ ok_or (some port) =
      ap
        (λ (r : Result String). elim r as (λ _. Result ℕ) [
          | err ↦ err
          | ok t ↦ ok_or (parse_u16 (trim t))
        ])
        (sym e)
      ∙ ap ok_or (parse_u16-decimal port h) in
    same
