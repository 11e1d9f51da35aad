-- ===== src/Config/Tests.antt =====
-- The configuration on concrete files.
use redis_c.Prelude.{◌-◌, ◌^◌, ◌≡◌, refl, true, false, some, List, [], ◌∷◌, map, arith, beq}
use redis_c.Prelude.Text.{text}
use redis_c.Prelude.Decimal.{ℤ, All, skip_space, magnitude, stoi}
use redis_c.Config.Trim.{is_blank, is_line_space}
use redis_c.Config.Values.{parse_int, parse_size_t, parse_bool}
use redis_c.Config.Load.{
  Config, get_default_config, new_config, set_option, Loading, load_line, load_from_file,
}
use redis_c.Config.Words.{all}
use redis_c.Config.Classes.{is_plain, is_name}
use redis_c.Config.Lines.{Written, IsWritten, write, load_line-write}
use redis_c.Config.Items.{
  Item, heading, setting, remark, IsItem, item_line, unlines, apply_items, load_from_file-items,
}
use redis_c.Config.Print.{print_config}
use redis_c.Demo.{new_config-IsInRange, new_config-plain, host_not_empty}
use redis_c.Config.RoundTrip.{load_from_file-print_config}

parse_size_t_negative : parse_size_t (text "-1") 7 ≡ 2 ^ 64 - 1
unfolding parse_size_t skip_space magnitude
parse_size_t_negative = refl

parse_size_t_product : parse_size_t (text "1024 * 256") 7 ≡ 1024
unfolding parse_size_t skip_space magnitude
parse_size_t_product = refl

parse_int_words : parse_int (text "many") (ℤ.pos 7) ≡ ℤ.pos 7
unfolding parse_int stoi
parse_int_words = refl

parse_bool_case : parse_bool (text "YES") false ≡ true
unfolding parse_bool beq
parse_bool_case = refl

abbrev port_line : Written
port_line = record {
  before = text "  ";
  key = text "port";
  behind_key = text " ";
  before_value = text " ";
  value = text "6380";
  after = text "   ";
  comment = text "# the port";
}

port_line-IsWritten : IsWritten port_line
unfolding all is_blank is_name is_plain is_line_space
port_line-IsWritten = record {
  before = refl;
  key = refl;
  key_not_empty = λ e. ground arith;
  behind_key = refl;
  before_value = refl;
  value = refl;
  value_not_empty = λ e. ground arith;
  after = refl;
  comment = refl;
}

abbrev in_server : Config → Loading
in_server c = record { section = text "server"; config = c }

load_line-write_example :
    load_line (write port_line) (in_server new_config)
    ≡ in_server (set_option (text "server") (text "port") (text "6380") new_config)
load_line-write_example = load_line-write port_line port_line-IsWritten (in_server new_config)

abbrev demo_items : List Item
demo_items =
    remark [] (text "# settings")
    ∷ heading [] (text "server") (text "# section")
    ∷ setting port_line
    ∷ remark (text " ") []
    ∷ []

demo_items-IsItem : All IsItem demo_items
unfolding all is_blank is_name is_plain is_line_space
demo_items-IsItem = (
  (refl, record { marked = refl; newline_free = refl }),
  (
    (refl, refl, record { marked = refl; newline_free = refl }),
    (
      (port_line-IsWritten, record { marked = refl; newline_free = refl }),
      ((refl, record { marked = tt; newline_free = refl }), tt),
    ),
  ),
)

load_from_file-items_example :
    load_from_file 8 (some (unlines (map item_line demo_items)))
    ≡ apply_items [] demo_items (get_default_config 8)
load_from_file-items_example = load_from_file-items 8 demo_items demo_items-IsItem

load_from_file-print_config_example : load_from_file 8 (some (print_config new_config)) ≡ new_config
load_from_file-print_config_example =
    load_from_file-print_config 8 new_config new_config-IsInRange new_config-plain host_not_empty
