-- ===== src/Config/Print.antt =====
-- A configuration as the text of a file that `Config::load_from_file` of src/Config.cpp reads.
use redis_c.Prelude.{
  ℕ, suc, ◌^◌, ◌<◌, ◌≡◌, ◌≢◌, refl, ap, Bool, true, false, List, [], ◌∷◌, map, arith, Bytes, beq,
}
use redis_c.Prelude.Text.{text}
use redis_c.Prelude.Decimal.{ℤ, All, IsDigit, to_string, to_string-All, length-to_string_pos}
use redis_c.Config.Trim.{is_blank, is_line_space}
use redis_c.Config.Values.{parse_int, parse_size_t, value_or, parse_bool, to_lower}
use redis_c.Config.Load.{Config}
use redis_c.Config.Numbers.{IsInt, print_int, stoi-print_int, stoull-to_string}
use redis_c.Config.Words.{all}
use redis_c.Config.Classes.{is_plain}
use redis_c.Config.Items.{Item, heading, setting, item_line, unlines}

unfoldable pub print_bool : Bool → Bytes
print_bool true = text "true"
print_bool false = text "false"

-- `key = value`
abbrev pub option : Bytes → Bytes → Item
option key value = setting (record {
  before = [];
  key = key;
  behind_key = text " ";
  before_value = text " ";
  value = value;
  after = [];
  comment = [];
})

abbrev pub section : Bytes → Item
section name = heading [] name []

unfoldable pub config_items : Config → List Item
config_items c =
    section (text "server")
    ∷ option (text "port") (print_int c.port)
    ∷ option (text "host") c.host
    ∷ section (text "threading")
    ∷ option (text "worker_threads") (to_string c.worker_threads)
    ∷ option (text "io_threads") (to_string c.io_threads)
    ∷ option (text "shard_count") (to_string c.shard_count)
    ∷ section (text "performance")
    ∷ option (text "max_connections") (to_string c.max_connections)
    ∷ option (text "buffer_size") (to_string c.buffer_size)
    ∷ section (text "storage")
    ∷ option (text "cache_size_mb") (to_string c.cache_size_mb)
    ∷ option (text "enable_compression") (print_bool c.enable_compression)
    ∷ option (text "enable_persistence") (print_bool c.enable_persistence)
    ∷ option (text "sync_interval_sec") (print_int c.sync_interval_sec)
    ∷ []

-- A configuration file as an administrator writes it.
unfoldable pub print_config : Config → Bytes
unfolding config_items
print_config c = unlines (map item_line (config_items c))

pub parse_bool-print_bool : (b d : Bool) → parse_bool (print_bool b) d ≡ b
unfolding parse_bool print_bool to_lower beq
parse_bool-print_bool true d = refl
parse_bool-print_bool false d = refl

pub parse_size_t-to_string : (n d : ℕ) → n < 2 ^ 64 → parse_size_t (to_string n) d ≡ n
unfolding parse_size_t
parse_size_t-to_string n d h = ap (value_or d) (stoull-to_string n h)

pub parse_int-print_int : (i d : ℤ) → IsInt i → parse_int (print_int i) d ≡ i
unfolding parse_int
parse_int-print_int i d h = ap (value_or d) (stoi-print_int i h)

digits-plain : (s : Bytes) → All IsDigit s → all is_plain s ≡ true
unfolding all is_plain is_line_space is_blank
digits-plain [] h = refl
digits-plain (c ∷ s) h = ground (arith, digits-plain s h.1)

pub to_string-plain : (n : ℕ) → all is_plain (to_string n) ≡ true
to_string-plain n = digits-plain (to_string n) (to_string-All n)

pub to_string-not_empty : (n : ℕ) → to_string n ≢ []
to_string-not_empty n e = ground (arith, length-to_string_pos n)

pub print_int-plain : (i : ℤ) → all is_plain (print_int i) ≡ true
unfolding all print_int is_plain is_line_space is_blank
print_int-plain (ℤ.pos n) = to_string-plain n
print_int-plain (ℤ.negsuc n) = to_string-plain (suc n)

pub print_int-not_empty : (i : ℤ) → print_int i ≢ []
unfolding print_int
print_int-not_empty (ℤ.pos n) = to_string-not_empty n
print_int-not_empty (ℤ.negsuc n) = λ e. ground arith

pub print_bool-plain : (b : Bool) → all is_plain (print_bool b) ≡ true
unfolding all print_bool is_plain is_line_space is_blank
print_bool-plain true = refl
print_bool-plain false = refl

pub print_bool-not_empty : (b : Bool) → print_bool b ≢ []
unfolding print_bool
print_bool-not_empty true = λ e. ground arith
print_bool-not_empty false = λ e. ground arith
