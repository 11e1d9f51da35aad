-- ===== src/Commands/Spec.antt =====
-- What the commands promise: a map from keys to values, with no cache, shard or codec.
use redis_c.Prelude.{
  ℕ, suc, Option, none, some, List, [], ◌∷◌, ◌++◌, if◌then◌else◌, Bytes, beq, length,
}
use redis_c.Prelude.Decimal.{to_string}
use redis_c.Cache.Laws.{is_some}
use redis_c.Prelude.Text.{text, line}
use redis_c.Commands.Handle.{value_reply}

abbrev pub Map : Type 0
Map = Bytes → Option Bytes

abbrev pub assign : Bytes → Option Bytes → Map → Map
assign key x m k = if beq key k then x else m k

abbrev pub assign_all : List (Bytes × Bytes) → Map → Map
assign_all [] m = m
assign_all ((key, value) ∷ rest) m = assign_all rest (assign key (some value) m)

-- A request that is well formed. `mset` has a first pair, `mget` a first key.
pub data Request : Type 0 where
  set : Bytes → Bytes → Request
  get : Bytes → Request
  del : Bytes → Request
  mset : Bytes × Bytes → List (Bytes × Bytes) → Request
  mget : Bytes → List Bytes → Request

abbrev pub name_of : Request → Bytes
name_of (set key value) = text "set"
name_of (get key) = text "get"
name_of (del key) = text "del"
name_of (mset pair rest) = text "mset"
name_of (mget key keys) = text "mget"

abbrev pub flat : List (Bytes × Bytes) → List Bytes
flat [] = []
flat ((key, value) ∷ rest) = key ∷ value ∷ flat rest

-- The words behind the name.
abbrev pub arguments : Request → List Bytes
arguments (set key value) = key ∷ value ∷ []
arguments (get key) = key ∷ []
arguments (del key) = key ∷ []
arguments (mset pair rest) = flat (pair ∷ rest)
arguments (mget key keys) = key ∷ keys

-- What a request does to the map.
abbrev pub effect : Request → Map → Map
effect (set key value) m = assign key (some value) m
effect (get key) m = m
effect (del key) m = assign key none m
effect (mset pair rest) m = assign_all (pair ∷ rest) m
effect (mget key keys) m = m

abbrev pub value_replies : Map → List Bytes → Bytes
value_replies m [] = []
value_replies m (key ∷ keys) = value_reply (m key) ++ value_replies m keys

-- What it is answered with.
abbrev pub answer : Map → Request → Bytes
answer m (set key value) = line "+OK"
answer m (get key) = value_reply (m key)
answer m (del key) = if is_some (m key) then line ":1" else line ":0"
answer m (mset pair rest) = line "+OK"
answer m (mget key keys) =
    text "*" ++ to_string (suc (length keys)) ++ (13 ∷ 10 ∷ []) ++ value_replies m (key ∷ keys)

-- The number of items that the cache may gain.
abbrev pub growth : Request → ℕ
growth (set key value) = 1
growth (get key) = 1
growth (del key) = 0
growth (mset pair rest) = suc (length rest)
growth (mget key keys) = suc (length keys)
