-- ===== src/Database.antt =====
-- The server registry of backend/internal/database/db.go: the table `servers` of
-- backend/migrations/001_initial_schema.up.sql and the queries on it. The URL parser and how
-- PostgreSQL reads a text as an integer are arguments; a query that cannot reach the database is
-- not modelled.
pub mod Registry
pub mod Pool
pub mod Requests
use neura_balancer.Common.{
  ℕ, suc, Bool, true, false, if◌then◌else◌, ◌==◌, ◌&&◌, Option, none, some, List, [], ◌∷◌, ℤ, pos,
  negsuc, ltb_ℤ, leb_ℤ, ◌^◌, ◌-◌, int_eq,
}
use neura_balancer.Common.Text.{Text, codes, text_eq}
use neura_balancer.Common.Text.Numbers.{atoi}

-- The `Hostname` and the `Port` of a URL; `none` is a URL that does not parse.
pub record Urls : Type 0 where
  pub parse_url : Text → Option (Text × Text)
  pub read_integer : Text → Option ℤ

-- The columns that the queries read. The identifiers are assigned in order, from 1 on.
pub record Row : Type 0 where
  pub id : ℕ
  pub name : Text
  pub ip_address : Text
  pub port : ℤ
  pub is_active : Bool
  pub weight : ℤ
  pub capacity : ℤ

pub record Table : Type 0 where
  pub rows : List Row
  pub next_id : ℕ

-- `none` is the error of a query.
abbrev pub has_address : Text → ℤ → Row → Bool
has_address host port row = text_eq host row.ip_address && int_eq port row.port

abbrev pub find_row : (Row → Bool) → List Row → Option Row
find_row p [] = none
find_row p (row ∷ rows) = let found = find_row p rows in if p row then some row else found

-- `UPDATE servers SET ... WHERE p`.
abbrev pub update_rows : (Row → Bool) → (Row → Row) → List Row → List Row
update_rows p f [] = []
update_rows p f (row ∷ rows) = (if p row then f row else row) ∷ update_rows p f rows

abbrev pub append_row : List Row → Row → List Row
append_row [] row = row ∷ []
append_row (r ∷ rs) row = r ∷ append_row rs row

-- A row as it is inserted, with the defaults of the schema. A sequence gives out a number also to
-- an insertion that ends in the update.
abbrev pub new_row : Table → Text → Text → ℤ → Row
new_row t url host port = record {
  id = t.next_id;
  name = url;
  ip_address = host;
  port = port;
  is_active = true;
  weight = pos 1;
  capacity = pos 10;
}

-- `INSERT ... ON CONFLICT (ip_address, port) DO UPDATE`, by the row at the address.
unfoldable pub insert_or_update : Table → Text → Text → ℤ → Option Row → Table
insert_or_update t url host port none = record {
  rows = append_row t.rows (new_row t url host port);
  next_id = suc t.next_id;
}
insert_or_update t url host port (some _) = record {
  rows = update_rows (has_address host port) (λ row. record row { is_active = true }) t.rows;
  next_id = suc t.next_id;
}

unfoldable pub insert_server : Table → Text → Text → ℤ → Table
unfolding insert_or_update
insert_server t url host port =
    insert_or_update t url host port (find_row (has_address host port) t.rows)

abbrev pub default_port : Text → Text
default_port [] = codes "80"
default_port (c ∷ cs) = c ∷ cs

-- The range of the type INTEGER.
abbrev pub is_integer : ℤ → Bool
is_integer port = ltb_ℤ port (pos (2 ^ 31)) && leb_ℤ (negsuc (2 ^ 31 - 1)) port

-- The second component is whether the query failed.
abbrev pub insert_at : Table → Text → Text → Option ℤ → Table × Bool
insert_at t url host none = (t, true)
insert_at t url host (some port) =
    if is_integer port then (insert_server t url host port, false) else (t, true)

abbrev pub id_of : Option Row → Option ℤ
id_of none = none
id_of (some row) = some (pos row.id)

module _ (urls : Urls) where
  unfoldable pub upsert_server : Table → Text → Table × Bool
  unfolding insert_server
  upsert_server t url = elim (urls.parse_url url) [
    | none ↦ (t, true)
    | some (host, port) ↦ insert_at t url host (atoi (default_port port))
  ]

  -- The text of the port is compared with an integer column.
  unfoldable pub get_server_id : Table → Text → Option ℤ
  get_server_id t url = elim (urls.parse_url url) [
    | none ↦ none
    | some (host, port) ↦ elim (urls.read_integer port) [
      | none ↦ none
      | some number ↦ id_of (find_row (has_address host number) t.rows)
    ]
  ]

abbrev pub has_id : ℤ → Row → Bool
has_id id row = int_eq id (pos row.id)

unfoldable pub update_server_status : Table → ℤ → Bool → Table
update_server_status t id active = record t {
  rows = update_rows (has_id id) (λ row. record row { is_active = active }) t.rows;
}

-- The value with the error, where the row is missing.
unfoldable pub get_server_weight : Table → ℤ → ℤ × Bool
get_server_weight t id = elim (find_row (has_id id) t.rows) [
  | none ↦ (pos 1, true)
  | some row ↦ (row.weight, false)
]

unfoldable pub get_server_capacity : Table → ℤ → ℤ × Bool
get_server_capacity t id = elim (find_row (has_id id) t.rows) [
  | none ↦ (pos 10, true)
  | some row ↦ (row.capacity, false)
]
