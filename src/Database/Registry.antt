-- ===== src/Database/Registry.antt =====
-- The registry as a map from addresses to rows, and the identifiers that the balancer gets from it.
use neura_balancer.Common.{
  ℕ, ◌≡◌, refl, sym, ap, ◌∙◌, Bool, Bool-cases, true, false, inl, inr, Option, none, some, List, [],
  ◌∷◌, ℤ, pos, negsuc, int_eq_refl, arith,
}
use neura_balancer.Balancer.Seed.{ServerTable, seed_server}
use neura_balancer.Common.Text.{Text, text_eq_refl}
use neura_balancer.Common.Text.Numbers.{atoi, digits, digits_from, to_int}
use neura_balancer.Database.{
  Urls, Row, Table, has_address, find_row, update_rows, append_row, new_row, insert_or_update,
  insert_server, default_port, is_integer, upsert_server, id_of, get_server_id, get_server_weight,
  get_server_capacity,
}

find_row-append_row :
    (p : Row → Bool) (rows : List Row) (row : Row)
    → find_row p rows ≡ none
    → p row ≡ true
    → find_row p (append_row rows row) ≡ some row
find_row-append_row p [] row missing h = rw h
find_row-append_row p (r ∷ rs) row missing h = elim (Bool-cases (p r)) [
  | inl found ↦ absurd (ground (arith, missing, found))
  | inr other ↦ rw other (find_row-append_row p rs row (sym (rw other) ∙ missing) h)
]

abbrev map_row : (Row → Row) → Option Row → Option Row
map_row f none = none
map_row f (some r) = some (f r)

find_row-update_rows :
    (p : Row → Bool) (f : Row → Row) (rows : List Row) (row : Row)
    → ((r : Row) → p (f r) ≡ p r)
    → find_row p rows ≡ some row
    → find_row p (update_rows p f rows) ≡ some (f row)
find_row-update_rows p f [] row keeps h = cc
find_row-update_rows p f (r ∷ rs) row keeps h = elim (Bool-cases (p r)) [
  | inl found ↦ rw (found, keeps r, found) (ap (map_row f) (rw found at h))
  | inr other ↦ rw (other, other) (find_row-update_rows p f rs row keeps (sym (rw other) ∙ h))
]

-- What a registration makes of the row at its address.
abbrev pub registered : Table → Text → Text → ℤ → Option Row → Row
registered t url host port none = new_row t url host port
registered t url host port (some row) = record row { is_active = true }

find_row-insert_or_update :
    (t : Table) (url host : Text) (port : ℤ) (at : Option Row)
    → find_row (has_address host port) t.rows ≡ at
    → find_row (has_address host port) (insert_or_update t url host port at).rows
      ≡ some (registered t url host port at)
unfolding insert_or_update
find_row-insert_or_update t url host port none missing =
    find_row-append_row (has_address host port) t.rows (new_row t url host port) missing
      (rw (text_eq_refl host, int_eq_refl port))
find_row-insert_or_update t url host port (some row) found =
    find_row-update_rows (has_address host port) (λ row. record row { is_active = true }) t.rows row
      (λ r. refl) found

-- After a registration, the row at the address is the one before it, active again, or a new one
-- with the defaults.
pub find_row-insert_server :
    (t : Table) (url host : Text) (port : ℤ)
    → find_row (has_address host port) (insert_server t url host port).rows
      ≡ some (registered t url host port (find_row (has_address host port) t.rows))
unfolding insert_server
find_row-insert_server t url host port =
    find_row-insert_or_update t url host port (find_row (has_address host port) t.rows) refl

module _ (urls : Urls) where
  upsert_server-at :
      (t : Table) (url host p : Text) (port : ℤ)
      → urls.parse_url url ≡ some (host, p)
      → atoi (default_port p) ≡ some port
      → is_integer port ≡ true
      → upsert_server urls t url ≡ (insert_server t url host port, false)
  unfolding upsert_server
  upsert_server-at t url host p port parsed number fits = rw (parsed, upsert_server, number, fits)

  get_server_id-at :
      (t : Table) (url host p : Text) (port : ℤ)
      → urls.parse_url url ≡ some (host, p)
      → urls.read_integer p ≡ some port
      → get_server_id urls t url ≡ id_of (find_row (has_address host port) t.rows)
  unfolding get_server_id
  get_server_id-at t url host p port parsed read = rw (parsed, get_server_id, read)

  -- A URL with a port, registered and then looked up, has an identifier: the one of the row at its
  -- address before, and else the next one. The database must read the port as Go does.
  pub get_server_id-upsert_server :
      (t : Table) (url host : Text) (c : ℕ) (cs : Text) (port : ℤ)
      → urls.parse_url url ≡ some (host, c ∷ cs)
      → atoi (c ∷ cs) ≡ some port
      → urls.read_integer (c ∷ cs) ≡ some port
      → is_integer port ≡ true
      → get_server_id urls (upsert_server urls t url).0 url
        ≡ some (pos (registered t url host port (find_row (has_address host port) t.rows)).id)
  get_server_id-upsert_server t url host c cs port parsed number read fits =
      ap (λ r. get_server_id urls r.0 url)
        (upsert_server-at t url host (c ∷ cs) port parsed number fits)
      ∙ get_server_id-at (insert_server t url host port) url host (c ∷ cs) port parsed read
      ∙ ap id_of (find_row-insert_server t url host port)

  -- The queries as the table that the balancer starts from.
  abbrev value_of : ℤ × Bool → Option ℤ
  value_of (v, true) = none
  value_of (v, false) = some v

  abbrev pub registry : ServerTable
  registry = record {
    Table = Table;
    upsert_server = λ t url. (upsert_server urls t url).0;
    get_server_id = get_server_id urls;
    get_server_capacity = λ t id. value_of (get_server_capacity t id);
    get_server_weight = λ t id. value_of (get_server_weight t id);
  }

  get_server_id-no_port :
      (t : Table) (url host : Text)
      → urls.parse_url url ≡ some (host, [])
      → urls.read_integer [] ≡ none
      → get_server_id urls t url ≡ none
  unfolding get_server_id
  get_server_id-no_port t url host parsed empty = rw (parsed, get_server_id, empty)

  -- A URL without a port is never found, also where it has just been registered, at port 80: the
  -- balancer gives its server a negative identifier, and its weight and capacity are the defaults.
  -- The empty text must not be an integer for the database.
  pub seed_server-no_port :
      (t : Table) (n : ℕ) (url host : Text)
      → urls.parse_url url ≡ some (host, [])
      → urls.read_integer [] ≡ none
      → (upsert_server urls t url ≡ (insert_server t url host (pos 80), false))
        × ((seed_server registry (upsert_server urls t url).0 n url).id ≡ negsuc n)
        × ((seed_server registry (upsert_server urls t url).0 n url).weight ≡ pos 1)
        × ((seed_server registry (upsert_server urls t url).0 n url).capacity ≡ pos 10)
  unfolding seed_server atoi digits digits_from to_int
  seed_server-no_port t n url host parsed empty =
      let lost = get_server_id-no_port (upsert_server urls t url).0 url host parsed empty in
      (
        upsert_server-at t url host [] (pos 80) parsed refl refl,
        rw lost,
        rw lost (ground arith),
        rw lost (ground arith),
      )
