-- ===== src/Database/Requests/Rates.antt =====
-- The success rate against what the collector was told.
use neura_balancer.Common.{
  ℕ, ◌+◌, ◌*◌, ◌≡◌, sym, ap, ◌∙◌, Bool-cases, true, false, ◌&&◌, if◌then◌else◌, ltb, ◌==◌, inl, inr,
  List, [], ◌∷◌, ℤ, int_eq, arith, eq_of_int_eq,
}
use neura_balancer.Database.{Table}
use neura_balancer.Database.Requests.{
  RequestRow, is_registered, insert_request, in_window, count_rows, success_rate,
}
use neura_balancer.Metrics.Collector.{Collector, Request, Insert, record_request}
use neura_balancer.Metrics.Float64.{Float64}

true_or_false : true ≡ false → ⊥
true_or_false e = cc

module _ (fl : Float64) (millis : fl.Carrier → ℤ) (t : Table) where
  -- The write of one request that the collector has recorded; `InsertRequest` fails silently.
  unfoldable pub store_insert : List RequestRow → ℕ → Insert fl.Carrier → List RequestRow
  store_insert log now (Insert.insert_request id success seconds) =
      (insert_request t log id success (millis seconds) now).0
  store_insert log now (Insert.insert_metrics id cpu mem rate) = log

  -- Requests recorded one after the other, with the times of their writes.
  unfoldable pub record_all :
      Collector fl.Carrier
      → List RequestRow
      → List (ℕ × Request fl.Carrier)
      → Collector fl.Carrier × List RequestRow
  unfolding store_insert
  record_all c log [] = (c, log)
  record_all c log ((now, r) ∷ rs) =
      let (c', written) = record_request fl c r in record_all c' (store_insert log now written) rs

  -- The requests of a server in the window, and those among them that succeeded.
  abbrev pub served : ℤ → ℕ → ℕ → List (ℕ × Request fl.Carrier) → ℕ
  served id seconds now [] = 0
  served id seconds now ((at, r) ∷ rs) =
      (if int_eq id r.server_id && ltb now (at + 1000 * seconds) then 1 else 0)
      + served id seconds now rs

  abbrev pub succeeded : ℤ → ℕ → ℕ → List (ℕ × Request fl.Carrier) → ℕ
  succeeded id seconds now [] = 0
  succeeded id seconds now ((at, r) ∷ rs) =
      (if int_eq id r.server_id && ltb now (at + 1000 * seconds) && r.success then 1 else 0)
      + succeeded id seconds now rs

  abbrev row_of : ℕ → Request fl.Carrier → RequestRow
  row_of at r = record {
    server_id = r.server_id;
    status = r.success;
    response_time_ms = millis r.seconds;
    created_at = at;
  }

  stored :
      (log : List RequestRow) (at : ℕ) (r : Request fl.Carrier) (c : Collector fl.Carrier)
      → is_registered t r.server_id ≡ true
      → store_insert log at (record_request fl c r).1 ≡ row_of at r ∷ log
  unfolding store_insert record_request insert_request
  stored log at r c h = rw (h, store_insert, insert_request)

  not_stored :
      (log : List RequestRow) (at : ℕ) (r : Request fl.Carrier) (c : Collector fl.Carrier)
      → is_registered t r.server_id ≡ false
      → store_insert log at (record_request fl c r).1 ≡ log
  unfolding store_insert record_request insert_request
  not_stored log at r c h = rw (h, store_insert, insert_request)

  -- One stored request changes the two counts of a registered server by what it is.
  counts_stored :
      (log : List RequestRow) (id : ℤ) (seconds now at : ℕ) (r : Request fl.Carrier)
      (c : Collector fl.Carrier)
      → is_registered t id ≡ true
      → ((count_rows (in_window id seconds now) (store_insert log at (record_request fl c r).1)).0
          ≡ (if int_eq id r.server_id && ltb now (at + 1000 * seconds) then 1 else 0)
            + (count_rows (in_window id seconds now) log).0)
        × ((count_rows (in_window id seconds now) (store_insert log at (record_request fl c r).1)).1
            ≡ (if int_eq id r.server_id && ltb now (at + 1000 * seconds) && r.success then 1 else 0)
              + (count_rows (in_window id seconds now) log).1)
  unfolding count_rows in_window
  counts_stored log id seconds now at r c known = elim (Bool-cases (is_registered t r.server_id)) [
    | inl listed ↦ rw (stored log at r c listed) (ground arith)
    | inr unlisted ↦ elim (Bool-cases (int_eq id r.server_id)) [
      | inl same ↦ absurd (
          true_or_false
            (sym known ∙ ap (is_registered t) (eq_of_int_eq id r.server_id same) ∙ unlisted))
      | inr apart ↦ rw (not_stored log at r c unlisted, apart) (omega arith, omega arith)
    ]
  ]

  -- The two counts of a registered server after any recorded requests.
  counts_recorded :
      (c : Collector fl.Carrier) (log : List RequestRow) (rs : List (ℕ × Request fl.Carrier))
      (id : ℤ) (seconds now : ℕ)
      → is_registered t id ≡ true
      → ((count_rows (in_window id seconds now) (record_all c log rs).1).0
          ≡ served id seconds now rs + (count_rows (in_window id seconds now) log).0)
        × ((count_rows (in_window id seconds now) (record_all c log rs).1).1
            ≡ succeeded id seconds now rs + (count_rows (in_window id seconds now) log).1)
  unfolding record_all
  counts_recorded c log [] id seconds now known = (omega arith, omega arith)
  counts_recorded c log ((at, r) ∷ rs) id seconds now known =
      let (c', written) = record_request fl c r in
      let (a, b) = counts_recorded c' (store_insert log at written) rs id seconds now known in
      let (a', b') = counts_stored log id seconds now at r c known in
      (omega (arith, a, a'), omega (arith, b, b'))

  -- The success rate as it is meant: of the requests recorded in the window, and 1 without any.
  abbrev pub intended_rate :
      (ℕ → ℕ → fl.Carrier) → List (ℕ × Request fl.Carrier) → ℤ → ℕ → ℕ → fl.Carrier
  intended_rate ratio rs id seconds now =
      if served id seconds now rs == 0
      then fl.one_value
      else ratio (succeeded id seconds now rs) (served id seconds now rs)

  -- From an empty log, after any requests that the collector has recorded, each with the time at which
  -- it is written, the success rate of a
  -- registered server over a window is the share of its requests in the window that succeeded, and 1
  -- if it has none.
  pub success_rate-record_all :
      (ratio : ℕ → ℕ → fl.Carrier) (c : Collector fl.Carrier) (rs : List (ℕ × Request fl.Carrier))
      (id : ℤ) (seconds now : ℕ)
      → is_registered t id ≡ true
      → success_rate fl ratio (record_all c [] rs).1 id seconds now
        ≡ intended_rate ratio rs id seconds now
  unfolding success_rate count_rows
  success_rate-record_all ratio c rs id seconds now known =
      let (a, b) = counts_recorded c [] rs id seconds now known in
      let a' : (count_rows (in_window id seconds now) (record_all c [] rs).1).0
          ≡ served id seconds now rs =
        omega (arith, a) in
      let b' : (count_rows (in_window id seconds now) (record_all c [] rs).1).1
          ≡ succeeded id seconds now rs =
        omega (arith, b) in
      rw (a', b')
