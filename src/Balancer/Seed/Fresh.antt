-- ===== src/Balancer/Seed/Fresh.antt =====
-- The servers that a balancer starts with.
use neura_balancer.Common.{
  ℕ, zero, suc, ◌+◌, ◌≤◌, ◌<◌, ◌≡◌, ◌≢◌, ◌⊎◌, inl, inr, refl, ap, true, some, Option-cases, List,
  [], ◌∷◌, length, get_elem?, List-cases, All-get_elem?, negsuc, All, arith,
}
use neura_balancer.Common.Text.{Text}
use neura_balancer.Common.Text.Spaces.{trim_space}
use neura_balancer.Balancer.{healthy}
use neura_balancer.Balancer.Seed.{
  ServerTable, seed_server, seed_from, at, refs_from, place, new_balancer,
}
use neura_balancer.Server.{Server, Heap}

-- A server with a URL, alive and with no request open.
abbrev pub IsFresh : Server → Type 0
IsFresh s = (s.alive ≡ true) × (s.connections ≡ 0) × (s.url ≢ [])

module _ (db : ServerTable) (table : db.Table) (n : ℕ) (raw : Text) (raws : List Text) where
  seed_from_blank :
      trim_space raw ≡ [] → seed_from db table n (raw ∷ raws) ≡ seed_from db table n raws
  unfolding seed_from
  seed_from_blank e = rw (e, seed_from)

  pub seed_from_url :
      (c : ℕ) (cs : Text)
      → trim_space raw ≡ c ∷ cs
      → let table' = db.upsert_server table (c ∷ cs) in
        seed_from db table n (raw ∷ raws)
        ≡ seed_server db table' n (c ∷ cs) ∷ seed_from db table' (suc n) raws
  unfolding seed_from
  seed_from_url c cs e = rw (e, seed_from) (rw e)

seed_from-IsFresh :
    (db : ServerTable) (table : db.Table) (n : ℕ) (urls : List Text)
    → All IsFresh (seed_from db table n urls)
unfolding seed_from seed_server
seed_from-IsFresh db table n [] = tt
seed_from-IsFresh db table n (raw ∷ raws) = elim (List-cases (trim_space raw)) [
  | inl blank ↦ rw (seed_from_blank db table n raw raws blank) (seed_from-IsFresh db table n raws)
  | inr (c, cs, e) ↦
      rw (seed_from_url db table n raw raws c cs e)
        ((refl, refl, λ f. cc), seed_from-IsFresh db (db.upsert_server table (c ∷ cs)) (suc n) raws)
]

-- The n-th server has the identifier -(n + 1), or one that the database gave for its URL.
abbrev pub IsNumbered : ServerTable → ℕ → List Server → Type 0
IsNumbered db n [] = Unit
IsNumbered db n (s ∷ ss) =
    ((s.id ≡ negsuc n) ⊎ ((t : db.Table) × (db.get_server_id t s.url ≡ some s.id)))
    × IsNumbered db (suc n) ss

id-seed_server :
    (db : ServerTable) (table : db.Table) (n : ℕ) (url : Text)
    → let s = seed_server db table n url in
      (s.id ≡ negsuc n) ⊎ ((t : db.Table) × (db.get_server_id t s.url ≡ some s.id))
unfolding seed_server
id-seed_server db table n url = elim (Option-cases (db.get_server_id table url)) [
  | inl missing ↦ inl (rw missing)
  | inr (id, found) ↦ inr (table, rw found)
]

seed_from-IsNumbered :
    (db : ServerTable) (table : db.Table) (n : ℕ) (urls : List Text)
    → IsNumbered db n (seed_from db table n urls)
unfolding seed_from
seed_from-IsNumbered db table n [] = tt
seed_from-IsNumbered db table n (raw ∷ raws) = elim (List-cases (trim_space raw)) [
  | inl blank ↦
      rw (seed_from_blank db table n raw raws blank) (seed_from-IsNumbered db table n raws)
  | inr (c, cs, e) ↦ rw (seed_from_url db table n raw raws c cs e) (
    id-seed_server db (db.upsert_server table (c ∷ cs)) n (c ∷ cs),
    seed_from-IsNumbered db (db.upsert_server table (c ∷ cs)) (suc n) raws,
  )
]

keep_refs :
    (h : Heap) (i n : ℕ)
    → ((j : ℕ) → i ≤ j → j < i + n → (h j).alive ≡ true)
    → healthy h (refs_from i n) ≡ refs_from i n
unfolding healthy
keep_refs h i zero up = refl
keep_refs h i (suc n) up =
    rw (up i (omega arith) (omega arith))
      (ap (λ t. i ∷ t) (keep_refs h (suc i) n (λ j l u. up j (omega arith) (omega arith))))

healthy-place :
    {S : Type 0} (seeded : List Server) (s : S)
    → All IsFresh seeded
    → healthy (place seeded s).heap (place seeded s).servers ≡ (place seeded s).servers
unfolding place
healthy-place seeded s fresh =
    keep_refs (λ r. at (get_elem? seeded r)) 0 (length seeded)
      (λ j _ u. let (t, e, f) = All-get_elem? IsFresh seeded j fresh (omega arith) in rw e f.0)

-- Every server that a balancer starts with is alive, has no open request and a URL that is not
-- blank; its identifier is that of the database or the negative of its place, counted from 1.
pub seed_from_lem :
    (db : ServerTable) (table : db.Table) (urls : List Text)
    → All IsFresh (seed_from db table 0 urls) × IsNumbered db 0 (seed_from db table 0 urls)
seed_from_lem db table urls =
    (seed_from-IsFresh db table 0 urls, seed_from-IsNumbered db table 0 urls)

-- At the start every server of the balancer counts as healthy.
pub healthy-new_balancer :
    {S : Type 0} (db : ServerTable) (table : db.Table) (urls : List Text) (s : S)
    → healthy (new_balancer db table urls s).heap (new_balancer db table urls s).servers
      ≡ (new_balancer db table urls s).servers
unfolding new_balancer
healthy-new_balancer db table urls s =
    healthy-place (seed_from db table 0 urls) s (seed_from-IsFresh db table 0 urls)
