-- ===== src/Ml/Lru.antt =====
-- The least-recently-used cache of the library golang-lru, which
-- backend/internal/loadbalancer/ml_strategy.go uses for predictions: its documented behaviour.
use neura_balancer.Common.{
  zero, suc, ◌≡◌, ◌⊎◌, inl, inr, refl, Bool-cases, Option, none, some, ℤ, pos, negsuc, pos_part,
  if◌then◌else◌, arith,
}
use neura_balancer.Common.Text.{Text, text_eq, text_eq_refl, eq_of_text_eq}

pub record Lru (V : Type 0) : Type 1 where
  pub Cache : Type 0
  -- `lru.New`: for a size that is not positive, no cache that can be used.
  pub new : ℤ → Option Cache
  pub get : Cache → Text → Cache × Option V
  pub add : Cache → Text → V → Cache
  pub new_refused : (size : ℤ) → pos_part size ≡ 0 → new size ≡ none
  pub get-add : (c : Cache) (key : Text) (v : V) → (get (add c key v) key).1 ≡ some v

-- A cache gives only what was put into it, and a new one has nothing.
pub record KeepsEntries {V : Type 0} (lru : Lru V) : Type 0 where
  pub new_empty :
      (size : ℤ) (c : lru.Cache) (key : Text) → lru.new size ≡ some c → (lru.get c key).1 ≡ none
  pub get_others :
      (c : lru.Cache) (key key' : Text) (v : V)
      → (lru.get (lru.get c key).0 key').1 ≡ some v
      → (lru.get c key').1 ≡ some v
  pub add_others :
      (c : lru.Cache) (key : Text) (v : V) (key' : Text) (w : V)
      → (lru.get (lru.add c key v) key').1 ≡ some w
      → ((key ≡ key') × (w ≡ v)) ⊎ ((lru.get c key').1 ≡ some w)

-- A cache that holds one entry, for tests.
module _ (V : Type 0) where
  abbrev pub one_new : ℤ → Option (Option (Text × V))
  one_new (pos zero) = none
  one_new (pos (suc n)) = some none
  one_new (negsuc n) = none

  abbrev pub one_get : Option (Text × V) → Text → Option (Text × V) × Option V
  one_get none key = (none, none)
  one_get (some (k, v)) key = (some (k, v), if text_eq k key then some v else none)

  pub one_refused : (size : ℤ) → pos_part size ≡ 0 → one_new size ≡ none
  one_refused (pos zero) e = refl
  one_refused (pos (suc n)) e = absurd (omega arith)
  one_refused (negsuc n) e = refl

  pub one_get-add :
      (c : Option (Text × V)) (key : Text) (v : V) → (one_get (some (key, v)) key).1 ≡ some v
  one_get-add c key v = rw (text_eq_refl key)

abbrev pub one_entry : (V : Type 0) → Lru V
one_entry V = record {
  Cache = Option (Text × V);
  new = one_new V;
  get = one_get V;
  add = λ c key v. some (key, v);
  new_refused = one_refused V;
  get-add = one_get-add V;
}

module _ (V : Type 0) where
  one_new_empty :
      (size : ℤ) (c : Option (Text × V)) (key : Text)
      → one_new V size ≡ some c
      → (one_get V c key).1 ≡ none
  one_new_empty (pos zero) c key e = cc
  one_new_empty (pos (suc n)) none key e = refl
  one_new_empty (pos (suc n)) (some x) key e = cc
  one_new_empty (negsuc n) c key e = cc

  one_get_others :
      (c : Option (Text × V)) (key key' : Text) (v : V)
      → (one_get V (one_get V c key).0 key').1 ≡ some v
      → (one_get V c key').1 ≡ some v
  one_get_others none key key' v e = e
  one_get_others (some x) key key' v e = e

  one_add_others :
      (c : Option (Text × V)) (key : Text) (v : V) (key' : Text) (w : V)
      → (one_get V (some (key, v)) key').1 ≡ some w
      → ((key ≡ key') × (w ≡ v)) ⊎ ((one_get V c key').1 ≡ some w)
  one_add_others c key v key' w = elim (Bool-cases (text_eq key key')) [
    | inl same ↦ rw same (λ e. inl (eq_of_text_eq key key' same, cc))
    | inr apart ↦ rw apart (λ e. cc)
  ]

  pub one_entry-KeepsEntries : KeepsEntries (one_entry V)
  one_entry-KeepsEntries = record {
    new_empty = one_new_empty;
    get_others = one_get_others;
    add_others = one_add_others;
  }
