-- ===== src/Ml/Callers/Cached.antt =====
-- The predictions that a call chooses by, from the cache or from the model server.
use neura_balancer.Common.{
  ℕ, ◌≡◌, inl, inr, refl, sym, ap, ◌∙◌, Bool, true, false, if◌then◌else◌, Option, none, some, List,
  [], ◌∷◌, length, get_elem?, get_elem?-All, All-set_elem, All-append, All, Ensures, ℤ, subst,
}
use neura_balancer.Common.Float32.{Float32}
use neura_balancer.Common.Text.{Text}
use neura_balancer.Common.Text.Fields.{Free}
use neura_balancer.Metrics.Readings.{Readings}
use neura_balancer.Ml.CacheKey.{build_cache_key, build_cache_key_injective, length-entries}
use neura_balancer.Ml.Callers.{
  Phase, asking, keying, looking, fetching, failing, succeeding, storing, choosing, falling,
  decided, Input, Moved, found_in_cache, look_up, fetched, store, chosen, move, tells, System,
  settle, resume, Turn, calls, moves, step, run,
}
use neura_balancer.Ml.Callers.Breaker.{idle}
use neura_balancer.Ml.CircuitBreaker.{is_open}
use neura_balancer.Ml.CircuitBreaker.Window.{Event}
use neura_balancer.Ml.Exchange as Fetch
use neura_balancer.Ml.Exchange.{Fetched, fetch_predictions, fetch_predictions_accepts}
use neura_balancer.Ml.Lru.{Lru, KeepsEntries}
use neura_balancer.Ml.Scores.{pick_best}
use neura_balancer.Ml.Strategy.{MlStrategy, new_ml_strategy}
use neura_balancer.Server.{Ref, Heap}

module _ (fl : Float32) {D : Type 0} (format_float : D → Text) (lru : Lru (List fl.Carrier))
    (free : (d : D) → Free b'|' (format_float d)) (laws : KeepsEntries lru) where
  -- The key was built for the servers, in some state of theirs.
  abbrev IsKeyOf : List Ref → Text → Type 0
  IsKeyOf rs key = (h : Heap) × (col : Readings D) × (key ≡ build_cache_key format_float h col rs)

  -- What is stored under a key has a score for each server that the key was built for.
  abbrev IsStored : Text → List fl.Carrier → Type 0
  IsStored key ps = (rs : List Ref) × IsKeyOf rs key × (length ps ≡ length rs)

  abbrev IsCacheSound : Option lru.Cache → Type 0
  IsCacheSound none = Unit
  IsCacheSound (some c) =
      (key : Text) (ps : List fl.Carrier) → (lru.get c key).1 ≡ some ps → IsStored key ps

  abbrev IsPhaseSound : Phase fl.Carrier → Type 0
  IsPhaseSound (asking rs) = Unit
  IsPhaseSound (keying rs) = Unit
  IsPhaseSound (looking rs key) = IsKeyOf rs key
  IsPhaseSound (fetching rs key) = IsKeyOf rs key
  IsPhaseSound (failing rs) = Unit
  IsPhaseSound (succeeding rs key ps) = IsKeyOf rs key × (length ps ≡ length rs)
  IsPhaseSound (storing rs key ps) = IsKeyOf rs key × (length ps ≡ length rs)
  IsPhaseSound (choosing rs ps with_fallback) = length ps ≡ length rs
  IsPhaseSound (falling rs) = Unit
  IsPhaseSound (decided p) = Unit

  -- One key is built for lists of one length only.
  same_length :
      (rs qs : List Ref) (key : Text) → IsKeyOf rs key → IsKeyOf qs key → length rs ≡ length qs
  same_length rs qs key (h, col, e) (h', col', e') =
      let same = build_cache_key_injective format_float h h' col col' rs qs free (sym e ∙ e') in
      sym (length-entries format_float h col rs)
      ∙ ap length same
      ∙ length-entries format_float h' col' qs

  abbrev IsMoveSound : Moved fl format_float lru → Type 0
  IsMoveSound out = IsCacheSound out.0.cache × IsPhaseSound out.1

  got-IsCacheSound :
      (c : lru.Cache) (key : Text) → IsCacheSound (some c) → IsCacheSound (some (lru.get c key).0)
  got-IsCacheSound c key sound key' ps e = sound key' ps (laws.get_others c key key' ps e)

  store-IsMoveSound :
      (s : MlStrategy lru.Cache) (rs : List Ref) (key : Text) (ps : List fl.Carrier)
      (cache : Option lru.Cache)
      → IsCacheSound s.cache
      → IsCacheSound cache
      → IsKeyOf rs key
      → length ps ≡ length rs
      → IsMoveSound (store fl format_float lru s rs key ps cache)
  store-IsMoveSound s rs key ps none whole sound is_key count = (whole, tt)
  store-IsMoveSound s rs key ps (some c) whole sound is_key count = (
    λ key' qs e. elim (laws.add_others c key ps key' qs e) [
      | inl (same, that) ↦ (rs, subst (IsKeyOf rs) same is_key, ap length that ∙ count)
      | inr kept ↦ sound key' qs kept
    ],
    count,
  )

  look_up-IsMoveSound :
      (s : MlStrategy lru.Cache) (rs : List Ref) (key : Text) (cache : Option lru.Cache)
      → IsCacheSound s.cache
      → IsCacheSound cache
      → IsKeyOf rs key
      → IsMoveSound (look_up fl format_float lru s rs key cache)
  look_up-IsMoveSound s rs key none whole sound is_key = (whole, tt)
  look_up-IsMoveSound s rs key (some c) whole sound is_key =
      of_found (lru.get c key) (got-IsCacheSound c key sound) (λ ps e. sound key ps e)
    where
      of_found :
          (found : lru.Cache × Option (List fl.Carrier))
          → IsCacheSound (some found.0)
          → ((ps : List fl.Carrier) → found.1 ≡ some ps → IsStored key ps)
          → IsMoveSound (found_in_cache fl format_float lru s rs key found)
      of_found (c', none) kept stored = (kept, is_key)
      of_found (c', some ps) kept stored =
          let (qs, key_of, count) = stored ps refl in
          (kept, count ∙ same_length qs rs key key_of is_key)

  fetched-IsMoveSound :
      (s : MlStrategy lru.Cache) (rs : List Ref) (key : Text) (f : Fetched fl.Carrier)
      → IsCacheSound s.cache
      → IsKeyOf rs key
      → ((ps : List fl.Carrier) → f ≡ Fetch.predictions ps → length ps ≡ length rs)
      → IsMoveSound (fetched fl format_float lru s rs key f)
  fetched-IsMoveSound s rs key (Fetch.predictions ps) sound is_key count =
      (sound, (is_key, count ps refl))
  fetched-IsMoveSound s rs key (Fetch.failed e) sound is_key count = (sound, tt)

  if-IsPhaseSound : (b : Bool) (rs : List Ref) → IsPhaseSound (if b then falling rs else keying rs)
  if-IsPhaseSound true rs = tt
  if-IsPhaseSound false rs = tt

  chosen-IsPhaseSound :
      (rs : List Ref) (with_fallback : Bool) (best : Option Ref)
      → IsPhaseSound (chosen fl format_float lru rs with_fallback best)
  chosen-IsPhaseSound rs with_fallback (some r) = tt
  chosen-IsPhaseSound rs true none = tt
  chosen-IsPhaseSound rs false none = tt

  move-IsMoveSound :
      (x : Input fl.Carrier D) (s : MlStrategy lru.Cache) (p : Phase fl.Carrier)
      → IsCacheSound s.cache
      → IsPhaseSound p
      → Ensures IsMoveSound (move fl format_float lru x s p)
  unfolding move
  move-IsMoveSound x s (asking rs) sound ok =
      (sound, if-IsPhaseSound (is_open s.breaker x.now).1 rs)
  move-IsMoveSound x s (keying rs) sound ok = (sound, (x.heap, x.readings, refl))
  move-IsMoveSound x s (looking rs key) sound ok =
      look_up-IsMoveSound s rs key s.cache sound sound ok
  move-IsMoveSound x s (fetching rs key) sound ok =
      fetched-IsMoveSound s rs key (fetch_predictions x.send x.heap x.readings x.now rs) sound ok
        (λ ps e. ((fetch_predictions_accepts x.send x.heap x.readings x.now rs ps).0 e).1)
  move-IsMoveSound x s (failing rs) sound ok = (sound, tt)
  move-IsMoveSound x s (succeeding rs key ps) sound ok = (sound, ok)
  move-IsMoveSound x s (storing rs key ps) sound ok =
      store-IsMoveSound s rs key ps s.cache sound sound ok.0 ok.1
  move-IsMoveSound x s (choosing rs ps with_fallback) sound ok =
      (sound, chosen-IsPhaseSound rs with_fallback (pick_best fl x.heap rs ps))
  move-IsMoveSound x s (falling rs) sound ok = (sound, tt)
  move-IsMoveSound x s (decided p) sound ok = tt

  abbrev IsSound : System fl format_float lru → Type 0
  IsSound y = IsCacheSound y.strategy.cache × All IsPhaseSound y.callers

  settle-IsSound :
      (y : System fl format_float lru) (i : ℕ) (noted : List (ℕ × Event))
      (out : Option (Moved fl format_float lru))
      → IsSound y
      → Ensures IsMoveSound out
      → IsSound (settle fl format_float lru y i noted out)
  settle-IsSound y i noted none sound done = sound
  settle-IsSound y i noted (some (s', p', told)) sound done =
      (done.0, All-set_elem IsPhaseSound y.callers i p' sound.1 done.1)

  resume-IsSound :
      (y : System fl format_float lru) (i : ℕ) (x : Input fl.Carrier D)
      (o : Option (Phase fl.Carrier))
      → IsSound y
      → Ensures IsPhaseSound o
      → IsSound (resume fl format_float lru y i x o)
  unfolding resume
  resume-IsSound y i x none sound here = sound
  resume-IsSound y i x (some p) sound here =
      settle-IsSound y i (tells fl format_float lru x.now p)
        (move fl format_float lru x y.strategy p) sound
        (move-IsMoveSound x y.strategy p sound.0 here)

  at-IsPhaseSound :
      (ps : List (Phase fl.Carrier)) (i : ℕ)
      → All IsPhaseSound ps
      → Ensures IsPhaseSound (get_elem? ps i)
  at-IsPhaseSound ps i all =
      of_place (get_elem? ps i) (λ p e. get_elem?-All IsPhaseSound ps i all e)
    where
      of_place :
          (o : Option (Phase fl.Carrier))
          → ((p : Phase fl.Carrier) → o ≡ some p → IsPhaseSound p)
          → Ensures IsPhaseSound o
      of_place none h = tt
      of_place (some p) h = h p refl

  run-IsSound :
      (y : System fl format_float lru) (ts : List (Turn fl format_float lru))
      → IsSound y
      → IsSound (run fl format_float lru y ts)
  unfolding run step
  run-IsSound y [] sound = sound
  run-IsSound y (calls rs ∷ ts) sound =
      run-IsSound (step fl format_float lru y (calls rs)) ts
        (sound.0, All-append IsPhaseSound y.callers (asking rs ∷ []) sound.1 (tt, tt))
  run-IsSound y (moves i x ∷ ts) sound =
      run-IsSound (step fl format_float lru y (moves i x)) ts
        (resume-IsSound y i x (get_elem? y.callers i) sound (at-IsPhaseSound y.callers i sound.1))

  new-IsCacheSound :
      (size : ℤ) (cache : Option lru.Cache) → lru.new size ≡ cache → IsCacheSound cache
  new-IsCacheSound size none e = tt
  new-IsCacheSound size (some c) e = λ key ps found.
      absurd (let h : none ≡ some ps = sym (laws.new_empty size c key e) ∙ found in cc)

  -- If the float verb prints no separator, and the cache returns under a key only what was stored
  -- under it, then in every interleaving of any number of calls of a new ML strategy a call that
  -- chooses a server has exactly one score for each of its servers, whether it found the scores in
  -- the cache or got them from the model server.
  pub run-choosing :
      (reset_sec size : ℤ) (ts : List (Turn fl format_float lru)) (i : ℕ) (rs : List Ref)
      (ps : List fl.Carrier) (with_fallback : Bool)
      → get_elem?
          (run fl format_float lru
            (idle fl format_float lru (new_ml_strategy lru reset_sec size))
            ts).callers
          i
        ≡ some (choosing rs ps with_fallback)
      → length ps ≡ length rs
  unfolding new_ml_strategy
  run-choosing reset_sec size ts i rs ps with_fallback here =
      let start = idle fl format_float lru (new_ml_strategy lru reset_sec size) in
      let sound = run-IsSound start ts (new-IsCacheSound size (lru.new size) refl, tt) in
      get_elem?-All IsPhaseSound (run fl format_float lru start ts).callers i sound.1 here
