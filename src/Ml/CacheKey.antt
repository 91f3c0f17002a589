-- ===== src/Ml/CacheKey.antt =====
-- `buildCacheKey` of backend/internal/loadbalancer/ml_strategy.go. `format_float` stands for the
-- verb `%.2f`, of which the proofs use that it prints no separator.
use neura_balancer.Common.{
  suc, ap, length, ℕ, ◌≡◌, ◌≢◌, refl, sym, List, [], ◌∷◌, ◌++◌, All, ℤ, pos, negsuc, arith,
}
use neura_balancer.Common.Text.{
  Text, IsDigit, format_int, format_int_injective, decimal, decimal_digits,
}
use neura_balancer.Common.Text.Fields.{Free, field_injective}
use neura_balancer.Metrics.Readings.{Readings}
use neura_balancer.Server.{Ref, Heap}

module _ {D : Type 0} (format_float : D → Text) where
  unfoldable pub build_cache_key : Heap → Readings D → List Ref → Text
  build_cache_key h col [] = []
  build_cache_key h col (r ∷ rs) =
      let id = (h r).id in
      format_int id
      ++ b'|'
        ∷ (format_float (col.cpu_usage id)
            ++ b'|' ∷ (format_float (col.memory_usage id) ++ b'|' ∷ build_cache_key h col rs))

  -- The identifiers with the two printed readings, in the order of the list.
  abbrev pub entries : Heap → Readings D → List Ref → List (ℤ × Text × Text)
  entries h col [] = []
  entries h col (r ∷ rs) =
      let id = (h r).id in
      (id, format_float (col.cpu_usage id), format_float (col.memory_usage id)) ∷ entries h col rs

pub length-entries :
    {D : Type 0} (ff : D → Text) (h : Heap) (col : Readings D) (rs : List Ref)
    → length (entries ff h col rs) ≡ length rs
length-entries ff h col [] = refl
length-entries ff h col (r ∷ rs) = ap suc (length-entries ff h col rs)

Free-digits : (cs : Text) → All IsDigit cs → Free b'|' cs
Free-digits [] d = tt
Free-digits (c ∷ cs) d = (omega arith, Free-digits cs d.1)

Free-format_int : (a : ℤ) → Free b'|' (format_int a)
unfolding format_int
Free-format_int (pos n) = Free-digits (decimal n) (decimal_digits n)
Free-format_int (negsuc n) = (omega arith, Free-digits (decimal _) (decimal_digits _))

not-nil : (a b : Text) (c : ℕ) → a ++ c ∷ b ≢ []
not-nil [] b c e = cc
not-nil (x ∷ a) b c e = cc

-- If the verb prints no separator, two calls give the same key only for the same identifiers with
-- the same printed readings, in the same order.
pub build_cache_key_injective :
    {D : Type 0} (format_float : D → Text) (h h' : Heap) (col col' : Readings D) (rs qs : List Ref)
    → ((d : D) → Free b'|' (format_float d))
    → build_cache_key format_float h col rs ≡ build_cache_key format_float h' col' qs
    → entries format_float h col rs ≡ entries format_float h' col' qs
unfolding build_cache_key
build_cache_key_injective ff h h' col col' [] [] free e = refl
build_cache_key_injective ff h h' col col' [] (q ∷ qs) free e =
    absurd (not-nil (format_int (h' q).id) _ b'|' (sym e))
build_cache_key_injective ff h h' col col' (r ∷ rs) [] free e =
    absurd (not-nil (format_int (h r).id) _ b'|' e)
build_cache_key_injective ff h h' col col' (r ∷ rs) (q ∷ qs) free e =
    let (ids, e₁) =
      field_injective b'|' _ _ _ _ (Free-format_int (h r).id) (Free-format_int (h' q).id) e in
    let (cpus, e₂) = field_injective b'|' _ _ _ _ (free _) (free _) e₁ in
    let (mems, e₃) = field_injective b'|' _ _ _ _ (free _) (free _) e₂ in
    let rest = build_cache_key_injective ff h h' col col' rs qs free e₃ in
    let same = format_int_injective (h r).id (h' q).id ids in cc
