-- ===== src/Ml/Scores.antt =====
-- `pickBest` of backend/internal/loadbalancer/ml_strategy.go.
use neura_balancer.Common.{
  true, false, ◌&&◌, Bool-cases, ◌≡◌, refl, ap, ◌⊎◌, inl, inr, Option, none, some, List, [], ◌∷◌,
  All, In, if◌then◌else◌, arith,
}
use neura_balancer.Common.Float32.{Float32, lt_asymm}
use neura_balancer.Server.{Ref, Heap, can_accept_request}

module _ (fl : Float32) (h : Heap) where
  open fl use {Carrier, lt, max_value}

  -- The loop, from the best server and score so far.
  unfoldable pub scan : Option Ref → Carrier → List Ref → List Carrier → Option Ref
  scan best best_score [] ps = best
  scan best best_score (r ∷ rs) [] = best
  scan best best_score (r ∷ rs) (p ∷ ps) =
      let better = can_accept_request (h r) && lt p best_score in
      scan (if better then some r else best) (if better then p else best_score) rs ps

  unfoldable pub pick_best : List Ref → List Carrier → Option Ref
  pick_best servers predictions = scan none max_value servers predictions

  -- The servers with their scores, as far as there are both.
  abbrev pub scored : List Ref → List Carrier → List (Ref × Carrier)
  scored [] ps = []
  scored (r ∷ rs) [] = []
  scored (r ∷ rs) (p ∷ ps) = (r, p) ∷ scored rs ps

  -- No server with headroom has a score below `bound`.
  abbrev pub NoneBelow : Carrier → List (Ref × Carrier) → Type 0
  NoneBelow bound = All (λ e. (can_accept_request (h e.0) && lt e.1 bound) ≡ false)

  -- `r` has headroom and a score below `bound`, and no server with headroom has a lower one.
  abbrev pub BestBelow : Carrier → List (Ref × Carrier) → Ref → Type 0
  BestBelow bound es r =
      (p : Carrier) × In (r, p) es
      × (can_accept_request (h r) ≡ true)
      × (lt p bound ≡ true)
      × NoneBelow p es

  scan_lem :
      (best : Option Ref) (score : Carrier) (rs : List Ref) (ps : List Carrier)
      → ((scan best score rs ps ≡ best) × NoneBelow score (scored rs ps))
        ⊎ ((r : Ref) × (scan best score rs ps ≡ some r) × BestBelow score (scored rs ps) r)
  unfolding scan
  scan_lem best score [] ps = inl (refl, tt)
  scan_lem best score (r ∷ rs) [] = inl (refl, tt)
  scan_lem best score (r ∷ rs) (p ∷ ps) =
      elim (Bool-cases (can_accept_request (h r) && lt p score)) [
        | inl better ↦ elim (scan_lem (some r) p rs ps) [
          | inl (e, n) ↦ inr (
            r,
            rw better e,
            (p, inl refl, ground arith, ground arith, (ground (arith, fl.lt_irrefl p), n)),
          )
          | inr (q, e, b) ↦ inr (
            q,
            rw better e,
            (
              b.0,
              inr b.1,
              b.2,
              ground (arith, fl.lt_trans b.0 p score),
              (ground (arith, lt_asymm fl b.0 p), b.4),
            ),
          )
        ]
        | inr same ↦ elim (scan_lem best score rs ps) [
          | inl (e, n) ↦ inl (rw same e, (same, n))
          | inr (q, e, b) ↦ inr (
            q,
            rw same e,
            (b.0, inr b.1, b.2, b.3, (ground (arith, fl.lt_trans p b.0 score), b.4)),
          )
        ]
      ]

  -- Either no server with headroom has a score below the largest finite value and there is no pick,
  -- or the pick has headroom and the lowest score among the servers that have.
  pub pick_best_cases :
      (servers : List Ref) (predictions : List Carrier)
      → ((pick_best servers predictions ≡ none) × NoneBelow max_value (scored servers predictions))
        ⊎ ((r : Ref) × (pick_best servers predictions ≡ some r)
            × BestBelow max_value (scored servers predictions) r)
  unfolding pick_best
  pick_best_cases servers predictions = scan_lem none max_value servers predictions

  In-scored :
      (r : Ref) (p : Carrier) (rs : List Ref) (ps : List Carrier)
      → In (r, p) (scored rs ps)
      → In r rs
  In-scored r p [] ps i = elim i [ ]
  In-scored r p (q ∷ rs) [] i = elim i [ ]
  In-scored r p (q ∷ rs) (x ∷ ps) (inl e) = inl (ap (λ t. t.0) e)
  In-scored r p (q ∷ rs) (x ∷ ps) (inr i) = inr (In-scored r p rs ps i)

  -- A pick is one of the servers, and has headroom.
  pub pick_best-In :
      (servers : List Ref) (predictions : List Carrier) {r : Ref}
      → pick_best servers predictions ≡ some r
      → In r servers × (can_accept_request (h r) ≡ true)
  pick_best-In servers predictions {r} e = elim (pick_best_cases servers predictions) [
    | inl (n, _) ↦ absurd (cc)
    | inr (q, f, b) ↦
        let same : q ≡ r = cc in rw (← same) (In-scored q b.0 servers predictions b.1, b.2)
  ]

  -- Where no server has headroom there is no pick.
  scan_full :
      (score : Carrier) (rs : List Ref) (ps : List Carrier)
      → All (λ r. can_accept_request (h r) ≡ false) rs
      → scan none score rs ps ≡ none
  unfolding scan
  scan_full score [] ps f = refl
  scan_full score (r ∷ rs) [] f = refl
  scan_full score (r ∷ rs) (p ∷ ps) f = rw f.0 (scan_full score rs ps f.1)

  pub pick_best_full :
      (servers : List Ref) (predictions : List Carrier)
      → All (λ r. can_accept_request (h r) ≡ false) servers
      → pick_best servers predictions ≡ none
  unfolding pick_best
  pick_best_full servers predictions f = scan_full max_value servers predictions f
