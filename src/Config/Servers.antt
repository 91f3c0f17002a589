-- ===== src/Config/Servers.antt =====
-- `parseServerList` of backend/internal/config/config.go.
use neura_balancer.Common.{
  subst, inl, inr, List-cases, ℕ, ◌≡◌, ◌≢◌, ◌∙◌, ap, refl, List, [], ◌∷◌, ◌++◌, All, arith,
}
use neura_balancer.Common.Text.{Text}
use neura_balancer.Common.Text.Fields.{Free}
use neura_balancer.Common.Text.Numbers.{split, split_parts}
use neura_balancer.Common.Text.Spaces.{trim_space}
use neura_balancer.Common.Text.Trimming.{trim_space-trim_space}

-- The parts, trimmed; a blank one is dropped.
unfoldable pub clean_parts : List Text → List Text
clean_parts [] = []
clean_parts (p ∷ ps) =
    let rest = clean_parts ps in elim (trim_space p) [ [] ↦ rest | c ∷ cs ↦ (c ∷ cs) ∷ rest ]

unfoldable pub parse_server_list : Text → List Text
unfolding clean_parts
parse_server_list [] = []
parse_server_list (c ∷ cs) = clean_parts (split b',' (c ∷ cs))

abbrev pub join : ℕ → Text → List Text → Text
join sep t [] = t
join sep t (u ∷ us) = t ++ sep ∷ join sep u us

split_parts-Free :
    (sep : ℕ) (t rest : Text)
    → Free sep t
    → split_parts sep (t ++ sep ∷ rest) ≡ (t, (split_parts sep rest).0 ∷ (split_parts sep rest).1)
unfolding split_parts
split_parts-Free sep [] rest f = ground arith
split_parts-Free sep (c ∷ t) rest f = ground (arith, split_parts-Free sep t rest f.1)

split_parts-last : (sep : ℕ) (t : Text) → Free sep t → split_parts sep t ≡ (t, [])
unfolding split_parts
split_parts-last sep [] f = refl
split_parts-last sep (c ∷ t) f = ground (arith, split_parts-last sep t f.1)

split_parts-join :
    (sep : ℕ) (t : Text) (us : List Text)
    → All (Free sep) (t ∷ us)
    → split_parts sep (join sep t us) ≡ (t, us)
split_parts-join sep t [] f = split_parts-last sep t f.0
split_parts-join sep t (u ∷ us) f =
    split_parts-Free sep t (join sep u us) f.0 ∙ rw (split_parts-join sep u us f.1)

-- A text that is not blank and has no space at its ends.
abbrev pub IsTrimmed : Text → Type 0
IsTrimmed t = (trim_space t ≡ t) × (t ≢ [])

clean_parts-trimmed : (us : List Text) → All IsTrimmed us → clean_parts us ≡ us
unfolding clean_parts
clean_parts-trimmed [] f = refl
clean_parts-trimmed ([] ∷ us) f = absurd (f.0.1 refl)
clean_parts-trimmed ((c ∷ cs) ∷ us) f =
    rw (f.0.0, clean_parts) (ap (λ t. (c ∷ cs) ∷ t) (clean_parts-trimmed us f.1))

join-nonempty : (sep : ℕ) (t : Text) (us : List Text) → t ≢ [] → join sep t us ≢ []
join-nonempty sep [] us h e = h refl
join-nonempty sep (c ∷ cs) [] h e = ground arith
join-nonempty sep (c ∷ cs) (u ∷ us) h e = ground arith

parse_server_list-nonempty : (t : Text) → t ≢ [] → parse_server_list t ≡ clean_parts (split b',' t)
unfolding parse_server_list
parse_server_list-nonempty [] h = absurd (h refl)
parse_server_list-nonempty (c ∷ cs) h = refl

-- A list of server addresses is read back from its comma-separated text, if no address has a
-- comma, is blank, or has a space at its ends.
pub parse_server_list-join :
    (u : Text) (us : List Text)
    → All (Free b',') (u ∷ us)
    → All IsTrimmed (u ∷ us)
    → parse_server_list (join b',' u us) ≡ u ∷ us
unfolding split
parse_server_list-join u us free trimmed =
    parse_server_list-nonempty (join b',' u us) (join-nonempty b',' u us trimmed.0.1)
    ∙ rw (split_parts-join b',' u us free) (clean_parts-trimmed (u ∷ us) trimmed)

IsTrimmed-trim_space : (p : Text) {c : ℕ} {cs : Text} → trim_space p ≡ c ∷ cs → IsTrimmed (c ∷ cs)
IsTrimmed-trim_space p e =
    (subst (λ t. trim_space t ≡ t) e (trim_space-trim_space p), (λ n. absurd (ground arith)))

clean_parts-IsTrimmed : (ps : List Text) → All IsTrimmed (clean_parts ps)
unfolding clean_parts
clean_parts-IsTrimmed [] = tt
clean_parts-IsTrimmed (p ∷ ps) = elim (List-cases (trim_space p)) [
  | inl blank ↦ rw (blank, clean_parts) (clean_parts-IsTrimmed ps)
  | inr (c, cs, e) ↦ rw (e, clean_parts) (IsTrimmed-trim_space p e, clean_parts-IsTrimmed ps)
]

-- No address of a server list is blank or has a space at its ends.
pub parse_server_list-IsTrimmed : (t : Text) → All IsTrimmed (parse_server_list t)
unfolding parse_server_list
parse_server_list-IsTrimmed [] = tt
parse_server_list-IsTrimmed (c ∷ cs) = clean_parts-IsTrimmed (split b',' (c ∷ cs))
