-- ===== src/Balancer/Proxy/Copy/Complete.antt =====
-- What arrives at the client.
use neura_balancer.Common.{
  ℕ, ◌≤◌, ◌≡◌, ◌∙◌, sym, refl, false, Bool-cases, inl, inr, List, [], ◌∷◌, ◌++◌, length,
  length-append, take, take-length, length-take, arith,
}
use mathlib.Core.List.{append-nil, append_assoc}
use neura_balancer.Common.Text.{Text}
use neura_balancer.Balancer.Proxy.Copy.{
  Body, Sink, Progress, write_chunk, read_result, copy_from, copy_response,
}

abbrev pub joined : List Text → Text → Text
joined [] last = last
joined (c ∷ cs) last = c ++ joined cs last

write_chunk_all :
    (sink : Sink) (p : Progress) (c : Text)
    → ((i : ℕ) (b : Text) → sink i b ≡ (length b, false))
    → ((write_chunk sink p c).1 ≡ false) × ((write_chunk sink p c).0.delivered ≡ p.delivered ++ c)
unfolding write_chunk
write_chunk_all sink p [] all = (refl, sym (append-nil p.delivered))
write_chunk_all sink p (b ∷ bs) all = rw (all p.writes (b ∷ bs)) (refl, rw (take-length (b ∷ bs)))

copy_from_all :
    (sink : Sink) (p : Progress) (cs : List Text) (last ending : Text)
    → ((i : ℕ) (b : Text) → sink i b ≡ (length b, false))
    → ((copy_from sink p cs last ending).0.delivered ≡ p.delivered ++ joined cs last)
      × ((copy_from sink p cs last ending).1 ≡ read_result ending)
unfolding copy_from
copy_from_all sink p [] last ending all =
    let (ok, out) = write_chunk_all sink p last all in (out, rw ok)
copy_from_all sink p (c ∷ cs) last ending all =
    let (ok, out) = write_chunk_all sink p c all in
    let (rest, end) = copy_from_all sink (write_chunk sink p c).0 cs last ending all in
    rw ok (rest ∙ rw out (append_assoc p.delivered c (joined cs last)), end)

write_chunk_counts :
    (sink : Sink) (p : Progress) (c : Text)
    → ((i : ℕ) (b : Text) → (sink i b).0 ≤ length b)
    → p.written ≡ length p.delivered
    → (write_chunk sink p c).0.written ≡ length (write_chunk sink p c).0.delivered
unfolding write_chunk
write_chunk_counts sink p [] law e = e
write_chunk_counts sink p (b ∷ bs) law e = omega (
  arith,
  length-append p.delivered (take (sink p.writes (b ∷ bs)).0 (b ∷ bs)),
  length-take (sink p.writes (b ∷ bs)).0 (b ∷ bs) (law p.writes (b ∷ bs)),
)

copy_from_counts :
    (sink : Sink) (p : Progress) (cs : List Text) (last ending : Text)
    → ((i : ℕ) (b : Text) → (sink i b).0 ≤ length b)
    → p.written ≡ length p.delivered
    → (copy_from sink p cs last ending).0.written
      ≡ length (copy_from sink p cs last ending).0.delivered
unfolding copy_from
copy_from_counts sink p [] last ending law e = write_chunk_counts sink p last law e
copy_from_counts sink p (c ∷ cs) last ending law e =
    let kept = write_chunk_counts sink p c law e in
    elim (Bool-cases (write_chunk sink p c).1) [
      | inl bad ↦ rw bad kept
      | inr ok ↦ rw ok (copy_from_counts sink (write_chunk sink p c).0 cs last ending law kept)
    ]

-- If the client takes every write whole, it gets the chunks of the body in order and nothing else,
-- and the copy ends with no error exactly where the body ends in "EOF".
pub copy_response_all :
    (sink : Sink) (body : Body)
    → ((i : ℕ) (b : Text) → sink i b ≡ (length b, false))
    → ((copy_response sink body).0.delivered ≡ joined body.chunks body.last)
      × ((copy_response sink body).1 ≡ read_result body.ending)
unfolding copy_response
copy_response_all sink body all =
    copy_from_all sink (record { writes = 0; written = 0; delivered = [] }) body.chunks body.last
      body.ending all

-- If no write takes more than it is given, the count that is returned is that of the bytes that the
-- client took, on the error paths too.
pub copy_response_counts :
    (sink : Sink) (body : Body)
    → ((i : ℕ) (b : Text) → (sink i b).0 ≤ length b)
    → (copy_response sink body).0.written ≡ length (copy_response sink body).0.delivered
unfolding copy_response
copy_response_counts sink body law =
    copy_from_counts sink (record { writes = 0; written = 0; delivered = [] }) body.chunks body.last
      body.ending law refl
