-- ===== src/Balancer/Proxy/Copy.antt =====
-- `copyResponse` of backend/internal/loadbalancer/balancer.go: the loop that copies the body of a
-- response to the client.
pub mod Complete
use neura_balancer.Common.{
  ℕ, suc, ◌+◌, Bool, true, false, if◌then◌else◌, Option, none, some, List, [], ◌∷◌, ◌++◌, take,
}
use neura_balancer.Common.Text.{Text, codes, text_eq}

-- What the reads of a body return: chunks with no error, then a last chunk with an error, whose text
-- is "EOF" at the end of the body. A body that never ends has no such value.
pub record Body : Type 0 where
  pub chunks : List Text
  pub last : Text
  pub ending : Text

-- The writer: for its n-th write of some bytes, how many it takes and whether it fails.
abbrev pub Sink : Type 0
Sink = ℕ → Text → ℕ × Bool

pub data CopyError : Type 0 where
  write_error : CopyError
  read_error : Text → CopyError

-- The counts of writes and of bytes written, and the bytes that the writer took.
pub record Progress : Type 0 where
  pub writes : ℕ
  pub written : ℕ
  pub delivered : Text

-- `dst.Write(buf[:nr])`, if there is something to write.
unfoldable pub write_chunk : Sink → Progress → Text → Progress × Bool
write_chunk sink p [] = (p, false)
write_chunk sink p (b ∷ bs) =
    let (nw, bad) = sink p.writes (b ∷ bs) in
    (
      record {
        writes = suc p.writes;
        written = p.written + nw;
        delivered = p.delivered ++ take nw (b ∷ bs);
      },
      bad,
    )

unfoldable pub read_result : Text → Option CopyError
read_result ending = if text_eq ending (codes "EOF") then none else some (read_error ending)

-- The loop; a write that fails ends it.
unfoldable pub copy_from : Sink → Progress → List Text → Text → Text → Progress × Option CopyError
unfolding write_chunk read_result
copy_from sink p [] last ending =
    let (p', bad) = write_chunk sink p last in
    (p', if bad then some write_error else read_result ending)
copy_from sink p (c ∷ cs) last ending =
    let (p', bad) = write_chunk sink p c in
    let rest = copy_from sink p' cs last ending in if bad then (p', some write_error) else rest

unfoldable pub copy_response : Sink → Body → Progress × Option CopyError
unfolding copy_from
copy_response sink body =
    copy_from sink (record { writes = 0; written = 0; delivered = [] }) body.chunks body.last
      body.ending
