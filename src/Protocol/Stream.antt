-- ===== src/Protocol/Stream.antt =====
-- A connection as the protocol sees it: the bytes that will still arrive, the bytes that were sent,
-- and whether the writing half is open. Time-outs and resets are an `incoming` that ends early.
use zo_tunnel.Prelude.{
  ℕ, ◌≡◌, Bool, List, [], ◌++◌, Exec, ok, err, arith, leb, length, take, drop, take-append_length,
  drop-append_length, length-append, if◌then◌else◌,
}
use zo_tunnel.Protocol.{Error, io}

pub record Stream : Type 0 where
  pub incoming : List ℕ
  pub outgoing : List ℕ
  pub writable : Bool

-- `reader.read_exact(&mut buf)` for a buffer of `n` bytes; at an early end the bytes are gone.
unfoldable pub read_exact : ℕ → Exec Stream Error (List ℕ)
read_exact n s =
    if leb n (length s.incoming)
    then (ok (take n s.incoming), record s { incoming = drop n s.incoming })
    else (err io, record s { incoming = [] })

-- `writer.write_all(&buf)` and `writer.flush()`
unfoldable pub write_all : List ℕ → Exec Stream Error Unit
write_all buf s =
    if s.writable then (ok tt, record s { outgoing = s.outgoing ++ buf }) else (err io, s)

-- What stands at the front of the stream is what a read of its length returns.
pub read_exact-append :
    (bytes rest out : List ℕ) (w : Bool)
    → read_exact (length bytes) (record { incoming = bytes ++ rest; outgoing = out; writable = w })
      ≡ (ok bytes, record { incoming = rest; outgoing = out; writable = w })
unfolding read_exact
read_exact-append bytes rest out w =
    ground (
      arith,
      take-append_length bytes rest,
      drop-append_length bytes rest,
      length-append bytes rest,
    )
