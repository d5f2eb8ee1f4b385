-- ===== src/Tests/Sockets.antt =====
-- A connection to a remote shell that is slow: read() says EAGAIN some times, and then gives the bytes
-- one by one.
use okfs.Base.{ℕ, zero, suc, ◌≡◌, refl, true, false, Option, none, some, [], ◌∷◌, CString, arith}
use okfs.Stat.{Result, ok, err, eio}
use okfs.Shfs.Proc.{
  eagain, ShfsData, take, put_before, took, read_loop, read_end, read_bytes, with_sock, sock_read,
}
use okfs.Shfs.Proc.Incoming.{IsStream, Delivered, sock_read-Delivered}

-- The number of EAGAIN to come, and the bytes
abbrev Slow : Type 0
Slow = ℕ × CString

abbrev slow_read : ℕ → ℕ → Slow → Result CString × Slow
slow_read fd n (suc k, s) = (err eagain, (k, s))
slow_read fd n (zero, []) = (ok [], (0, []))
slow_read fd n (zero, c ∷ s) = (ok (c ∷ []), (0, s))

slow_read-IsStream : (fd : ℕ) → IsStream (λ (w : Slow). w.1) (λ (w : Slow). w.0) (slow_read fd)
slow_read-IsStream fd n (suc k, s) h = (refl, λ e. omega arith)
slow_read-IsStream fd n (zero, []) h = (omega arith, refl, omega arith)
slow_read-IsStream fd n (zero, c ∷ s) h = (omega arith, refl, omega arith)

-- Two bytes are in readlnbuf.
abbrev connected : ShfsData
connected = record {
  sock = some 7;
  garbage = false;
  garbage_read = 0;
  garbage_write = 0;
  readlnbuf = b'a' ∷ b'b' ∷ [];
}

abbrev no_clear : ShfsData → Slow → Option (Result ℕ × ShfsData × Slow)
no_clear info w = none

abbrev incoming : Slow
incoming = (1, b'c' ∷ b'd' ∷ b'e' ∷ [])

four_bytes :
    sock_read slow_read no_clear 9 4 connected incoming
    ≡ some
        (ok (b'a' ∷ b'b' ∷ b'c' ∷ b'd' ∷ []), record connected { readlnbuf = [] }, (0, b'e' ∷ []))
unfolding sock_read with_sock read_bytes take read_loop took put_before read_end
four_bytes = refl

-- The connection ends two bytes early.
two_missing :
    sock_read slow_read no_clear 9 7 connected incoming
    ≡ some (
      err eio,
      record connected { sock = none; garbage = true; garbage_read = 2; readlnbuf = [] },
      (0, []),
    )
unfolding sock_read with_sock read_bytes take read_loop took put_before read_end
two_missing = refl

sock_read-Delivered_example :
    (r : Result CString × ShfsData × Slow) × (sock_read slow_read no_clear 9 7 connected incoming
      ≡ some r)
    × Delivered (λ (w : Slow). w.1) (λ (w : Slow). w.0) 7 connected incoming r
sock_read-Delivered_example =
    sock_read-Delivered (λ (w : Slow). w.1) (λ (w : Slow). w.0) slow_read no_clear 7 9 7 connected
      incoming (slow_read-IsStream 7) refl refl (omega arith)
