-- ===== src/Shfs/Proc.antt =====
-- sock_write and sock_read of proc.c: bytes go to the remote shell and come from it. The calls write()
-- and read() of the system are arguments. `clear` is clear_garbage, which calls both functions itself,
-- each time with the mark `garbage` taken away, so that they do not call it again. Each loop goes
-- round on fuel, as EAGAIN has no bound of its own; `none` is a run that needs more.
pub mod Incoming
use okfs.Base.{
  ℕ, zero, suc, ◌-◌, Bool, true, false, Option, none, some, [], ◌∷◌, ◌++◌, ◌==◌, ltb, leb,
  if◌then◌else◌, CString, length, drop,
}
use okfs.Stat.{Result, ok, err, eio}
use okfs.Vfs.{Op}

-- EAGAIN
abbrev pub eagain : ℕ
eagain = 11

-- struct shfs_data, as far as proc.c uses it. `sock` is `none` where it is negative; `readlnbuf` are
-- the first readlnbuf_len bytes of that buffer.
pub record ShfsData : Type 0 where
  pub sock : Option ℕ
  pub garbage : Bool
  pub garbage_read : ℕ
  pub garbage_write : ℕ
  pub readlnbuf : CString

-- How a loop over read() or write() ended: the bytes that were read, the error if there was one, and
-- the value of c.
pub record Transfer (W : Type 0) : Type 0 where
  pub bytes : CString
  pub error : Option ℕ
  pub left : ℕ
  pub world : W

-- set_garbage
abbrev pub set_garbage : ShfsData → (write : Bool) → ℕ → ShfsData
set_garbage info write count =
    if write
    then record info { garbage = true; garbage_write = count }
    else record info { garbage = true; garbage_read = count }

-- The first n characters
unfoldable pub take : ℕ → CString → CString
take zero s = []
take (suc n) [] = []
take (suc n) (c ∷ s) = c ∷ take n s

-- info->sock = -1, and set_garbage
abbrev pub hang_up : (write : Bool) → ℕ → ShfsData → ShfsData
hang_up write left info = record (set_garbage info write left) { sock = none }

module _ {W : Type 0} where
  -- What was read before, in front of what the rest of the loop reads
  unfoldable pub put_before : CString → Option (Transfer W) → Option (Transfer W)
  put_before bs none = none
  put_before bs (some t) = some (record t { bytes = bs ++ t.bytes })

  -- One round of the loop in sock_read, after read(): no byte is the end of the connection.
  unfoldable pub took :
      (again : ℕ → W → Option (Transfer W)) → ℕ → Result CString × W → Option (Transfer W)
  unfolding put_before
  took again c (ok [], w) = some (record { bytes = []; error = some eio; left = c; world = w })
  took again c (ok (b ∷ bs), w) =
      let rest = put_before (b ∷ bs) (again (c - length (b ∷ bs)) w) in
      if leb c (length (b ∷ bs))
      then some (record { bytes = b ∷ bs; error = none; left = 0; world = w })
      else rest
  took again c (err e, w) =
      let retry = again c w in
      if e == eagain
      then retry
      else some (record { bytes = []; error = some e; left = c; world = w })

  -- The loop of sock_read, with c bytes to go
  unfoldable pub read_loop : (read : ℕ → Op W CString) (fuel c : ℕ) → W → Option (Transfer W)
  unfolding took
  read_loop read zero c w = none
  read_loop read (suc fuel) c w = took (read_loop read fuel) c (read c w)

  -- What sock_read does once the loop is left
  unfoldable pub read_end :
      ShfsData → CString → Option (Transfer W) → Option (Result CString × ShfsData × W)
  read_end info first none = none
  read_end info first (some t) = elim t.error [
    | none ↦ some (ok (first ++ t.bytes), info, t.world)
    | some e ↦ some (err e, hang_up false t.left info, t.world)
  ]

  -- sock_read behind the test of `garbage`: the bytes in readlnbuf first, and read() for what is
  -- missing.
  unfoldable pub read_bytes :
      (read : ℕ → Op W CString) (fuel count : ℕ)
      → ShfsData
      → W
      → Option (Result CString × ShfsData × W)
  unfolding take read_loop read_end
  read_bytes read fuel count info w =
      let first = take count info.readlnbuf in
      let info' = record info { readlnbuf = drop count info.readlnbuf } in
      let c = count - length first in
      if c == 0 then some (ok first, info', w) else read_end info' first (read_loop read fuel c w)

  -- What follows clear_garbage
  unfoldable pub after_clear :
      {A : Type 0} (go : ShfsData → W → Option (Result A × ShfsData × W))
      → Option (Result ℕ × ShfsData × W)
      → Option (Result A × ShfsData × W)
  after_clear go none = none
  after_clear go (some (err e, info, w)) = some (err e, info, w)
  after_clear go (some (ok n, info, w)) = go info w

  -- The start of sock_read and sock_write: a closed socket, and garbage that is cleared first.
  unfoldable pub with_sock :
      {A : Type 0} (clear : ShfsData → W → Option (Result ℕ × ShfsData × W))
      → (ℕ → ShfsData → W → Option (Result A × ShfsData × W))
      → ShfsData
      → W
      → Option (Result A × ShfsData × W)
  unfolding after_clear
  with_sock clear go info w = elim info.sock [
    | none ↦ some (err eio, info, w)
    | some fd ↦ if info.garbage then after_clear (go fd) (clear info w) else go fd info w
  ]

  -- sock_read
  unfoldable pub sock_read :
      (read : ℕ → ℕ → Op W CString) (clear : ShfsData → W → Option (Result ℕ × ShfsData × W))
      (fuel count : ℕ)
      → ShfsData
      → W
      → Option (Result CString × ShfsData × W)
  unfolding with_sock read_bytes
  sock_read read clear fuel count = with_sock clear (λ fd. read_bytes (read fd) fuel count)

  -- One round of the loop in sock_write, after write(): the bytes that are not written yet go on.
  unfoldable pub wrote :
      (again : CString → W → Option (Transfer W)) → CString → Result ℕ × W → Option (Transfer W)
  wrote again buffer (ok n, w) =
      let rest = again (drop n buffer) w in
      if leb (length buffer) n
      then some (record { bytes = []; error = none; left = 0; world = w })
      else rest
  wrote again buffer (err e, w) =
      let retry =
        if length buffer == 0
        then some (record { bytes = []; error = some e; left = 0; world = w })
        else again buffer w in
      if e == eagain
      then retry
      else some (record { bytes = []; error = some e; left = length buffer; world = w })

  -- The loop of sock_write
  unfoldable pub write_loop :
      (write : CString → Op W ℕ) (fuel : ℕ) (buffer : CString) → W → Option (Transfer W)
  unfolding wrote
  write_loop write zero buffer w = none
  write_loop write (suc fuel) buffer w = wrote (write_loop write fuel) buffer (write buffer w)

  -- What sock_write does once the loop is left: after EAGAIN on nothing to write the socket is kept.
  unfoldable pub write_end :
      (count : ℕ) → ShfsData → Option (Transfer W) → Option (Result ℕ × ShfsData × W)
  write_end count info none = none
  write_end count info (some t) = elim t.error [
    | none ↦ some (ok count, info, t.world)
    | some e ↦
        if e == eagain
        then some (err e, set_garbage info true t.left, t.world)
        else some (err e, hang_up true t.left info, t.world)
  ]

  -- sock_write
  unfoldable pub sock_write :
      (write : ℕ → CString → Op W ℕ) (clear : ShfsData → W → Option (Result ℕ × ShfsData × W))
      (fuel : ℕ) (buffer : CString)
      → ShfsData
      → W
      → Option (Result ℕ × ShfsData × W)
  unfolding with_sock write_loop write_end
  sock_write write clear fuel buffer =
      with_sock clear
        λ fd info w. write_end (length buffer) info (write_loop (write fd) fuel buffer w)
