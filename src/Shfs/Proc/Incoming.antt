-- ===== src/Shfs/Proc/Incoming.antt =====
-- What sock_read (proc.c) makes of the bytes that come from the remote shell.
use mathlib.Core.Path.{subst}
use mathlib.Core.List.{append_assoc, append-nil}
use okfs.Base.{
  ℕ, zero, suc, ◌+◌, ◌-◌, ◌<◌, ◌≤◌, ◌≡◌, refl, sym, ap, ◌∙◌, Bool, true, false, Option, none, some,
  [], ◌∷◌, ◌++◌, ◌==◌, leb, if◌then◌else◌, CString, length, length-append, drop, arith, Bool-cases,
  inl, inr,
}
use okfs.Stat.{Result, ok, err, eio}
use okfs.Vfs.{Op}
use okfs.Shfs.Proc.{
  eagain, ShfsData, Transfer, take, put_before, took, read_loop, read_end, read_bytes, with_sock,
  sock_read, hang_up, after_clear,
}

take-drop : (n : ℕ) (s : CString) → s ≡ take n s ++ drop n s
unfolding take
take-drop zero s = refl
take-drop (suc n) [] = refl
take-drop (suc n) (c ∷ s) = ap (λ r. c ∷ r) (take-drop n s)

length-take : (n : ℕ) (s : CString) → length (take n s) ≤ n
unfolding take
length-take zero s = omega arith
length-take (suc n) [] = omega arith
length-take (suc n) (c ∷ s) = omega (arith, length-take n s)

short-drop : (n : ℕ) (s : CString) → length (take n s) < n → drop n s ≡ []
unfolding take
short-drop zero s h = absurd (omega arith)
short-drop (suc n) [] h = refl
short-drop (suc n) (c ∷ s) h = short-drop n s (omega arith)

with_sock_clean :
    {W : Type 0} {A : Type 0} (clear : ShfsData → W → Option (Result ℕ × ShfsData × W))
    (go : ℕ → ShfsData → W → Option (Result A × ShfsData × W)) (fd : ℕ) (info : ShfsData) (w : W)
    → info.sock ≡ some fd
    → info.garbage ≡ false
    → with_sock clear go info w ≡ go fd info w
unfolding with_sock
with_sock_clean {W} {A} clear go fd info w is_open clean =
    ap (λ (o : Option ℕ). opened o info.garbage) is_open ∙ ap (λ b. opened (some fd) b) clean
  where
    opened : Option ℕ → Bool → Option (Result A × ShfsData × W)
    opened o b = elim o [
      | none ↦ some (err eio, info, w)
      | some fd' ↦ if b then after_clear (go fd') (clear info w) else go fd' info w
    ]

module _ {W : Type 0} (stream : W → CString) (delay : W → ℕ) where
  -- What read() documents of a stream of bytes for n places: it gives the next bytes, at most n, or an
  -- error, and EAGAIN not for ever.
  abbrev pub Answer : ℕ → W → Result CString × W → Type 0
  Answer n w (ok bs, w') = (length bs ≤ n) × (stream w ≡ bs ++ stream w') × (delay w' ≤ delay w)
  Answer n w (err e, w') = (stream w' ≡ stream w) × ((e == eagain) ≡ true → delay w' < delay w)

  abbrev pub IsStream : (ℕ → Op W CString) → Type 0
  IsStream read = (n : ℕ) (w : W) → 0 < n → Answer n w (read n w)

  -- The loop ends with the error exactly where bytes are missing.
  abbrev Missing : Option ℕ → ℕ → Type 0
  Missing none left = left ≡ 0
  Missing (some e) left = 0 < left

  record Transferred (c : ℕ) (w : W) (t : Transfer W) : Type 0 where
    taken : stream w ≡ t.bytes ++ stream t.world
    counted : length t.bytes + t.left ≡ c
    missing : Missing t.error t.left

  abbrev Runs : ℕ → W → Option (Transfer W) → Type 0
  Runs c w o = (t : Transfer W) × (o ≡ some t) × Transferred c w t

  put_before-Runs :
      (bs : CString) (c : ℕ) (w w' : W) (o : Option (Transfer W))
      → length bs ≤ c
      → stream w ≡ bs ++ stream w'
      → Runs (c - length bs) w' o
      → Runs c w (put_before bs o)
  unfolding put_before
  put_before-Runs bs c w w' o l e (t, runs, h) = (
    record t { bytes = bs ++ t.bytes },
    rw runs refl,
    record {
      taken = e ∙ ap (λ s. bs ++ s) h.taken ∙ sym (append_assoc bs t.bytes (stream t.world));
      counted = omega (arith, length-append bs t.bytes, h.counted);
      missing = h.missing;
    },
  )

  took-Runs :
      (again : ℕ → W → Option (Transfer W)) (c fuel : ℕ) (w : W) (r : Result CString × W)
      → 0 < c
      → c + delay w < suc fuel
      → Answer c w r
      → ((c' : ℕ) (w' : W) → 0 < c' → c' + delay w' < fuel → Runs c' w' (again c' w'))
      → Runs c w (took again c r)
  unfolding took
  took-Runs again c fuel w (ok [], w') p f a go =
      (_, refl, record { taken = a.1; counted = omega arith; missing = p })
  took-Runs again c fuel w (ok (b ∷ bs), w') p f a go =
      elim (Bool-cases (leb c (length (b ∷ bs)))) [
        | inl e ↦ (
          record { bytes = b ∷ bs; error = none; left = 0; world = w' },
          rw e refl,
          record { taken = a.1; counted = ground (arith, a.0); missing = refl },
        )
        | inr e ↦ rw e (
            put_before-Runs (b ∷ bs) c w w' (again (c - length (b ∷ bs)) w') a.0 a.1
              (go (c - length (b ∷ bs)) w' (ground arith) (ground (arith, a.2))))
      ]
  took-Runs again c fuel w (err e, w') p f a go = elim (Bool-cases (e == eagain)) [
    | inl h ↦
        let (t, runs, k) = go c w' p (omega (arith, a.1 h)) in
        (
          t,
          rw h runs,
          record { taken = sym a.0 ∙ k.taken; counted = k.counted; missing = k.missing },
        )
    | inr h ↦ (
      record { bytes = []; error = some e; left = c; world = w' },
      rw h refl,
      record { taken = sym a.0; counted = omega arith; missing = p },
    )
  ]

  read_loop-Runs :
      (read : ℕ → Op W CString) (fuel c : ℕ) (w : W)
      → IsStream read
      → 0 < c
      → c + delay w < fuel
      → Runs c w (read_loop read fuel c w)
  unfolding read_loop
  read_loop-Runs read zero c w h p f = absurd (omega arith)
  read_loop-Runs read (suc fuel) c w h p f =
      took-Runs (read_loop read fuel) c fuel w (read c w) p f (h c w p)
        λ c' w' p' f'. read_loop-Runs read fuel c' w' h p' f'

  -- What sock_read leaves: the bytes asked for, next in the stream; or an error, with a closed socket,
  -- and garbage_read the number of bytes that are missing of those asked for.
  abbrev pub Delivered : (count : ℕ) → ShfsData → W → Result CString × ShfsData × W → Type 0
  Delivered count info w (ok bs, info', w') =
      (length bs ≡ count)
      × (info.readlnbuf ++ stream w ≡ bs ++ (info'.readlnbuf ++ stream w'))
      × (info'.sock ≡ info.sock)
      × (info'.garbage ≡ info.garbage)
  Delivered count info w (err e, info', w') =
      (lost : CString) × (info.readlnbuf ++ stream w ≡ lost ++ (info'.readlnbuf ++ stream w'))
      × (length lost + info'.garbage_read ≡ count)
      × (0 < info'.garbage_read)
      × (info'.sock ≡ none)
      × (info'.garbage ≡ true)

  abbrev Delivers : (count : ℕ) → ShfsData → W → Option (Result CString × ShfsData × W) → Type 0
  Delivers count info w o =
      (r : Result CString × ShfsData × W) × (o ≡ some r) × Delivered count info w r

  read_end-Delivers :
      (info : ShfsData) (first : CString) (count : ℕ) (w : W) (t : Transfer W)
      → length first ≤ count
      → info.readlnbuf ≡ first
      → Transferred (count - length first) w t
      → Delivers count info w (read_end (record info { readlnbuf = [] }) first (some t))
  unfolding read_end
  read_end-Delivers info first count w t l e h = go t.error refl
    where
      all : info.readlnbuf ++ stream w ≡ (first ++ t.bytes) ++ stream t.world
      all =
          ap (λ s. s ++ stream w) e
          ∙ ap (λ s. first ++ s) h.taken
          ∙ sym (append_assoc first t.bytes (stream t.world))

      none_left : t.error ≡ none → t.left ≡ 0
      none_left k = subst (λ o. Missing o t.left) k h.missing

      some_left : (x : ℕ) → t.error ≡ some x → 0 < t.left
      some_left x k = subst (λ o. Missing o t.left) k h.missing

      go :
          (o : Option ℕ)
          → t.error ≡ o
          → Delivers count info w (read_end (record info { readlnbuf = [] }) first (some t))
      go none k = (
        (ok (first ++ t.bytes), record info { readlnbuf = [] }, t.world),
        rw k refl,
        (omega (arith, length-append first t.bytes, h.counted, none_left k), all, refl, refl),
      )
      go (some x) k = (
        (err x, hang_up false t.left (record info { readlnbuf = [] }), t.world),
        rw k refl,
        (
          first ++ t.bytes,
          all,
          omega (arith, length-append first t.bytes, h.counted),
          some_left x k,
          refl,
          refl,
        ),
      )

  read_bytes-Delivers :
      (read : ℕ → Op W CString) (fuel count : ℕ) (info : ShfsData) (w : W)
      → IsStream read
      → count + delay w < fuel
      → Delivers count info w (read_bytes read fuel count info w)
  unfolding read_bytes
  read_bytes-Delivers read fuel count info w h f = elim (Bool-cases (count - length first == 0)) [
    | inl e ↦ (
      (ok first, record info { readlnbuf = drop count info.readlnbuf }, w),
      rw e refl,
      (
        ground (arith, short),
        ap (λ s. s ++ stream w) (take-drop count info.readlnbuf)
            ∙ append_assoc first (drop count info.readlnbuf) (stream w),
        refl,
        refl,
      ),
    )
    | inr e ↦
        let empty = short-drop count info.readlnbuf (ground arith) in
        let (t, runs, k) =
          read_loop-Runs read fuel (count - length first) w h (ground arith) (omega arith) in
        rw (e, runs, empty)
          (read_end-Delivers info first count w t short
            (take-drop count info.readlnbuf ∙ ap (λ s. first ++ s) empty ∙ append-nil first) k)
  ]
    where
      first : CString
      first = take count info.readlnbuf

      short : length first ≤ count
      short = length-take count info.readlnbuf

  -- sock_read on an open connection without garbage comes to an end, where read() gives the next bytes
  -- of a stream or an error, and EAGAIN a bounded number of times; fuel for that many rounds and one
  -- for each byte is enough. It returns the next `count` bytes of readlnbuf and the stream behind it
  -- and leaves the others in their order; or it returns an error with the socket closed and the
  -- connection marked as garbage, and garbage_read is the number of bytes, more than none, that are
  -- still missing of those asked for.
  pub sock_read-Delivered :
      (read : ℕ → ℕ → Op W CString) (clear : ShfsData → W → Option (Result ℕ × ShfsData × W))
      (fd fuel count : ℕ) (info : ShfsData) (w : W)
      → IsStream (read fd)
      → info.sock ≡ some fd
      → info.garbage ≡ false
      → count + delay w < fuel
      → (r : Result CString × ShfsData × W) × (sock_read read clear fuel count info w ≡ some r)
        × Delivered count info w r
  unfolding sock_read
  sock_read-Delivered read clear fd fuel count info w h is_open clean f =
      let (r, runs, k) = read_bytes-Delivers (read fd) fuel count info w h f in
      (
        r,
        with_sock_clean clear (λ fd. read_bytes (read fd) fuel count) fd info w is_open clean
            ∙ runs,
        k,
      )
