-- ===== src/Memory/Bytes.antt =====
-- What slave_memset writes and slave_memget reads, byte by byte.
use okfs.Base.{
  ℕ, zero, suc, ◌+◌, ◌-◌, ◌*◌, ◌/◌, ◌%◌, ◌^◌, ◌<◌, ◌≤◌, ◌≡◌, refl, ltb, if◌then◌else◌, arith, ◌⊎◌,
  inl, ap, ◌∙◌,
}
use okfs.Memory.{Ptrace, Buffer, load_word, advance, word_byte, memset_tail, memset, memget, put}

abbrev pub IsBytes : Buffer → Type 0
IsBytes s = (i : ℕ) → s i < 256

abbrev pub Outside : ℕ → ℕ → ℕ → Type 0
Outside d n a = (a < d) ⊎ (d + n ≤ a)

-- Four bytes at `d` hold what is at `at` of `s`, the rest is as it was.
module _ (P : Ptrace) where
  open P use {Mem, byte, peek, poke}

  poke_out : (m : Mem) (d w a : ℕ) → Outside d 4 a → byte (poke m d w) a ≡ byte m a
  poke_out m d w a h = ground (arith, P.byte_poke m d w a)

  poke_in : (m : Mem) (d w i : ℕ) → i < 4 → byte (poke m d w) (d + i) ≡ word_byte w i
  poke_in m d w zero h = ground (arith, P.byte_poke m d w (d + 0))
  poke_in m d w (suc zero) h = ground (arith, P.byte_poke m d w (d + 1))
  poke_in m d w (suc (suc zero)) h = ground (arith, P.byte_poke m d w (d + 2))
  poke_in m d w (suc (suc (suc zero))) h = ground (arith, P.byte_poke m d w (d + 3))
  poke_in m d w (suc (suc (suc (suc i)))) h = absurd (omega arith)

load_word_byte : (s : Buffer) → IsBytes s → (i : ℕ) → i < 4 → word_byte (load_word s) i ≡ s i
load_word_byte s b zero h = omega (arith, b 0, b 1, b 2, b 3)
load_word_byte s b (suc zero) h = omega (arith, b 0, b 1, b 2, b 3)
load_word_byte s b (suc (suc zero)) h = omega (arith, b 0, b 1, b 2, b 3)
load_word_byte s b (suc (suc (suc zero))) h = omega (arith, b 0, b 1, b 2, b 3)
load_word_byte s b (suc (suc (suc (suc i)))) h = absurd (omega arith)

-- The buffer that has the bytes of `s` below n and those of `t` from n on.
abbrev mix : ℕ → Buffer → Buffer → Buffer
mix n s t i = if ltb i n then s i else t i

-- The merged word of the tail.
tail_word :
    (s t : Buffer)
    → IsBytes s
    → IsBytes t
    → (n : ℕ) → n < 4
    → load_word t / 2 ^ (8 * n) * 2 ^ (8 * n) + load_word s % 2 ^ (8 * n) ≡ load_word (mix n s t)
tail_word s t b c zero h = omega arith
tail_word s t b c (suc zero) h = omega (arith, b 0, b 1, b 2, b 3, c 0, c 1, c 2, c 3)
tail_word s t b c (suc (suc zero)) h = omega (arith, b 0, b 1, b 2, b 3, c 0, c 1, c 2, c 3)
tail_word s t b c (suc (suc (suc zero))) h = omega (arith, b 0, b 1, b 2, b 3, c 0, c 1, c 2, c 3)
tail_word s t b c (suc (suc (suc (suc n)))) h = absurd (omega arith)

mix-IsBytes : (n : ℕ) (s t : Buffer) → IsBytes s → IsBytes t → IsBytes (mix n s t)
mix-IsBytes n s t b c i = ground (arith, b i, c i)

module _ (P : Ptrace) where
  open P use {Mem, byte, peek, poke}

  abbrev pub from : Mem → ℕ → Buffer
  from m d i = byte m (d + i)

  pub from-IsBytes : (m : Mem) (d : ℕ) → IsBytes (from m d)
  from-IsBytes m d i = P.byte_lt m (d + i)

  peek-load : (m : Mem) (d : ℕ) → peek m d ≡ load_word (from m d)
  peek-load m d = ground (arith, P.peek_bytes m d)

  memset_tail-mix :
      (m : Mem) (d : ℕ) (s : Buffer) (n : ℕ)
      → IsBytes s
      → n < 4
      → memset_tail P m d s n ≡ poke m d (load_word (mix n s (from m d)))
  unfolding memset_tail
  memset_tail-mix m d s n b h = ap (poke m d) (
      ap (λ w. w / 2 ^ (8 * n) * 2 ^ (8 * n) + load_word s % 2 ^ (8 * n)) (peek-load m d)
      ∙ tail_word s (from m d) b (from-IsBytes m d) n h)

  poke_word :
      (m : Mem) (d : ℕ) (s : Buffer) (i : ℕ)
      → IsBytes s
      → i < 4
      → byte (poke m d (load_word s)) (d + i) ≡ s i
  poke_word m d s i b h = poke_in P m d (load_word s) i h ∙ load_word_byte s b i h

  memset_tail-in :
      (m : Mem) (d : ℕ) (s : Buffer)
      → IsBytes s
      → (n i : ℕ) → n < 4
      → i < n
      → byte (memset_tail P m d s n) (d + i) ≡ s i
  memset_tail-in m d s b n i h k = rw (memset_tail-mix m d s n b h) (
      poke_word m d (mix n s (from m d)) i (mix-IsBytes n s (from m d) b (from-IsBytes m d))
        (omega arith)
      ∙ ground arith)

  pub at_offset : (m : Mem) (d a : ℕ) → d ≤ a → byte m (d + (a - d)) ≡ byte m a
  at_offset m d a h = ap (byte m) (omega arith)

  memset_tail-out :
      (m : Mem) (d : ℕ) (s : Buffer)
      → IsBytes s
      → (n a : ℕ) → n < 4
      → Outside d n a
      → byte (memset_tail P m d s n) a ≡ byte m a
  memset_tail-out m d s b n a h k = rw (memset_tail-mix m d s n b h) (
      ground (
        arith,
        poke_out P m d (load_word (mix n s (from m d))) a,
        at_offset m d a,
        at_offset (poke m d (load_word (mix n s (from m d)))) d a,
        poke_word m d (mix n s (from m d)) (a - d)
            (mix-IsBytes n s (from m d) b (from-IsBytes m d)),
      ))

  advance-IsBytes : (s : Buffer) → IsBytes s → IsBytes (advance s)
  advance-IsBytes s b i = b (i + 4)

  memset-out :
      (m : Mem) (d : ℕ) (s : Buffer)
      → IsBytes s
      → (n a : ℕ) → Outside d n a
      → byte (memset P m d s n) a ≡ byte m a
  unfolding memset
  memset-out m d s b (suc (suc (suc (suc n)))) a k =
      memset-out (poke m d (load_word s)) (d + 4) (advance s) (advance-IsBytes s b) n a
        (omega arith)
      ∙ poke_out P m d (load_word s) a (omega arith)
  memset-out m d s b zero a k = refl
  memset-out m d s b n a k = memset_tail-out m d s b n a (omega arith) k

  memset-in :
      (m : Mem) (d : ℕ) (s : Buffer)
      → IsBytes s
      → (n i : ℕ) → i < n
      → byte (memset P m d s n) (d + i) ≡ s i
  unfolding memset
  memset-in m d s b (suc (suc (suc (suc n)))) (suc (suc (suc (suc i)))) k =
      let m' = poke m d (load_word s) in
      ap (byte (memset P m' (d + 4) (advance s) n)) (omega arith)
      ∙ memset-in m' (d + 4) (advance s) (advance-IsBytes s b) n i (omega arith)
      ∙ ap s (omega arith)
  memset-in m d s b (suc (suc (suc (suc n)))) i k =
      memset-out (poke m d (load_word s)) (d + 4) (advance s) (advance-IsBytes s b) n (d + i)
        (inl (omega arith))
      ∙ poke_word m d s i b (omega arith)
  memset-in m d s b zero i k = absurd (omega arith)
  memset-in m d s b n i k = memset_tail-in m d s b n i (omega arith) k

  pub peek_word : (m : Mem) (s i : ℕ) → i < 4 → word_byte (peek m s) i ≡ byte m (s + i)
  peek_word m s i h = rw (peek-load m s) (load_word_byte (from m s) (from-IsBytes m s) i h)

  put-out : (b v : Buffer) (at n j : ℕ) → Outside at n j → put P b at n v j ≡ b j
  put-out b v at n j h = ground arith

  pub put_in : (b v : Buffer) (at n i : ℕ) → i < n → put P b at n v (at + i) ≡ v i
  put_in b v at n i h = let e : at + i - at ≡ i = omega arith in ground arith

  memget-out :
      (b : Buffer) (at : ℕ) (m : Mem) (s n j : ℕ) → Outside at n j → memget P b at m s n j ≡ b j
  unfolding memget
  memget-out b at m s (suc (suc (suc (suc n)))) j h =
      memget-out (put P b at 4 (word_byte (peek m s))) (at + 4) m (s + 4) n j (omega arith)
      ∙ put-out b (word_byte (peek m s)) at 4 j (omega arith)
  memget-out b at m s zero j h = refl
  memget-out b at m s n j h = put-out b (word_byte (peek m s)) at _ j h

  memget-in :
      (b : Buffer) (at : ℕ) (m : Mem) (s n i : ℕ)
      → i < n
      → memget P b at m s n (at + i) ≡ byte m (s + i)
  unfolding memget
  memget-in b at m s (suc (suc (suc (suc n)))) (suc (suc (suc (suc i)))) h =
      let b' = put P b at 4 (word_byte (peek m s)) in
      ap (memget P b' (at + 4) m (s + 4) n) (omega arith)
      ∙ memget-in b' (at + 4) m (s + 4) n i (omega arith)
      ∙ ap (byte m) (omega arith)
  memget-in b at m s (suc (suc (suc (suc n)))) i h =
      let b' = put P b at 4 (word_byte (peek m s)) in
      memget-out b' (at + 4) m (s + 4) n (at + i) (inl (omega arith))
      ∙ put_in b (word_byte (peek m s)) at 4 i (omega arith)
      ∙ peek_word m s i (omega arith)
  memget-in b at m s zero i h = absurd (omega arith)
  memget-in b at m s n i h =
      put_in b (word_byte (peek m s)) at _ i h ∙ peek_word m s i (omega arith)

  -- Writing n bytes of a buffer of bytes: the n addresses from `d` on hold the buffer's bytes, also
  -- where n is no multiple of the word, and every other address holds what it held.
  pub memset_exact :
      (m : Mem) (d : ℕ) (s : Buffer) (n : ℕ)
      → IsBytes s
      → ((i : ℕ) → i < n → byte (memset P m d s n) (d + i) ≡ s i)
        × ((a : ℕ) → (a < d) ⊎ (d + n ≤ a) → byte (memset P m d s n) a ≡ byte m a)
  memset_exact m d s n b = (memset-in m d s b n, memset-out m d s b n)

  -- Reading n bytes fills exactly the n places of the buffer from `at` on, with the process's bytes.
  pub memget_exact :
      (b : Buffer) (at : ℕ) (m : Mem) (s n : ℕ)
      → ((i : ℕ) → i < n → memget P b at m s n (at + i) ≡ byte m (s + i))
        × ((j : ℕ) → (j < at) ⊎ (at + n ≤ j) → memget P b at m s n j ≡ b j)
  memget_exact b at m s n = (memget-in b at m s n, memget-out b at m s n)
