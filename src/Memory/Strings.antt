-- ===== src/Memory/Strings.antt =====
-- slave_getstr reads the string of the process, in a buffer that is large enough.
use okfs.Base.{
  ℕ, zero, suc, ◌+◌, ◌*◌, ◌%◌, ◌<◌, ◌≤◌, ◌≡◌, ◌≢◌, refl, true, false, Option, some, ◌==◌,
  if◌then◌else◌, arith, ap, ◌∙◌, CString, length, List, [], ◌∷◌, ◌++◌, length-append,
}
use mathlib.Core.Path.{subst}
use mathlib.Core.List.{append_assoc}
use okfs.Memory.{Ptrace, word_bytes, has_nul, getstr_loop, getstr}
use okfs.Memory.Bytes.{peek_word}

-- The C string at the start of a buffer: what stands before the first NUL.
abbrev pub c_string : List ℕ → CString
c_string [] = []
c_string (c ∷ s) = if c == 0 then [] else c ∷ c_string s

abbrev pub AllNonzero : List ℕ → Type 0
AllNonzero [] = Unit {0}
AllNonzero (c ∷ s) = (c ≢ 0) × AllNonzero s

c_string-append : (s t : List ℕ) → AllNonzero s → c_string (s ++ t) ≡ s ++ c_string t
c_string-append [] t h = refl
c_string-append (c ∷ s) t h = ground (arith, c_string-append s t)

module _ (P : Ptrace) where
  open P use {Mem, byte, peek}

  -- The process holds the text `s` from address `a` on, and a NUL behind it; no character is NUL.
  abbrev pub HoldsText : Mem → ℕ → CString → Type 0
  HoldsText m a [] = byte m a ≡ 0
  HoldsText m a (c ∷ s) = (byte m a ≡ c) × (c ≢ 0) × HoldsText m (a + 1) s

  word_bytes-peek :
      (m : Mem) (a : ℕ)
      → word_bytes (peek m a)
        ≡ byte m a ∷ byte m (a + 1) ∷ byte m (a + 1 + 1) ∷ byte m (a + 1 + 1 + 1) ∷ []
  unfolding word_bytes
  word_bytes-peek m a =
      ground (arith, peek_word P m a 0, peek_word P m a 1, peek_word P m a 2, peek_word P m a 3)

  -- The outcome of the loop: it ends, what it read starts with `text`, and its buffer held it all.
  abbrev Reads : Option (List ℕ × ℕ) → CString → Type 0
  Reads r text = (x : List ℕ × ℕ) × (r ≡ some x) × (c_string x.0 ≡ text) × (length x.0 ≤ x.1)

  -- A word that holds the NUL is the last one.
  last_word :
      (fuel : ℕ) (m : Mem) (src n : ℕ) (string s w : List ℕ)
      → word_bytes (peek m src) ≡ w
      → has_nul w ≡ true
      → c_string w ≡ s
      → AllNonzero string
      → length w ≡ 4
      → length string + 4 ≤ n
      → Reads (getstr_loop P (suc fuel) m src n string) (string ++ s)
  unfolding getstr_loop
  last_word fuel m src n string s w e stop text z four c = (
    (string ++ w, n),
    rw (e, stop),
    c_string-append string w z ∙ ap (λ t. string ++ t) text,
    omega (arith, length-append string w, four, c),
  )

  -- Behind a word without a NUL the loop goes on, with room for the next word.
  full_word :
      (fuel : ℕ) (m : Mem) (src n : ℕ) (string w s : List ℕ)
      → word_bytes (peek m src) ≡ w
      → has_nul w ≡ false
      → Reads
          (getstr_loop P fuel m
            (src + 4)
            (if length (string ++ w) == n then n * 2 else n)
            (string ++ w))
          ((string ++ w) ++ s)
      → Reads (getstr_loop P (suc fuel) m src n string) (string ++ (w ++ s))
  unfolding getstr_loop
  full_word fuel m src n string w s e go r = rw (e, go) (rw append_assoc at r)

  room :
      (l n l' : ℕ)
      → l' ≡ l + 4
      → l + 4 ≤ n
      → l % 4 ≡ 0
      → n % 4 ≡ 0
      → (l' + 4 ≤ (if l' == n then n * 2 else n)) × ((if l' == n then n * 2 else n) % 4 ≡ 0)
  room l n l' e c d4 n4 = ground arith

  AllNonzero-append : (s t : List ℕ) → AllNonzero s → AllNonzero t → AllNonzero (s ++ t)
  AllNonzero-append [] t h k = k
  AllNonzero-append (c ∷ s) t h k = (h.0, AllNonzero-append s t h.1 k)

  four_on : (a : ℕ) → a + 1 + 1 + 1 + 1 ≡ a + 4
  four_on a = omega arith

  getstr_loop-text :
      (fuel : ℕ) (m : Mem) (src n : ℕ) (string : List ℕ) (s : CString)
      → length s < fuel + fuel + fuel + fuel
      → HoldsText m src s
      → AllNonzero string
      → length string + 4 ≤ n
      → length string % 4 ≡ 0
      → n % 4 ≡ 0
      → Reads (getstr_loop P fuel m src n string) (string ++ s)
  unfolding has_nul
  getstr_loop-text zero m src n string s f h z c d4 n4 = absurd (omega arith)
  getstr_loop-text (suc fuel) m src n string [] f h z c d4 n4 =
      last_word fuel m src n string [] _ (word_bytes-peek m src) (ground arith) (ground arith) z
        refl c
  getstr_loop-text (suc fuel) m src n string (a ∷ []) f h z c d4 n4 =
      last_word fuel m src n string (a ∷ []) _ (word_bytes-peek m src) (ground arith) (ground arith)
        z refl c
  getstr_loop-text (suc fuel) m src n string (a ∷ b ∷ []) f h z c d4 n4 =
      last_word fuel m src n string (a ∷ b ∷ []) _ (word_bytes-peek m src) (ground arith)
        (ground arith) z refl c
  getstr_loop-text (suc fuel) m src n string (a ∷ b ∷ d ∷ []) f h z c d4 n4 =
      last_word fuel m src n string (a ∷ b ∷ d ∷ []) _ (word_bytes-peek m src) (ground arith)
        (ground arith) z refl c
  getstr_loop-text (suc fuel) m src n string (a ∷ b ∷ d ∷ e ∷ s) f h z c d4 n4 =
      full_word fuel m src n string (a ∷ b ∷ d ∷ e ∷ []) s (word_bytes-peek m src ∙ ground arith)
        (ground arith)
        (getstr_loop-text fuel m (src + 4)
          (if length (string ++ (a ∷ b ∷ d ∷ e ∷ [])) == n then n * 2 else n)
          (string ++ (a ∷ b ∷ d ∷ e ∷ [])) s (omega arith)
          (subst (λ x. HoldsText m x s) (four_on src) h.2.2.2.2)
          (AllNonzero-append string (a ∷ b ∷ d ∷ e ∷ []) z
            (h.1, (h.2.1, (h.2.2.1, (h.2.2.2.1, tt)))))
          (room (length string) n (length (string ++ (a ∷ b ∷ d ∷ e ∷ [])))
            (length-append string (a ∷ b ∷ d ∷ e ∷ [])) c d4 n4).0
          (omega (arith, length-append string (a ∷ b ∷ d ∷ e ∷ [])))
          (room (length string) n (length (string ++ (a ∷ b ∷ d ∷ e ∷ [])))
            (length-append string (a ∷ b ∷ d ∷ e ∷ [])) c d4 n4).1)

  -- slave_getstr, with more fuel than a quarter of the length, ends at any string of the process: it
  -- returns that string, and its buffer, which starts at 32 bytes and doubles, was large enough for
  -- every word that was read.
  pub getstr-text :
      (fuel : ℕ) (m : Mem) (s : ℕ) (text : CString)
      → length text < fuel + fuel + fuel + fuel
      → HoldsText m s text
      → (r : List ℕ × ℕ) × (getstr P fuel m s ≡ some r) × (c_string r.0 ≡ text) × (length r.0 ≤ r.1)
  unfolding getstr
  getstr-text fuel m s text f h =
      getstr_loop-text fuel m s 32 [] text f h tt (omega arith) refl refl
