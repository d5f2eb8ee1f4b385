-- ===== src/Shfs/Word.antt =====
-- A path in single quotes, as convert_path of shfs.c makes it for a command and as a shell reads it.
use okfs.Base.{
  ℕ, zero, suc, ◌+◌, ◌-◌, ◌*◌, ◌<◌, ◌≤◌, ◌≡◌, refl, sym, ap, ◌∙◌, ◌&&◌, ◌||◌, Bool, true, false,
  Option, none, some, List, [], ◌∷◌, ◌++◌, ◌==◌, ltb, leb, if◌then◌else◌, CString, length, arith,
  inl, inr, Bool-cases, ==_iff,
}
use okfs.Base.Int.{pos}
use okfs.Memory.{Buffer, cstr}
use okfs.Shfs.Convert.{
  quote_char, backslash, shfs_path_max, count_quotes, strcpy, put_at, convert_loop, convert_path,
  quote,
}
use okfs.Shfs.Ops.{s_mv, s_ln, s_sln}
use okfs.Shfs.Quote.{Fills-all, length-quote}

-- Where a shell is in a word: inside of single quotes, outside, or behind a backslash.
pub data Mode : Type 0 where
  inside : Mode
  outside : Mode
  escape : Mode

abbrev cons : ℕ → Option (CString × CString) → Option (CString × CString)
cons c none = none
cons c (some r) = some (c ∷ r.0, r.1)

-- The characters behind a word: a blank and a newline
abbrev pub ends_word : ℕ → Bool
ends_word c = c == 32 || c == 10

-- Letters and underscores mean nothing else to a shell.
abbrev plain : ℕ → Bool
plain c = leb 97 c && leb c 122 || c == 95

-- How a shell reads a word (POSIX, 2.2 Quoting): the word, and what follows it. Without quotes only
-- letters, a backslash, a quote and the end of the word are taken, as another character could mean
-- something to the shell.
pub shell_word : Mode → CString → Option (CString × CString)
shell_word inside [] = none
shell_word inside (c ∷ s) =
    let word = shell_word outside s in
    let more = cons c (shell_word inside s) in if c == quote_char then word else more
shell_word outside [] = some ([], [])
shell_word outside (c ∷ s) =
    let quoted = shell_word inside s in
    let escaped = shell_word escape s in
    let more = cons c (shell_word outside s) in
    if c == quote_char
    then quoted
    else if c == backslash
    then escaped
    else if ends_word c
    then some ([], c ∷ s)
    else if plain c
    then more
    else none
shell_word escape [] = none
shell_word escape (c ∷ s) = cons c (shell_word outside s)

-- The words of a line, by their number
pub shell_words : ℕ → CString → Option (List CString)
unfolding shell_word
shell_words zero s = none
shell_words (suc n) s = elim (shell_word outside s) [
  | none ↦ none
  | some (word, []) ↦ none
  | some (word, c ∷ rest) ↦
      if c == 10
      then some (word ∷ [])
      else elim (shell_words n rest) [ none ↦ none | some words ↦ some (word ∷ words) ]
]

pub shell_words-more :
    (n : ℕ) (s word rest : CString) (words : List CString)
    → shell_word outside s ≡ some (word, 32 ∷ rest)
    → shell_words n rest ≡ some words
    → shell_words (suc n) s ≡ some (word ∷ words)
unfolding shell_words
shell_words-more n s word rest words h e = rw (h, shell_words) (rw e refl)

pub shell_words-last :
    (n : ℕ) (s word : CString)
    → shell_word outside s ≡ some (word, 10 ∷ [])
    → shell_words (suc n) s ≡ some (word ∷ [])
unfolding shell_words
shell_words-last n s word h = rw (h, shell_words) refl

not_quote : (c : ℕ) → ends_word c ≡ true → (c == quote_char) ≡ false
not_quote c h = ground arith

not_backslash : (c : ℕ) → ends_word c ≡ true → (c == backslash) ≡ false
not_backslash c h = ground arith

-- Inside of the quotes
pub inside-quote :
    (s : CString) (stop : ℕ) (rest : CString)
    → ends_word stop ≡ true
    → shell_word inside (quote s ++ quote_char ∷ stop ∷ rest) ≡ some (s, stop ∷ rest)
unfolding shell_word quote
inside-quote [] stop rest h = rw (not_quote stop h, not_backslash stop h, h) refl
inside-quote (c ∷ s) stop rest h = elim (Bool-cases (c == quote_char)) [
  | inl e ↦
      rw (e, quote, inside-quote s stop rest h)
        (ap (λ x. some (x ∷ s, stop ∷ rest)) (sym ((==_iff c quote_char).0 e)))
  | inr e ↦ rw (e, quote) (rw (e, inside-quote s stop rest h) refl)
]

-- The end of the buffer is the NUL.
cstr-end : (s : CString) → cstr s (length s) ≡ 0
cstr-end [] = refl
cstr-end (c ∷ s) = cstr-end s

converted :
    (src : CString) (dst : Buffer)
    → length src + 3 * count_quotes src < shfs_path_max
    → convert_path src dst ≡ (
      pos 1,
      convert_loop
          (count_quotes src)
          (length src)
          (length src + 3 * count_quotes src)
          (put_at (length src + 3 * count_quotes src) 0 (strcpy dst src)),
    )
unfolding convert_path
converted src dst fits = rw (short, enough) refl
  where
    short : ltb (shfs_path_max - 1) (length src) ≡ false
    short = ground arith

    enough : ltb shfs_path_max (length src + 3 * count_quotes src + 1) ≡ false
    enough = ground arith

-- For a path that fits into SHFS_PATH_MAX with its quotes spelt out, convert_path returns 1, and the
-- buffer has the quoted path with its NUL; between single quotes and in front of a blank or a newline
-- a shell reads it as one word, which is the path, whatever its characters are.
pub shell_word-convert_path :
    (src : CString) (dst : Buffer) (stop : ℕ) (rest : CString)
    → length src + 3 * count_quotes src < shfs_path_max
    → ends_word stop ≡ true
    → ((convert_path src dst).0 ≡ pos 1)
      × ((i : ℕ) → i ≤ length (quote src) → (convert_path src dst).1 i ≡ cstr (quote src) i)
      × (shell_word outside (quote_char ∷ quote src ++ quote_char ∷ stop ∷ rest)
          ≡ some (src, stop ∷ rest))
unfolding shell_word
shell_word-convert_path src dst stop rest fits ends =
    let s = length src + 3 * count_quotes src in
    let b = put_at s 0 (strcpy dst src) in
    (
      ap (λ r. r.0) (converted src dst fits),
      λ i l.
          ap (λ r. r.1 i) (converted src dst fits)
          ∙ Fills-all src b (λ j k. ground arith) i
          ∙ ground (arith, length-quote src, cstr-end (quote src)),
      inside-quote src stop rest ends,
    )

pub shell_word-s_mv :
    (rest : CString) → shell_word outside (s_mv ++ 32 ∷ rest) ≡ some (s_mv, 32 ∷ rest)
unfolding shell_word
shell_word-s_mv rest = refl

pub shell_word-s_ln :
    (rest : CString) → shell_word outside (s_ln ++ 32 ∷ rest) ≡ some (s_ln, 32 ∷ rest)
unfolding shell_word
shell_word-s_ln rest = refl

pub shell_word-s_sln :
    (rest : CString) → shell_word outside (s_sln ++ 32 ∷ rest) ≡ some (s_sln, 32 ∷ rest)
unfolding shell_word
shell_word-s_sln rest = refl
