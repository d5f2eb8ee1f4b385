-- ===== src/Shfs/Sent.antt =====
-- What shfs sends to the remote shell for an operation on two paths (shfs.c).
use mathlib.Core.List.{append_assoc}
use okfs.Base.{
  ℕ, zero, suc, ◌+◌, ◌*◌, ◌<◌, ◌≤◌, ◌≡◌, refl, ap, ◌∙◌, Bool, false, ◌||◌, some, [], ◌∷◌, ◌++◌,
  ◌==◌, ltb, CString, length, length-append, arith,
}
use okfs.Base.Int.{ℤ, pos}
use okfs.Memory.{Buffer, cstr, has_nul}
use okfs.Vfs.{Op}
use okfs.Shfs.Convert.{quote_char, shfs_path_max, count_quotes, convert_path, quote}
use okfs.Shfs.Quote.{length-quote}
use okfs.Shfs.Word.{
  outside, shell_word, shell_words, shell_word-convert_path, shell_words-more, shell_words-last,
  shell_word-s_mv, shell_word-s_ln, shell_word-s_sln,
}
use okfs.Shfs.Command.{
  Transport, sockbuf_size, text_of, take_converted, converted_path, quoted, line, do_send,
  do_command, on_path, on_paths,
}
use okfs.Shfs.Ops.{s_mv, s_ln, s_sln, and_then, shfs_rename, shfs_link, shfs_symlink}

-- The operations on two paths and the remote functions that they call
pub data TwoPaths {W : Type 0} (T : Transport W) (stack stack' : Buffer)
    : (CString → CString → Op W ℕ) → CString → Type 0 where
  rename : TwoPaths T stack stack' (shfs_rename T stack stack') s_mv
  link : TwoPaths T stack stack' (shfs_link T stack stack') s_ln
  symlink : TwoPaths T stack stack' (shfs_symlink T stack stack') s_sln

-- A path that a command can carry
abbrev pub Sendable : CString → Type 0
Sendable path = (length path + 3 * count_quotes path < shfs_path_max) × (has_nul path ≡ false)

has_nul-quote : (s : CString) → has_nul s ≡ false → has_nul (quote s) ≡ false
unfolding has_nul quote
has_nul-quote [] h = refl
has_nul-quote (c ∷ s) h = ground (arith, has_nul-quote s)

first : (c : ℕ) (b : Bool) → (c == 0 || b) ≡ false → (c == 0) ≡ false
first c b h = ground arith

text_of-cstr :
    (s : CString) (n : ℕ) (b : Buffer)
    → has_nul s ≡ false
    → length s < n
    → ((i : ℕ) → i ≤ length s → b i ≡ cstr s i)
    → text_of n b ≡ s
unfolding text_of has_nul
text_of-cstr s zero b h l e = absurd (omega arith)
text_of-cstr [] (suc n) b h l e = rw (e 0 (omega arith)) refl
text_of-cstr (c ∷ s) (suc n) b h l e =
    rw (e 0 (omega arith), first c (has_nul s) h)
      (ap (λ (r : CString). c ∷ r)
        (text_of-cstr s n (λ i. b (suc i)) (ground arith) (omega arith)
          (λ i k. e (suc i) (omega arith))))

take_converted-quote :
    (path : CString) (n : ℕ) (r : ℤ × Buffer)
    → has_nul path ≡ false
    → length (quote path) < n
    → r.0 ≡ pos 1
    → ((i : ℕ) → i ≤ length (quote path) → r.1 i ≡ cstr (quote path) i)
    → take_converted n r ≡ some (quote path)
unfolding take_converted
take_converted-quote path n r clean l one text =
    rw one (ap some (text_of-cstr (quote path) n r.1 (has_nul-quote path clean) l text))

converted_path-quote :
    (stack : Buffer) (path : CString)
    → Sendable path
    → converted_path stack path ≡ some (quote path)
unfolding converted_path
converted_path-quote stack path (fits, clean) =
    let (one, text, word) = shell_word-convert_path path stack 10 [] fits refl in
    take_converted-quote path shfs_path_max (convert_path path stack) clean
      (omega (arith, length-quote path, fits)) one text

-- The line of a command with two quoted paths, without its newline
abbrev two_words : (cmd s t : CString) → CString
two_words cmd s t = cmd ++ 32 ∷ and_then (quoted s) (quoted t)

two_words-length :
    (cmd s t : CString) → length (two_words cmd s t) ≡ length cmd + length s + length t + 6
two_words-length cmd s t = omega (
  arith,
  length-append cmd (32 ∷ and_then (quoted s) (quoted t)),
  length-append (quoted s) (32 ∷ quoted t),
  length-append s (quote_char ∷ []),
  length-append t (quote_char ∷ []),
)

behind_quote : (s : CString) (c : ℕ) → quoted s ++ c ∷ [] ≡ quote_char ∷ s ++ quote_char ∷ c ∷ []
behind_quote s c = ap (λ (r : CString). quote_char ∷ r) (append_assoc s (quote_char ∷ []) (c ∷ []))

in_front :
    (s t : CString) (c : ℕ)
    → and_then (quoted s) t ++ c ∷ [] ≡ quote_char ∷ s ++ quote_char ∷ 32 ∷ (t ++ c ∷ [])
in_front s t c =
    ap (λ (r : CString). quote_char ∷ r)
      (append_assoc (s ++ quote_char ∷ []) (32 ∷ t) (c ∷ [])
        ∙ append_assoc s (quote_char ∷ []) (32 ∷ t ++ c ∷ []))

-- The words of the line, for a name of a remote function
words_of :
    (cmd path1 path2 : CString)
    → ((rest : CString) → shell_word outside (cmd ++ 32 ∷ rest) ≡ some (cmd, 32 ∷ rest))
    → Sendable path1
    → Sendable path2
    → shell_words 3 (line cmd (and_then (quoted (quote path1)) (quoted (quote path2))))
      ≡ some (cmd ∷ path1 ∷ path2 ∷ [])
words_of cmd path1 path2 named (fits1, clean1) (fits2, clean2) =
    let second = quoted (quote path2) ++ 10 ∷ [] in
    let (a1, b1, word1) = shell_word-convert_path path1 (λ i. 0) 32 second fits1 refl in
    let (a2, b2, word2) = shell_word-convert_path path2 (λ i. 0) 10 [] fits2 refl in
    shell_words-more 2 (line cmd (and_then (quoted (quote path1)) (quoted (quote path2)))) cmd
      (and_then (quoted (quote path1)) (quoted (quote path2)) ++ 10 ∷ []) (path1 ∷ path2 ∷ [])
      (named (and_then (quoted (quote path1)) (quoted (quote path2)) ++ 10 ∷ []))
      (shell_words-more 1 (and_then (quoted (quote path1)) (quoted (quote path2)) ++ 10 ∷ []) path1
        second (path2 ∷ [])
        (ap (shell_word outside) (in_front (quote path1) (quoted (quote path2)) 10) ∙ word1)
        (shell_words-last 0 second path2
          (ap (shell_word outside) (behind_quote (quote path2) 10) ∙ word2)))

within : (n : ℕ) → n ≤ sockbuf_size → ltb sockbuf_size n ≡ false
within n h = ground arith

module _ {W : Type 0} (T : Transport W) (stack stack' : Buffer) where
  -- A command that fits into the buffer is sent.
  do_command-sends :
      (cmd args : CString) (w : W)
      → length (cmd ++ 32 ∷ args) + 2 ≤ sockbuf_size
      → do_command T cmd args w ≡ do_send T (line cmd args) (T.sock_write (line cmd args) w)
  unfolding do_command
  do_command-sends cmd args w fits = rw (within (length (cmd ++ 32 ∷ args) + 2) fits) refl

  on_path-runs :
      (st : Buffer) (path : CString) (command : CString → Op W ℕ) (w : W)
      → Sendable path
      → on_path T st path command w ≡ command (quote path) w
  unfolding on_path
  on_path-runs st path command w sendable = rw (converted_path-quote st path sendable, on_path) refl

  sends_both :
      (cmd path1 path2 : CString) (w : W)
      → length cmd < 16
      → Sendable path1
      → Sendable path2
      → on_paths T stack stack' path1 path2
          (λ s t. do_command T cmd (and_then (quoted s) (quoted t)))
          w
        ≡ do_send T
            (line cmd (and_then (quoted (quote path1)) (quoted (quote path2))))
            (T.sock_write (line cmd (and_then (quoted (quote path1)) (quoted (quote path2)))) w)
  unfolding on_paths
  sends_both cmd path1 path2 w short ok1 ok2 =
      on_path-runs stack path1
        (λ s. on_path T stack' path2 (λ t. do_command T cmd (and_then (quoted s) (quoted t)))) w ok1
      ∙ on_path-runs stack' path2
          (λ t. do_command T cmd (and_then (quoted (quote path1)) (quoted t))) w ok2
      ∙ (do_command-sends cmd (and_then (quoted (quote path1)) (quoted (quote path2))) w (
          omega (
            arith,
            two_words-length cmd (quote path1) (quote path2),
            length-quote path1,
            length-quote path2,
            ok1.0,
            ok2.0,
          )))

  -- rename, link and symlink on two paths that have no NUL and fit into SHFS_PATH_MAX with their
  -- quotes spelt out send one line, and do what do_command makes of its reply. The shell reads the
  -- line as three words: the name of the remote function and the two paths, whatever their characters
  -- are.
  pub TwoPaths-shell_words :
      (op : CString → CString → Op W ℕ) (cmd path1 path2 : CString) (w : W)
      → TwoPaths T stack stack' op cmd
      → Sendable path1
      → Sendable path2
      → (l : CString) × (op path1 path2 w ≡ do_send T l (T.sock_write l w))
        × (shell_words 3 l ≡ some (cmd ∷ path1 ∷ path2 ∷ []))
  unfolding shfs_rename shfs_link shfs_symlink
  TwoPaths-shell_words _ _ path1 path2 w rename ok1 ok2 = (
    line s_mv (and_then (quoted (quote path1)) (quoted (quote path2))),
    sends_both s_mv path1 path2 w (omega arith) ok1 ok2,
    words_of s_mv path1 path2 (λ rest. shell_word-s_mv rest) ok1 ok2,
  )
  TwoPaths-shell_words _ _ path1 path2 w link ok1 ok2 = (
    line s_ln (and_then (quoted (quote path1)) (quoted (quote path2))),
    sends_both s_ln path1 path2 w (omega arith) ok1 ok2,
    words_of s_ln path1 path2 (λ rest. shell_word-s_ln rest) ok1 ok2,
  )
  TwoPaths-shell_words _ _ path1 path2 w symlink ok1 ok2 = (
    line s_sln (and_then (quoted (quote path1)) (quoted (quote path2))),
    sends_both s_sln path1 path2 w (omega arith) ok1 ok2,
    words_of s_sln path1 path2 (λ rest. shell_word-s_sln rest) ok1 ok2,
  )
