-- ===== src/Shfs/Command.antt =====
-- The operations of shfs.c that send one line to the remote shell and read one line of reply.
use okfs.Base.{
  ℕ, zero, suc, ◌+◌, ◌-◌, ◌*◌, ◌/◌, ◌%◌, ◌&&◌, Option, none, some, [], ◌∷◌, ◌++◌, ◌==◌, ltb, leb,
  if◌then◌else◌, CString, length, starts_with, drop,
}
use okfs.Base.Int.{ℤ, is_zero}
use okfs.Stat.{Result, ok, err, eperm, enoent, eio, enametoolong}
use okfs.Memory.{Buffer}
use okfs.Vfs.{Op}
use okfs.Shfs.Convert.{quote_char, shfs_path_max, convert_path}
use okfs.Shfs.Clock.{Date}

-- What proc.c offers: a line or some bytes go to the remote shell, and a line comes back.
pub record Transport (W : Type 0) : Type 0 where
  pub sock_write : CString → Op W ℕ
  pub sock_readln : Op W CString

-- SOCKBUF_SIZE
abbrev pub sockbuf_size : ℕ
sockbuf_size = 5120

-- The codes of a reply
abbrev pub rep_complete : ℕ
rep_complete = 200

abbrev pub rep_notempty : ℕ
rep_notempty = 202

abbrev pub rep_eperm : ℕ
rep_eperm = 501

abbrev pub rep_enoent : ℕ
rep_enoent = 503

-- strtoul with base 10, of a text that starts with its digits; `n` is what was read so far.
unfoldable pub strtoul : (n : ℕ) → CString → ℕ
strtoul n [] = n
strtoul n (c ∷ s) =
    let more = strtoul (10 * n + (c - 48)) s in if leb 48 c && leb c 57 then more else n

-- reply: the number behind "### ", 0 for another line.
unfoldable pub reply : CString → ℕ
unfolding strtoul
reply s = if starts_with (b'#' ∷ b'#' ∷ b'#' ∷ 32 ∷ []) s then strtoul 0 (drop 4 s) else 0

-- The switch of do_command on the reply
unfoldable pub take_reply : ℕ → Result ℕ
take_reply code =
    if code == rep_complete
    then ok 0
    else if code == rep_eperm
    then err eperm
    else if code == rep_enoent
    then err enoent
    else if code == rep_notempty
    then ok 1
    else err eio

-- The text that starts a buffer, of at most n characters
unfoldable pub text_of : (n : ℕ) → Buffer → CString
text_of zero b = []
text_of (suc n) b = let rest = text_of n (λ i. b (suc i)) in if b 0 == 0 then [] else b 0 ∷ rest

-- if (!convert_path(path, newpath)) return -ENAMETOOLONG; else newpath, which has n places.
unfoldable pub take_converted : (n : ℕ) → ℤ × Buffer → Option CString
unfolding text_of
take_converted n r = if is_zero r.0 then none else some (text_of n r.1)

-- `stack` is what newpath holds at first, and still does for a path that convert_path returns a
-- negative number for.
unfoldable pub converted_path : (stack : Buffer) → CString → Option CString
unfolding convert_path take_converted
converted_path stack path = take_converted shfs_path_max (convert_path path stack)

-- '%s'
abbrev pub quoted : CString → CString
quoted s = quote_char ∷ s ++ quote_char ∷ []

-- The digits of a number: %u and %o. `fuel` is at least their number.
unfoldable pub digits : (base fuel n : ℕ) → CString
digits base zero n = []
digits base (suc fuel) n =
    let rest = digits base fuel (n / base) in
    if ltb n base then (48 + n) ∷ [] else rest ++ (48 + n % base) ∷ []

abbrev pub print_u : ℕ → CString
print_u n = digits 10 20 n

abbrev pub print_o : ℕ → CString
print_o n = digits 8 22 n

-- %.nd
unfoldable pub zeros : ℕ → CString → CString
zeros zero s = s
zeros (suc n) s = b'0' ∷ zeros n s

abbrev pub print_padded : (width n : ℕ) → CString
print_padded width n = zeros (width - length (print_u n)) (print_u n)

-- The sprintf of strctime
unfoldable pub print_date : Date → CString
unfolding digits zeros
print_date d =
    print_padded 4 d.year
    ++ print_padded 2 d.month
    ++ print_padded 2 d.day
    ++ print_padded 2 d.hour
    ++ print_padded 2 d.min
    ++ b'.' ∷ print_padded 2 d.sec

-- The line that do_command makes
abbrev pub line : (cmd args : CString) → CString
line cmd args = cmd ++ 32 ∷ (args ++ 10 ∷ [])

module _ {W : Type 0} (T : Transport W) where
  -- The reply: where no line comes the buffer still holds the command.
  unfoldable pub answer : CString → Result CString × W → Result ℕ × W
  unfolding reply take_reply
  answer sent (ok s, w) = (take_reply (reply s), w)
  answer sent (err e, w) = (take_reply (reply sent), w)

  unfoldable pub do_send : CString → Result ℕ × W → Result ℕ × W
  unfolding answer
  do_send sent (err e, w) = (err e, w)
  do_send sent (ok n, w) = answer sent (T.sock_readln w)

  -- do_command
  unfoldable pub do_command : (cmd args : CString) → Op W ℕ
  unfolding do_send
  do_command cmd args w =
      if ltb sockbuf_size (length (cmd ++ 32 ∷ args) + 2)
      then (err enametoolong, w)
      else do_send (line cmd args) (T.sock_write (line cmd args) w)

  -- A command with one path, and with two
  unfoldable pub on_path : (stack : Buffer) → CString → (CString → Op W ℕ) → Op W ℕ
  unfolding converted_path
  on_path stack path command w = elim (converted_path stack path) [
    | none ↦ (err enametoolong, w)
    | some s ↦ command s w
  ]

  unfoldable pub on_paths :
      (stack stack' : Buffer) → (path1 path2 : CString) → (CString → CString → Op W ℕ) → Op W ℕ
  unfolding on_path
  on_paths stack stack' path1 path2 command w =
      on_path stack path1 (λ s. on_path stack' path2 (command s)) w
