-- ===== src/Shfs/Convert.antt =====
-- convert_path of shfs.c: a path is made ready to stand between single quotes of a shell command.
use okfs.Base.{ℕ, zero, suc, ◌+◌, ◌-◌, ◌*◌, [], ◌∷◌, ◌==◌, ltb, leb, if◌then◌else◌, CString, length}
use okfs.Base.Int.{ℤ, pos, neg}
use okfs.Stat.{enametoolong}
use okfs.Memory.{Buffer, cstr}

-- The quote and the backslash
abbrev pub quote_char : ℕ
quote_char = 39

abbrev pub backslash : ℕ
backslash = 92

-- SHFS_PATH_MAX
abbrev pub shfs_path_max : ℕ
shfs_path_max = 512

-- The number of quotes in a text
abbrev pub count_quotes : CString → ℕ
count_quotes [] = 0
count_quotes (c ∷ s) = if c == quote_char then suc (count_quotes s) else count_quotes s

-- strcpy
abbrev pub strcpy : Buffer → CString → Buffer
strcpy dst src i = if leb i (length src) then cstr src i else dst i

-- *(p) = c
abbrev pub put_at : ℕ → ℕ → Buffer → Buffer
put_at p c b i = if i == p then c else b i

-- The loop that moves the text to the right in place, from its end on, while quotes are left: r is
-- the number of characters in front of it, and s of the places that are free for them.
unfoldable pub convert_loop : (q r s : ℕ) → Buffer → Buffer
convert_loop zero r s b = b
convert_loop (suc q) zero s b = b
convert_loop (suc q) (suc r) s b =
    let quoted = convert_loop q r (s - 4) (
      put_at (s - 4) quote_char
        (put_at (s - 3) backslash (put_at (s - 2) quote_char (put_at (s - 1) quote_char b)))) in
    let moved = convert_loop (suc q) r (s - 1) (put_at (s - 1) (b r) b) in
    if b r == quote_char then quoted else moved

-- convert_path: its value, and the buffer dst, which holds what it did where the path is too long.
unfoldable pub convert_path : CString → Buffer → ℤ × Buffer
unfolding convert_loop
convert_path src dst =
    if ltb (shfs_path_max - 1) (length src)
    then (neg enametoolong, dst)
    else (let q = count_quotes src in
        let s = length src + 3 * q in
        if ltb shfs_path_max (s + 1)
        then (pos 0, strcpy dst src)
        else (pos 1, convert_loop q (length src) s (put_at s 0 (strcpy dst src))))

-- How a text stands between single quotes: a quote becomes quote, backslash, quote, quote.
unfoldable pub quote : CString → CString
quote [] = []
quote (c ∷ s) =
    if c == quote_char
    then quote_char ∷ backslash ∷ quote_char ∷ quote_char ∷ quote s
    else c ∷ quote s
