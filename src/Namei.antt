-- ===== src/Namei.antt =====
-- vfs_namei.c: the canonical absolute name of a file. A path under construction, `rpath` up to
-- `dest`, is kept with its last character first, so that dest[-1] is the head of the list.
pub mod Form
pub mod Walk
pub mod Text
pub mod Fixed
pub mod Lengths
pub mod Bounds
pub mod Keeps
use mathlib.Core.List.{reverse}
use okfs.Base.{
  ℕ, zero, suc, ◌+◌, ◌<◌, ◌≡◌, Bool, true, false, not, ◌&&◌, ◌||◌, Option, none, some, List, [],
  ◌∷◌, ◌++◌, ◌==◌, ltb, leb, if◌then◌else◌, CString, str_eq, length,
}
use okfs.Stat.{Stat, Result, ok, err, is_link_mode, enoent, einval, enametoolong, eloop}

-- empty_path
pub empty_path : CString → Bool
empty_path [] = true
empty_path (c ∷ s) = if c == b'/' then empty_path s else false

-- while (*start == '/') ++start
pub skip_slashes : CString → CString
skip_slashes [] = []
skip_slashes (c ∷ s) = if c == b'/' then skip_slashes s else c ∷ s

-- The component from `start` up to `end`, and what is behind it.
unfoldable pub component : CString → CString
component [] = []
component (c ∷ s) = if c == b'/' then [] else c ∷ component s

unfoldable pub behind : CString → CString
behind [] = []
behind (c ∷ s) = if c == b'/' then c ∷ s else behind s

abbrev pub dot : CString
dot = b'.' ∷ []

abbrev pub dot_dot : CString
dot_dot = b'.' ∷ b'.' ∷ []

-- while (dest[-1] != '/') --dest
pub pop_to_slash : CString → CString
pop_to_slash [] = []
pop_to_slash (c ∷ r) = if c == b'/' then c ∷ r else pop_to_slash r

-- if (dest > rpath + 1) while ((--dest)[-1] != '/')
pub back : CString → CString
unfolding pop_to_slash
back [] = []
back (c ∷ []) = c ∷ []
back (c ∷ d ∷ r) = pop_to_slash (d ∷ r)

-- name[0] == '/'
pub absolute : CString → Bool
absolute [] = false
absolute (c ∷ s) = c == b'/'

-- if (dest[-1] != '/') *dest++ = '/'
pub with_slash : CString → CString
with_slash [] = b'/' ∷ []
with_slash (c ∷ r) = if c == b'/' then c ∷ r else b'/' ∷ c ∷ r

-- if (dest > rpath + 1 && dest[-1] == '/') --dest
pub trim : CString → CString
trim [] = []
trim (c ∷ []) = c ∷ []
trim (c ∷ d ∷ r) = if c == b'/' then d ∷ r else c ∷ d ∷ r

abbrev pub max_symlinks : ℕ
max_symlinks = 20

-- The variables of the loop: the path so far, the size of its buffer (rpath_limit - rpath), the
-- links followed, and the text that is still to be read.
pub record Loc : Type 0 where
  pub dest : CString
  pub limit : ℕ
  pub num_links : ℕ
  pub end : CString

-- A round of the loop leaves it, fails with errno, or goes on.
pub data Round : Type 0 where
  done : Round
  fail : ℕ → Round
  go : Loc → Round

-- The size of the buffer after the test for `n` more characters.
pub grow : (path_max : ℕ) → (limit offset n : ℕ) → ℕ
grow path_max limit offset n =
    if leb limit (offset + n)
    then limit + (if ltb path_max (n + 1) then n + 1 else path_max)
    else limit

-- A name is put behind the path.
pub extend : (path_max : ℕ) → Loc → (name rest : CString) → Loc
unfolding with_slash grow
extend path_max l name rest =
    let base = with_slash l.dest in
    record l {
      dest = reverse name ++ base;
      limit = grow path_max l.limit (length base) (length name);
      end = rest;
    }

-- `lstat` and `readlink` are okfs_arglstat and okfs_argreadlink: they work on a state, as they fill
-- the cache. `path_max` is PATH_MAX of <limits.h>.
module _ {S : Type 0} (lstat : CString → S → Result Stat × S)
    (readlink : CString → S → Result CString × S) (path_max : ℕ) (read_last_link : Bool) where
  -- The target of a link is put in front of the rest, and the link's own name is dropped.
  pub follow : (l : Loc) (rest target : CString) → Round
  unfolding back absolute
  follow l rest target =
      if leb path_max (length target + length rest)
      then fail enametoolong
      else go (record l {
        dest = if absolute target then b'/' ∷ [] else back l.dest;
        end = target ++ rest;
      })

  pub follow_result : (l : Loc) (rest : CString) → Result CString → Round
  unfolding follow
  follow_result l rest (err e) = fail e
  follow_result l rest (ok target) = follow l rest target

  pub follow_link : (l : Loc) (rest : CString) → S → Round × S
  unfolding follow_result
  follow_link l rest s =
      if ltb max_symlinks (l.num_links + 1)
      then (fail eloop, s)
      else (let (target, s') = readlink (reverse l.dest) s in
          (follow_result (record l { num_links = l.num_links + 1 }) rest target, s'))

  -- What okfs_arglstat says of the path: an error is forgiven to a last component that does not
  -- exist, and a link is followed.
  pub looked_up : (l : Loc) (rest : CString) → Result Stat → S → Round × S
  unfolding follow_link empty_path
  looked_up l rest (err e) s = (if e == enoent && empty_path rest then go l else fail e, s)
  looked_up l rest (ok buf) s = if is_link_mode buf.st_mode then follow_link l rest s else (go l, s)

  -- A component that is neither `.` nor `..`: it is put behind the path, which is then looked up,
  -- unless it is the last one and its link is not to be read.
  pub visit : (l : Loc) (name rest : CString) → S → Round × S
  unfolding looked_up extend empty_path
  visit l name rest s =
      let l' = extend path_max l name rest in
      if not read_last_link && empty_path rest
      then (go l', s)
      else (let (st, s') = lstat (reverse l'.dest) s in looked_up l' rest st s')

  -- One round of the loop.
  unfoldable pub round : Loc → S → Round × S
  unfolding visit skip_slashes component behind back
  round l s =
      let start = skip_slashes l.end in
      let name = component start in
      let rest = behind start in
      if length name == 0
      then (done, s)
      else if str_eq name dot
      then (go (record l { end = rest }), s)
      else if str_eq name dot_dot
      then (go (record l { dest = back l.dest; end = rest }), s)
      else visit l name rest s

  -- The loop; `none`: out of fuel.
  pub walk : ℕ → Loc → S → Option (Result CString × S)
  unfolding round trim
  walk zero l s = none
  walk (suc fuel) l s =
      let (r, s') = round l s in
      elim r [
        | done ↦ some (ok (reverse (trim l.dest)), s')
        | fail e ↦ some (err e, s')
        | go l' ↦ walk fuel l' s'
      ]

  -- canonical(); a null pointer is `none`
  unfoldable pub canonical : ℕ → (cwd name : Option CString) → S → Option (Result CString × S)
  unfolding walk
  canonical fuel cwd none s = some (err einval, s)
  canonical fuel cwd (some []) s = some (err enoent, s)
  canonical fuel none (some (c ∷ name)) s =
      if c == b'/'
      then walk fuel (record { dest = b'/' ∷ []; limit = path_max; num_links = 0; end = c ∷ name })
          s
      else some (err einval, s)
  canonical fuel (some cwd) (some (c ∷ name)) s =
      let dest = if c == b'/' then b'/' ∷ [] else reverse cwd in
      walk fuel (record { dest = dest; limit = path_max; num_links = 0; end = c ∷ name }) s
