-- ===== src/Tests/Paths.antt =====
-- A file system in which every file is a directory, and one in which every file is a link.
use okfs.Base.{ℕ, ◌+◌, ◌<◌, ◌≡◌, refl, true, some, [], ◌∷◌, CString, arith}
use okfs.Stat.{Stat, Result, ok, err, eloop}
use okfs.Namei.{Loc, go, round, canonical}
use okfs.Namei.Form.{IsCanonical, spell, render}
use okfs.Namei.Walk.{canonical-IsCanonical}
use okfs.Namei.Bounds.{Fits, measure, round-Fits, canonical_ends}
use okfs.Namei.Fixed.{canonical-fixed}

abbrev pub stat_of_mode : ℕ → Stat
stat_of_mode mode = record {
  st_dev = 1;
  st_rdev = 0;
  st_ino = 2;
  st_mode = mode;
  st_nlink = 1;
  st_uid = 0;
  st_gid = 0;
  st_atime = 0;
  st_mtime = 0;
  st_ctime = 0;
  st_size = 0;
  st_blocks = 0;
  st_blksize = 0;
}

-- The state counts the lookups. 16384 is S_IFDIR, 40960 is S_IFLNK.
abbrev pub dirs : CString → ℕ → Result Stat × ℕ
dirs p n = (ok (stat_of_mode 16384), n + 1)

abbrev links : CString → ℕ → Result Stat × ℕ
links p n = (ok (stat_of_mode 40960), n + 1)

-- Every link points at "/usr".
abbrev pub to_usr : CString → ℕ → Result CString × ℕ
to_usr p n = (ok (b'/' ∷ b'u' ∷ b's' ∷ b'r' ∷ []), n)

abbrev pub slash : CString
slash = b'/' ∷ []

abbrev pub slash_a : CString
slash_a = b'/' ∷ b'a' ∷ []

-- "../a"
abbrev up_a : CString
up_a = b'.' ∷ b'.' ∷ b'/' ∷ b'a' ∷ []

pub root_IsCanonical : IsCanonical slash
unfolding spell
root_IsCanonical = record { names = []; are_names = tt; spelled = refl }

slash_a-IsCanonical : IsCanonical slash_a
unfolding spell render
slash_a-IsCanonical = record {
  names = (b'a' ∷ []) ∷ [];
  are_names = (record { nonempty = refl; no_slash = refl; not_dot = refl; not_dot_dot = refl }, tt);
  spelled = refl;
}

-- What canonical() makes of "../a" in the root
canonical-up_a : canonical dirs to_usr 64 true 200 (some slash) (some up_a) 0 ≡ some (ok slash_a, 1)
unfolding canonical
canonical-up_a = refl

-- A path of which every component is a link ends in ELOOP.
canonical_links :
    canonical links to_usr 64 true 200 (some slash) (some slash_a) 0 ≡ some (err eloop, 21)
unfolding canonical
canonical_links = refl

canonical-IsCanonical_example : IsCanonical slash_a
canonical-IsCanonical_example =
    canonical-IsCanonical dirs to_usr 64 true 200 (some slash) (some up_a) 0 slash_a 1
      root_IsCanonical canonical-up_a

canonical_ends_example :
    (r : Result CString × ℕ) × (canonical links to_usr 64 true 2000 (some slash) (some up_a) 0
      ≡ some r)
canonical_ends_example =
    canonical_ends links to_usr 64 true (omega arith) 2000 (some slash) (some up_a) 0 (omega arith)
      (omega arith)

canonical-fixed_example :
    (s' : ℕ) × (canonical dirs to_usr 64 true 3 (some up_a) (some slash_a) 0
      ≡ some (ok slash_a, s'))
canonical-fixed_example =
    canonical-fixed dirs to_usr 64 true 3 (some up_a) slash_a 0
      (λ p n. (stat_of_mode 16384, n + 1, refl, refl)) slash_a-IsCanonical (omega arith)

-- The variables of the loop at "/" with "a" to read, and after it
abbrev before_a : Loc
before_a = record { dest = slash; limit = 64; num_links = 0; end = b'a' ∷ [] }

abbrev after_a : Loc
after_a = record { dest = b'a' ∷ b'/' ∷ []; limit = 64; num_links = 0; end = [] }

round_a : round dirs to_usr 64 true before_a 0 ≡ (go after_a, 1)
unfolding round
round_a = refl

round-Fits_example : Fits 64 after_a × (measure 64 after_a < measure 64 before_a)
round-Fits_example =
    round-Fits dirs to_usr 64 true (omega arith) before_a after_a 0 1
      (record { links = omega arith; room = omega arith; wide = omega arith }) round_a
