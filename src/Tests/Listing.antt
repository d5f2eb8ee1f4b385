-- ===== src/Tests/Listing.antt =====
-- A directory of three files, read with small buffers.
use okfs.Base.{ℕ, ◌≡◌, refl, List, [], ◌∷◌, length}
use okfs.Base.Int.{pos}
use okfs.Stat.{Result, ok, err}
use okfs.Dcache.{Dirent}
use okfs.Readdir.{
  reclen64, dirent64, reclen32, dirent32, creat_dirent64, creat_dirent, bytes_of, strncpy, skip,
  fill, filled_or, okfs_add_dirent,
}
use okfs.Readdir.Records.{Listed, creat_dirent-Listed}

abbrev three : List Dirent
three =
    okfs_add_dirent (okfs_add_dirent (okfs_add_dirent [] (b'a' ∷ []) 11 8) (b'b' ∷ b'b' ∷ []) 12 8)
      (b'c' ∷ []) 13 4

creat_dirent-Listed_example :
    Listed reclen64 dirent64 three (pos 1) 24 (creat_dirent64 three (pos 1) 24)
    × Listed reclen32 dirent32 three (pos 1) 24 (creat_dirent three (pos 1) 24)
creat_dirent-Listed_example = creat_dirent-Listed three (pos 1) 24

abbrev size_of : Result (List ℕ) → ℕ
size_of (ok out) = length out
size_of (err e) = 0

-- The first call gives the record of the first file, 21 bytes. The position moves by as many, which is
-- behind the names of all three files, so the next call finds the end of the directory.
first_call : size_of (creat_dirent64 three (pos 0) 24) ≡ 21
unfolding creat_dirent64 skip fill filled_or dirent64 bytes_of strncpy
first_call = refl

second_call : creat_dirent64 three (pos 21) 24 ≡ ok []
unfolding creat_dirent64 skip fill filled_or dirent64 bytes_of strncpy
second_call = refl
