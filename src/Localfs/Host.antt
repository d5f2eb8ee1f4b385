-- ===== src/Localfs/Host.antt =====
-- With nothing but localfs mounted, the calls of a process on paths are the system's calls on other
-- paths.
use mathlib.Core.Path.{subst}
use okfs.Base.{
  ◌⊎◌, ℕ, ◌+◌, ◌≡◌, refl, ap, sym, ◌∙◌, Bool, true, false, Option, none, some, List, [], ◌∷◌, ◌++◌,
  map, ◌==◌, ==_iff, Bool-cases, inl, inr, CString, starts_with, drop, length, if◌then◌else◌,
}
use okfs.Base.Int.{ℤ, pos, neg}
use okfs.Stat.{Result, ok, err, eopnotsupp}
use okfs.Memory.{Buffer}
use okfs.Localfs.{LocalOs, localfs_entry, localfs_at}
use okfs.Vfs.{
  on_world, Op, FsEntry, Superblock, Env, Resolved, Vfs, find_mount, call, locate, value, call_fs,
  FsOp,
}
use okfs.Vfs.Calls.{after_success, ask_os, delegate, with_args}

-- The path that the system sees: the first mount point that the path starts with is taken off, and
-- the directory behind it put in its place.
pub host : List (CString × CString) → CString → CString
host [] path = path
host ((mnt_point, fs_spec) ∷ rest) path =
    if starts_with mnt_point path then fs_spec ++ drop (length mnt_point) path else host rest path

-- The switch with these directories mounted
abbrev pub with_mounts : (E : Env) → LocalOs E.World → List (CString × CString) → Env
with_mounts E l mounts = record E { mounted_fs = map (localfs_at E.os l) mounts }

-- The calls on one path that localfs hands to the system, with the operation of the switch and the
-- system's call. For chown it is that of localfs.
pub data Forwarded (E : Env) (l : LocalOs E.World)
    : (FsEntry E.World → Option (CString → FsOp E.World ℕ))
      → (CString → Op E.World ℕ)
      → Type 0 where
  rmdir : Forwarded E l (λ e. e.rmdir) E.os.rmdir
  unlink : Forwarded E l (λ e. e.unlink) E.os.unlink
  mkdir :
      (mode : ℕ)
      → Forwarded E l (λ e. with_args E e.mkdir (λ f. f mode)) (λ path. E.os.mkdir path mode)
  access :
      (mode : ℕ)
      → Forwarded E l (λ e. with_args E e.access (λ f. f mode)) (λ path. E.os.access path mode)
  chmod :
      (mode : ℕ)
      → Forwarded E l (λ e. with_args E e.chmod (λ f. f mode)) (λ path. E.os.chmod path mode)
  truncate :
      (size : ℕ)
      → Forwarded E l (λ e. with_args E e.truncate (λ f. f size)) (λ path. E.os.truncate path size)
  utime :
      (buf : Option Buffer)
      → Forwarded E l (λ e. with_args E e.utime (λ f. f buf)) (λ path. E.os.utime path buf)

module _ (E : Env) (l : LocalOs E.World) (mounts : List (CString × CString)) where
  forwards :
      (fs_op : FsEntry E.World → Option (CString → FsOp E.World ℕ)) (os_op : CString → Op E.World ℕ)
      (fs_spec : CString)
      → Forwarded E l fs_op os_op
      → fs_op (localfs_entry E.os l fs_spec) ≡ some (λ path. on_world (os_op (fs_spec ++ path)))
  forwards _ _ fs_spec rmdir = refl
  forwards _ _ fs_spec unlink = refl
  forwards _ _ fs_spec (mkdir mode) = refl
  forwards _ _ fs_spec (access mode) = refl
  forwards _ _ fs_spec (chmod mode) = refl
  forwards _ _ fs_spec (truncate size) = refl
  forwards _ _ fs_spec (utime buf) = refl

  -- What find_mount finds, and the path that the system sees
  abbrev Hosts : List (CString × CString) → CString → Option (ℕ × Superblock E.World) → Type 0
  Hosts ms path none = host ms path ≡ path
  Hosts ms path (some (i, fsp)) =
      (fs_spec : CString) × (fsp.entry ≡ localfs_entry E.os l fs_spec)
      × (host ms path ≡ fs_spec ++ drop (length fsp.mnt_point) path)

  find_mount-Hosts :
      (i : ℕ) (ms : List (CString × CString)) (path : CString)
      → Hosts ms path (find_mount i (map (localfs_at E.os l) ms) path)
  unfolding find_mount host
  find_mount-Hosts i [] path = refl
  find_mount-Hosts i ((mnt_point, fs_spec) ∷ rest) path =
      go (starts_with mnt_point path) (find_mount (1 + i) (map (localfs_at E.os l) rest) path) refl
        (find_mount-Hosts (1 + i) rest path)
    where
      go :
          (b : Bool) (o : Option (ℕ × Superblock E.World))
          → starts_with mnt_point path ≡ b
          → Hosts rest path o
          → Hosts
              ((mnt_point, fs_spec) ∷ rest)
              path
              (if b then some (i, localfs_at E.os l (mnt_point, fs_spec)) else o)
      go true o e h = (fs_spec, refl, rw e refl)
      go false none e h = rw e h
      go false (some (j, fsp)) e (spec, entry, hosted) = (spec, entry, rw e hosted)

  -- How a call ends that the system answers with r: the process gets what the system said, and the
  -- world is as the system left it; or the change of the cache, which follows 0, reads a bad pointer.
  abbrev pub Ends :
      (after : Vfs (with_mounts E l mounts) → Option (Vfs (with_mounts E l mounts)))
      → Vfs (with_mounts E l mounts)
      → Result ℕ × E.World
      → Option (ℤ × Vfs (with_mounts E l mounts))
      → Type 0
  Ends after s (r, w) result =
      ((s' : Vfs (with_mounts E l mounts)) × (result ≡ some (value r, s')) × (s'.world ≡ w))
      ⊎ (result ≡ none) × (r ≡ ok 0) × (after (record s { world = w }) ≡ none)

  success-Ends :
      (after : Vfs (with_mounts E l mounts) → Option (Vfs (with_mounts E l mounts)))
      → ((s s' : Vfs (with_mounts E l mounts)) → after s ≡ some s' → s'.world ≡ s.world)
      → (s : Vfs (with_mounts E l mounts)) (r : Result ℕ) (w : E.World)
      → Ends after s
          (r, w)
          (after_success (with_mounts E l mounts) after (r, record s { world = w }))
  unfolding after_success
  success-Ends after keeps s (err e) w = inl (record s { world = w }, refl, refl)
  success-Ends after keeps s (ok n) w = elim (Bool-cases (n == 0)) [
    | inl nothing ↦ first nothing (after (record s { world = w })) refl
    | inr more ↦ inl (record s { world = w }, rw more refl, refl)
  ]
    where
      first :
          (n == 0) ≡ true
          → (o : Option (Vfs (with_mounts E l mounts))) → after (record s { world = w }) ≡ o
          → Ends after s
              (ok n, w)
              (after_success (with_mounts E l mounts) after (ok n, record s { world = w }))
      first z none e = inr (rw (z, after_success, e) refl, ap ok ((==_iff n 0).0 z), e)
      first z (some s') e = inl (
        s',
        rw (z, after_success, e) (ap (λ k. some (pos k, s')) (sym ((==_iff n 0).0 z))),
        keeps (record s { world = w }) s' e,
      )

  -- The number of the file system of a path, 0 for none
  abbrev pub number_of : Resolved E.World → ℕ
  number_of r = elim r.place [ none ↦ 0 | some p ↦ p.number ]

  -- Where only localfs is mounted, at any places and from any directories: a call on one path that
  -- localfs has, and whose change of the cache does not touch the world, gives the process for a
  -- path exactly what the system's call returns for the path with its mount point replaced by the
  -- directory behind it (for a path under no mount point, the path itself), and leaves the world as
  -- that call does. The one other end is that the system returned 0 and the change of the cache of
  -- that path then reads a bad pointer.
  pub delegate-host :
      (fs_op : FsEntry E.World → Option (CString → FsOp E.World ℕ)) (os_op : CString → Op E.World ℕ)
      (after : ℕ → CString → Vfs (with_mounts E l mounts) → Option (Vfs (with_mounts E l mounts)))
      → Forwarded E l fs_op os_op
      → ((i : ℕ) (path : CString) (s s' : Vfs (with_mounts E l mounts))
          → after i path s ≡ some s'
          → s'.world ≡ s.world)
      → (path : CString) (s : Vfs (with_mounts E l mounts))
      → Ends
          (after (number_of (locate (with_mounts E l mounts) path)) path)
          s
          (os_op (host mounts path) s.world)
          (delegate
            (with_mounts E l mounts)
            fs_op
            after
            os_op
            (locate (with_mounts E l mounts) path)
            s)
  unfolding delegate locate ask_os call call_fs
  delegate-host fs_op os_op after f keeps path s =
      go (find_mount 0 (map (localfs_at E.os l) mounts) path) (find_mount-Hosts 0 mounts path)
    where
      E' : Env
      E' = with_mounts E l mounts

      place : Option (ℕ × Superblock E.World) → Resolved E.World
      place o = elim o [
        | none ↦ record { canon_path = path; place = none }
        | some (i, fsp) ↦ record {
          canon_path = path;
          place =
              some (record { number = i; fsp = fsp; rel_path = drop (length fsp.mnt_point) path });
        }
      ]

      go :
          (o : Option (ℕ × Superblock E.World))
          → Hosts mounts path o
          → Ends
              (after (number_of (place o)) path)
              s
              (os_op (host mounts path) s.world)
              (delegate E' fs_op after os_op (place o) s)
      go none h =
          subst
            (λ p.
              Ends (after 0 path) s (os_op p s.world)
                (delegate E' fs_op after os_op (place none) s))
            (sym h) (inl (record s { world = (os_op path s.world).1 }, refl, refl))
      go (some (i, fsp)) (spec, entry, h) =
          let rel = drop (length fsp.mnt_point) path in
          let op = os_op (spec ++ rel) in
          let result = delegate E' fs_op after os_op (place (some (i, fsp))) s in
          let runs : after_success E' (after i path)
                ((op s.world).0, record s { world = (op s.world).1 })
              ≡ result =
            ap
              (λ o. elim o [
                | none ↦ some (neg eopnotsupp, s)
                | some f' ↦ after_success E' (after i path) (call_fs E' (f' rel) s)
              ])
              (sym (ap fs_op entry ∙ forwards fs_op os_op spec f)) in
          subst (λ p. Ends (after i path) s (os_op p s.world) result) (sym h)
            (subst (λ x. Ends (after i path) s (op s.world) x) runs
              (success-Ends (after i path) (keeps i path) s (op s.world).0 (op s.world).1))
