-- ===== src/Tests/Filling.antt =====
-- A file system whose lstat puts what it finds into the cache itself, as that of shfs does.
use mathlib.Core.Option.{some-injective}
use okfs.Base.{ℕ, ◌+◌, ◌≡◌, refl, ap, sym, ◌∙◌, none, some, CString}
use okfs.Stat.{Stat, Result, ok, err}
use okfs.Dcache.{find_inode, find_path, add_inode, update}
use okfs.Vfs.{FsOp, Shared, Superblock, Vfs, cached, dolstat}
use okfs.Vfs.Caching.{Linked, Truthful, Grown, add_inode-Grown, dolstat-again}
use okfs.Tests.Paths.{stat_of_mode, slash_a}
use okfs.Tests.Switch.{env, start, no_cache, m_a, mounted}

nothing_cached : Linked env no_cache
unfolding find_inode find_path
nothing_cached path p h = cc

abbrev filled : Shared ℕ → Shared ℕ
filled t = record {
  world = t.world + 1;
  caches =
      update t.caches 0 (add_inode env.full_name_hash (t.caches 0) m_a (stat_of_mode 16384) none).1;
}

abbrev filling_lstat : CString → FsOp ℕ Stat
filling_lstat path t = (ok (stat_of_mode 16384), filled t)

abbrev filling : Superblock ℕ
filling = record mounted { entry = record (mounted.entry) { lstat = some filling_lstat } }

stat_in : Result Stat → Stat
stat_in (ok buf) = buf
stat_in (err e) = stat_of_mode 0

same :
    (t t' : Shared ℕ) (buf known : Stat)
    → Linked env (t.caches 0)
    → filling_lstat slash_a t ≡ (ok buf, t')
    → cached env (t'.caches 0) m_a ≡ some known
    → (known.st_dev ≡ buf.st_dev) × (known.st_ino ≡ buf.st_ino)
unfolding stat_in
same t t' buf known l e hit = (
  sym (ap (λ (u : Stat). u.st_dev) k)
      ∙ g.same_dev
      ∙ ap (λ (r : Result Stat × Shared ℕ). (stat_in r.0).st_dev) e,
  sym (ap (λ (u : Stat). u.st_ino) k)
      ∙ g.same_ino
      ∙ ap (λ (r : Result Stat × Shared ℕ). (stat_in r.0).st_ino) e,
)
  where
    g :
        Grown env
          (add_inode env.full_name_hash (t.caches 0) m_a (stat_of_mode 16384) none).1
          m_a
          (stat_of_mode 16384)
    g = add_inode-Grown env (t.caches 0) m_a (stat_of_mode 16384) none l

    k : g.known ≡ known
    k = some-injective _ _ (
        sym g.is_cached
        ∙ ap (λ (r : Result Stat × Shared ℕ). cached env (r.1.caches 0) m_a) e
        ∙ hit)

filling_lstat-Truthful : Truthful env 0 m_a (filling_lstat slash_a)
filling_lstat-Truthful = record {
  keeps = λ t l. (add_inode-Grown env (t.caches 0) m_a (stat_of_mode 16384) none l).linked;
  agrees = λ t t' buf known l miss e hit. same t t' buf known l e hit;
}

abbrev asked : Vfs env
asked = (dolstat env 0 filling m_a slash_a start).1

asked_ok : dolstat env 0 filling m_a slash_a start ≡ (ok (stat_of_mode 16384), asked)
unfolding dolstat find_inode add_inode
asked_ok = refl

dolstat-again_example :
    Linked env (asked.caches 0)
    × ((known : Stat) × (dolstat env 0 filling m_a slash_a asked ≡ (ok known, asked))
        × (known.st_dev ≡ (stat_of_mode 16384).st_dev)
        × (known.st_ino ≡ (stat_of_mode 16384).st_ino))
dolstat-again_example =
    dolstat-again env 0 filling m_a slash_a start asked (stat_of_mode 16384) filling_lstat refl
      filling_lstat-Truthful nothing_cached asked_ok
