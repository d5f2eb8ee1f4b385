-- ===== src/Vfs/Bodies.antt =====
-- The parts that the handlers are made of keep the state fine.
use okfs.Base.{ℕ, refl, Option, none, some, ◌==◌, ltb, CString, length}
use okfs.Base.Int.{pos}
use okfs.Stat.{Stat, Result, ok, err, is_dir_mode}
use okfs.Memory.{Buffer}
use okfs.Namei.Form.{IsCanonical}
use okfs.Vfs.{Op, FsEntry, Env, Resolved, Vfs, call_fs, FsOp}
use okfs.Vfs.Calls.{after_success, ask_os, delegate, nothing, adds, resizes}
use okfs.Vfs.Entries.{remove_entry}
use okfs.Vfs.Pairs.{on_pair, give_text, give_buffer, enter}
use okfs.Vfs.Stats.{Layout64, Stat64, give_stat, give_stat64, widened}
use okfs.Vfs.Keeps.{
  on_option, on_test, Fine, Fine-refl, Fine-trans, FineEnd, FineState, call-Fine, call_fs-Fine,
  add_entry-Fine, remove_entry-Fine,
}

-- A change of the cache that follows a call.
unfoldable pub Gentle : {E : Env} → (Vfs E → Option (Vfs E)) → Type 0
Gentle {E} after = (s : Vfs E) → FineState s (after s)

module _ (E : Env) where
  open E use {World, os, ptrace, full_name_hash}

  pub after_success-Fine :
      (after : Vfs E → Option (Vfs E))
      → Gentle after
      → (s : Vfs E) (x : Result ℕ × Vfs E) → Fine s x.1
      → FineEnd s (after_success E after x)
  unfolding after_success FineEnd FineState Gentle
  after_success-Fine after g s (err e, t) h = h
  after_success-Fine after g s (ok n, t) h =
      on_test (FineEnd s) (n == 0) _ _ (changed (after t) (g t)) h
    where
      changed :
          (o : Option (Vfs E))
          → FineState t o
          → FineEnd s (elim o [ none ↦ none | some s' ↦ some (pos 0, s') ])
      changed none f = tt
      changed (some t') f = Fine-trans h f

  pub ask_os-Fine : (op : Op World ℕ) (s : Vfs E) → FineEnd s (ask_os E op s)
  unfolding ask_os FineEnd
  ask_os-Fine op s = call-Fine E op s

  pub delegate-Fine :
      (fs_op : FsEntry World → Option (CString → FsOp World ℕ))
      (after : ℕ → CString → Vfs E → Option (Vfs E)) (os_op : CString → Op World ℕ)
      (r : Resolved World) (s : Vfs E)
      → ((i : ℕ) (p : CString) → Gentle (after i p))
      → FineEnd s (delegate E fs_op after os_op r s)
  unfolding delegate FineEnd
  delegate-Fine fs_op after os_op r s g =
      on_option (FineEnd s) r.place _ _ (ask_os-Fine (os_op r.canon_path) s) (λ p.
        on_option (FineEnd s) (fs_op p.fsp.entry) _ _ (Fine-refl s) (λ op.
          after_success-Fine _ (g p.number r.canon_path) s (call_fs E (op p.rel_path) s)
            (call_fs-Fine E (op p.rel_path) s)))

  pub nothing-Gentle : (i : ℕ) (p : CString) → Gentle (nothing E i p)
  unfolding Gentle FineState
  nothing-Gentle i p s = Fine-refl s

  pub adds-Gentle : (i : ℕ) (p : CString) → Gentle (adds E i p)
  unfolding Gentle FineState
  adds-Gentle i p s = add_entry-Fine E i p s

  pub removes-Gentle : (i : ℕ) (p : CString) → Gentle (remove_entry E i p)
  unfolding Gentle
  removes-Gentle i p s = remove_entry-Fine E i p s

  pub resizes-Gentle : (length i : ℕ) (p : CString) → Gentle (resizes E length i p)
  unfolding Gentle FineState resizes
  resizes-Gentle length i p s = record { callfs1 = refl; callfs2 = refl; cwd = λ h. h }

  pub on_pair-Fine :
      (missing : ℕ) (fs_op : FsEntry World → Option (CString → CString → FsOp World ℕ))
      (after : ℕ → (path1 path2 : CString) → Vfs E → Option (Vfs E))
      (os_op : CString → CString → Op World ℕ) (r1 r2 : Resolved World) (s : Vfs E)
      → ((i : ℕ) (p q : CString) → Gentle (after i p q))
      → FineEnd s (on_pair E missing fs_op after os_op r1 r2 s)
  unfolding on_pair FineEnd
  on_pair-Fine missing fs_op after os_op r1 r2 s g =
      on_option (FineEnd s) r1.place _ _ (ask_os-Fine _ s) (λ p1.
        on_option (FineEnd s) (fs_op p1.fsp.entry) _ _ (Fine-refl s) (λ op.
          on_option (FineEnd s) r2.place _ _ tt (λ p2.
            after_success-Fine _ (g p1.number r1.canon_path r2.canon_path) s
              (call_fs E (op p1.rel_path p2.rel_path) s)
              (call_fs-Fine E (op p1.rel_path p2.rel_path) s))))

  -- The answers that are put into the process's memory
  pub give_text-Fine :
      (arg2 : ℕ) (s : Vfs E) (x : Result CString × Vfs E)
      → Fine s x.1
      → FineEnd s (give_text E arg2 x)
  unfolding give_text FineEnd
  give_text-Fine arg2 s (err e, t) h = h
  give_text-Fine arg2 s (ok buf, t) h =
      on_test (Fine s) (ltb 0 (length buf)) _ _
        (record { callfs1 = h.callfs1; callfs2 = h.callfs2; cwd = h.cwd }) h

  pub give_buffer-Fine :
      (size arg2 : ℕ) (s : Vfs E) (x : Result Buffer × Vfs E)
      → Fine s x.1
      → FineEnd s (give_buffer E size arg2 x)
  unfolding give_buffer FineEnd
  give_buffer-Fine size arg2 s (err e, t) h = h
  give_buffer-Fine size arg2 s (ok buf, t) h = record {
    callfs1 = h.callfs1;
    callfs2 = h.callfs2;
    cwd = h.cwd;
  }

  pub give_stat-Fine :
      (arg2 : ℕ) (s : Vfs E) (x : Result Stat × Vfs E) → Fine s x.1 → FineEnd s (give_stat E arg2 x)
  unfolding give_stat FineEnd
  give_stat-Fine arg2 s (err e, t) h = h
  give_stat-Fine arg2 s (ok buf, t) h = record {
    callfs1 = h.callfs1;
    callfs2 = h.callfs2;
    cwd = h.cwd;
  }

  pub give_stat64-Fine :
      (L : Layout64 World) (arg2 : ℕ) (s : Vfs E) (x : Result Stat64 × Vfs E)
      → Fine s x.1
      → FineEnd s (give_stat64 E L arg2 x)
  unfolding give_stat64 FineEnd
  give_stat64-Fine L arg2 s (err e, t) h = h
  give_stat64-Fine L arg2 s (ok buf, t) h = record {
    callfs1 = h.callfs1;
    callfs2 = h.callfs2;
    cwd = h.cwd;
  }

  pub widened-Fine : (s : Vfs E) (x : Result Stat × Vfs E) → Fine s x.1 → Fine s (widened E x).1
  widened-Fine s (err e, t) h = h
  widened-Fine s (ok buf, t) h = h

  pub enter-Fine :
      (p : CString) (s : Vfs E) (x : Result Stat × Vfs E)
      → IsCanonical p
      → Fine s x.1
      → FineEnd s (enter E p x)
  unfolding enter FineEnd
  enter-Fine p s (err e, t) c h = h
  enter-Fine p s (ok buf, t) c h =
      on_test (FineEnd s) (is_dir_mode buf.st_mode) _ _
        (record { callfs1 = h.callfs1; callfs2 = h.callfs2; cwd = λ k. c }) h
