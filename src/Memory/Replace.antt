-- ===== src/Memory/Replace.antt =====
-- What is replaced in the memory of a process is restored to the byte.
use okfs.Base.{
  Bool-cases, ℕ, zero, suc, ◌+◌, ◌-◌, ◌<◌, ◌≤◌, ◌≡◌, refl, none, some, ltb, if◌then◌else◌, arith,
  inl, inr, ap, ◌∙◌, sym, CString, length, [], ◌∷◌,
}
use okfs.Memory.{
  Ptrace, Buffer, memset, memget, put, cstr, Tracee, fresh, rpl_mem, rpl_known_str, restore_mem,
}
use okfs.Memory.Bytes.{IsBytes, put_in, at_offset, memset_exact, memget_exact}

module _ (P : Ptrace) where
  open P use {Mem, byte}

  -- Writing back what was read restores every byte.
  written_back :
      (m : Mem) (d n : ℕ) (s c : Buffer)
      → IsBytes s
      → IsBytes c
      → ((i : ℕ) → i < n → c i ≡ byte m (d + i))
      → (a : ℕ) → byte (memset P (memset P m d s n) d c n) a ≡ byte m a
  written_back m d n s c b b' same a =
      let m' = memset P m d s n in
      ground (
        arith,
        (memset_exact P m d s n b).1 a,
        (memset_exact P m' d c n b').1 a,
        (memset_exact P m' d c n b').0 (a - d),
        same (a - d),
        at_offset P m d a,
        at_offset P (memset P m' d c n) d a,
      )

  fresh-IsBytes : IsBytes (fresh P)
  fresh-IsBytes i = omega arith

  memget-IsBytes :
      (b : Buffer) (at : ℕ) (m : Mem) (d n : ℕ) → IsBytes b → IsBytes (memget P b at m d n)
  memget-IsBytes b at m d n bytes j = ground (
    arith,
    (memget_exact P b at m d n).1 j,
    (memget_exact P b at m d n).0 (j - at),
    ap (memget P b at m d n) {x = at + (j - at)} {y = j},
    bytes j,
    P.byte_lt m (d + (j - at)),
  )

  -- slave_rpl_mem, where nothing is replaced yet, puts the new bytes in the memory, and
  -- slave_restore_mem after it gives back every byte and forgets the replacement.
  pub restore_mem-rpl_mem :
      (t : Tracee P) (dest n : ℕ) (src : Buffer)
      → IsBytes src
      → t.rpl_code ≡ none
      → (t' : Tracee P) × (rpl_mem P t dest src n ≡ some t')
        × ((i : ℕ) → i < n → byte t'.mem (dest + i) ≡ src i)
        × (t'' : Tracee P) × (restore_mem P t' ≡ some t'')
        × (t''.rpl_code ≡ none)
        × ((a : ℕ) → byte t''.mem a ≡ byte t.mem a)
  unfolding rpl_mem restore_mem
  restore_mem-rpl_mem t dest n src b e =
      let code = memget P (fresh P) 0 t.mem dest n in
      let m' = memset P t.mem dest src n in
      (
        record { mem = m'; rpl_code = some code; rpl_code_len = n; rpl_dest = dest },
        rw (e, rpl_mem),
        (memset_exact P t.mem dest src n b).0,
        record {
          mem = memset P m' dest code n;
          rpl_code = none;
          rpl_code_len = n;
          rpl_dest = dest;
        },
        refl,
        refl,
        written_back t.mem dest n src code b (memget-IsBytes (fresh P) 0 t.mem dest n fresh-IsBytes)
            (λ i h. ap code (omega arith) ∙ (memget_exact P (fresh P) 0 t.mem dest n).0 i h),
      )

  -- The bytes that slave_rpl_known_str saves: the old string, which is known, and what is behind it
  -- where the new string is the longer one.
  saved : Mem → ℕ → (newstring orig_string : CString) → Buffer
  saved m dest newstring orig_string =
      let n = length newstring + 1 in
      let o = length orig_string + 1 in
      let code = put P (fresh P) 0 n (cstr orig_string) in
      if ltb o n then memget P code o m (dest + o) (n - o) else code

  saved-known :
      (m : Mem) (dest n o i : ℕ) (code : Buffer)
      → ((i : ℕ) → i < n → i < o → code i ≡ byte m (dest + i))
      → i < n
      → (if ltb o n then memget P code o m (dest + o) (n - o) else code) i ≡ byte m (dest + i)
  saved-known m dest n o i code known h = elim (Bool-cases (ltb o n)) [
    | inl longer ↦ rw longer (
        ground (
          arith,
          (memget_exact P code o m (dest + o) (n - o)).1 i,
          (memget_exact P code o m (dest + o) (n - o)).0 (i - o),
          ap (memget P code o m (dest + o) (n - o)) {x = o + (i - o)} {y = i},
          ap (byte m) {x = dest + o + (i - o)} {y = dest + i},
          known i,
        ))
    | inr shorter ↦ rw shorter (known i h (ground arith))
  ]

  saved-eq :
      (m : Mem) (dest : ℕ) (newstring orig_string : CString)
      → ((i : ℕ) → i < length orig_string + 1 → byte m (dest + i) ≡ cstr orig_string i)
      → (i : ℕ) → i < length newstring + 1
      → saved m dest newstring orig_string i ≡ byte m (dest + i)
  unfolding saved
  saved-eq m dest newstring orig_string known i h =
      let n = length newstring + 1 in
      let o = length orig_string + 1 in
      saved-known m dest n o i (put P (fresh P) 0 n (cstr orig_string))
        (λ j p q.
          ap (put P (fresh P) 0 n (cstr orig_string)) {x = j} {y = 0 + j} (omega arith)
          ∙ put_in P (fresh P) (cstr orig_string) 0 n j p
          ∙ sym (known j q))
        h

  saved-IsBytes :
      (m : Mem) (dest : ℕ) (newstring orig_string : CString)
      → IsBytes (cstr orig_string)
      → IsBytes (saved m dest newstring orig_string)
  unfolding saved
  saved-IsBytes m dest newstring orig_string bytes =
      let n = length newstring + 1 in
      let o = length orig_string + 1 in
      let code = put P (fresh P) 0 n (cstr orig_string) in
      let code-IsBytes : IsBytes code = λ i. ground (arith, bytes (i - 0)) in
      elim (Bool-cases (ltb o n)) [
        | inl longer ↦ rw longer (memget-IsBytes code o m (dest + o) (n - o) code-IsBytes)
        | inr shorter ↦ rw shorter code-IsBytes
      ]

  cstr_beyond : (s : CString) (i : ℕ) → length s ≤ i → cstr s i ≡ 0
  cstr_beyond [] i h = refl
  cstr_beyond (c ∷ s) zero h = absurd (omega arith)
  cstr_beyond (c ∷ s) (suc i) h = cstr_beyond s i (omega arith)

  -- The string that the process holds at `dest`, with its NUL.
  abbrev pub Holds : Mem → ℕ → CString → Type 0
  Holds m dest s = (i : ℕ) → i < length s + 1 → byte m (dest + i) ≡ cstr s i

  Holds-IsBytes : (m : Mem) (dest : ℕ) (s : CString) → Holds m dest s → IsBytes (cstr s)
  Holds-IsBytes m dest s h i = ground (arith, h i, P.byte_lt m (dest + i), cstr_beyond s i)

  -- slave_rpl_known_str, where nothing is replaced yet and the process holds the original string at
  -- `dest`, makes the process hold the new string there; slave_restore_mem after it gives back every
  -- byte, those behind a shorter original string too, and forgets the replacement.
  pub restore_mem-rpl_known_str :
      (t : Tracee P) (dest : ℕ) (newstring orig_string : CString)
      → IsBytes (cstr newstring)
      → Holds t.mem dest orig_string
      → t.rpl_code ≡ none
      → (t' : Tracee P) × (rpl_known_str P t dest newstring orig_string ≡ some t')
        × Holds t'.mem dest newstring
        × (t'' : Tracee P) × (restore_mem P t' ≡ some t'')
        × (t''.rpl_code ≡ none)
        × ((a : ℕ) → byte t''.mem a ≡ byte t.mem a)
  unfolding rpl_known_str restore_mem saved
  restore_mem-rpl_known_str t dest newstring orig_string b known e =
      let n = length newstring + 1 in
      let code = saved t.mem dest newstring orig_string in
      let m' = memset P t.mem dest (cstr newstring) n in
      (
        record { mem = m'; rpl_code = some code; rpl_code_len = n; rpl_dest = dest },
        rw (e, rpl_known_str),
        (memset_exact P t.mem dest (cstr newstring) n b).0,
        record {
          mem = memset P m' dest code n;
          rpl_code = none;
          rpl_code_len = n;
          rpl_dest = dest;
        },
        refl,
        refl,
        written_back t.mem dest n (cstr newstring) code b
            (saved-IsBytes t.mem dest newstring orig_string
              (Holds-IsBytes t.mem dest orig_string known))
            (λ i h. saved-eq t.mem dest newstring orig_string known i h),
      )
