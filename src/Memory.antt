-- ===== src/Memory.antt =====
-- memacc.c: reading and writing the memory of a traced process, word by word, through ptrace.
pub mod Bytes
pub mod Replace
pub mod Strings
use okfs.Base.{
  false, Bool, ℕ, zero, suc, ◌+◌, ◌-◌, ◌*◌, ◌/◌, ◌%◌, ◌^◌, ◌<◌, ◌≡◌, Bool, Option, none, some, List,
  [], ◌∷◌, ◌++◌, ◌||◌, ◌==◌, ltb, if◌then◌else◌, CString, length,
}

-- What the module relies on of PTRACE_PEEKDATA and PTRACE_POKEDATA, on a little-endian machine with
-- words of four bytes: the memory is a store of bytes, a peek reads four of them and a poke writes
-- four. `byte` is the content that the traced process sees.
pub record Ptrace : Type 1 where
  pub Mem : Type 0
  pub byte : Mem → ℕ → ℕ
  pub peek : Mem → ℕ → ℕ
  pub poke : Mem → ℕ → ℕ → Mem
  pub byte_lt : (m : Mem) (a : ℕ) → byte m a < 256
  pub peek_bytes :
      (m : Mem) (a : ℕ)
      → peek m a
        ≡ byte m a + 256 * byte m (a + 1) + 65536 * byte m (a + 2) + 16777216 * byte m (a + 3)
  pub byte_poke :
      (m : Mem) (a w b : ℕ)
      → byte (poke m a w) b ≡ (
          if b == a
          then w % 256
          else if b == a + 1
          then w / 256 % 256
          else if b == a + 2
          then w / 65536 % 256
          else if b == a + 3
          then w / 16777216 % 256
          else byte m b)

-- A buffer of the tracer, from a pointer on: the byte at each offset.
abbrev pub Buffer : Type 0
Buffer = ℕ → ℕ

-- *(long *)src
abbrev pub load_word : Buffer → ℕ
load_word s = s 0 + 256 * s 1 + 65536 * s 2 + 16777216 * s 3

abbrev pub advance : Buffer → Buffer
advance s i = s (i + 4)

-- The bytes of a word that is being taken apart by `*((char *)&word + i)`.
abbrev pub word_byte : ℕ → ℕ → ℕ
word_byte w i = w / 256 ^ i % 256

-- The bytes that a C string occupies: its characters and the NUL; `strncpy` pads with NULs.
abbrev pub cstr : CString → Buffer
cstr [] i = 0
cstr (c ∷ s) zero = c
cstr (c ∷ s) (suc i) = cstr s i

-- The four bytes of a word, in the order of the addresses.
pub word_bytes : ℕ → List ℕ
word_bytes w = word_byte w 0 ∷ word_byte w 1 ∷ word_byte w 2 ∷ word_byte w 3 ∷ []

unfoldable pub has_nul : List ℕ → Bool
has_nul [] = false
has_nul (c ∷ s) = c == 0 || has_nul s

module _ (P : Ptrace) where
  open P use {Mem, byte, peek, poke}

  -- The last n < 4 bytes: the word is read, its bytes from n on are kept (`word &= mask` with
  -- mask = ULONG_MAX << 8 n), and the low n bytes of the source are put in (`*src & ~mask`).
  memset_tail : Mem → ℕ → Buffer → ℕ → Mem
  memset_tail m d s n =
      let word = peek m d in poke m d (word / 2 ^ (8 * n) * 2 ^ (8 * n) + load_word s % 2 ^ (8 * n))

  -- slave_memset: whole words first, then the tail.
  pub memset : Mem → ℕ → Buffer → ℕ → Mem
  memset m d s (suc (suc (suc (suc n)))) = memset (poke m d (load_word s)) (d + 4) (advance s) n
  memset m d s zero = m
  memset m d s n = memset_tail m d s n

  -- A store of `count` bytes from `v` on at offset `at` of a buffer.
  abbrev pub put : Buffer → (at count : ℕ) → Buffer → Buffer
  put b at count v i = if ltb i at then b i else if ltb i (at + count) then v (i - at) else b i

  -- slave_memget: reads into the buffer `b` from offset `at` on. The tail takes single bytes.
  pub memget : Buffer → ℕ → Mem → ℕ → ℕ → Buffer
  memget b at m s (suc (suc (suc (suc n)))) =
      memget (put b at 4 (word_byte (peek m s))) (at + 4) m (s + 4) n
  memget b at m s zero = b
  memget b at m s n = put b at n (word_byte (peek m s))

  -- The fields of `struct task` that these functions use, with the process's memory.
  pub record Tracee : Type 0 where
    pub mem : P.Mem
    pub rpl_code : Option Buffer
    pub rpl_code_len : ℕ
    pub rpl_dest : ℕ

  -- What fresh memory from `Malloc` holds is not known; every byte of it is written before use.
  abbrev fresh : Buffer
  fresh i = 0

  -- slave_rpl_mem; `none` is err_quit, as an earlier replacement was not restored.
  unfoldable pub rpl_mem : Tracee → ℕ → Buffer → ℕ → Option Tracee
  unfolding memset memget memset_tail
  rpl_mem t dest src n = elim t.rpl_code [
    | some _ ↦ none
    | none ↦ some (record {
      mem = memset t.mem dest src n;
      rpl_code = some (memget fresh 0 t.mem dest n);
      rpl_code_len = n;
      rpl_dest = dest;
    })
  ]

  -- slave_rpl_known_str
  pub rpl_known_str : Tracee → ℕ → (newstring orig_string : CString) → Option Tracee
  unfolding memset memget memset_tail
  rpl_known_str t dest newstring orig_string = elim t.rpl_code [
    | some _ ↦ none
    | none ↦
        let n = length newstring + 1 in
        let o = length orig_string + 1 in
        let code = put fresh 0 n (cstr orig_string) in
        some (record {
          mem = memset t.mem dest (cstr newstring) n;
          rpl_code = some (if ltb o n then memget code o t.mem (dest + o) (n - o) else code);
          rpl_code_len = n;
          rpl_dest = dest;
        })
  ]

  -- slave_restore_mem
  unfoldable pub restore_mem : Tracee → Option Tracee
  unfolding memset memset_tail
  restore_mem t = elim t.rpl_code [
    | none ↦ none
    | some code ↦
        some (record t { mem = memset t.mem t.rpl_dest code t.rpl_code_len; rpl_code = none })
  ]

  -- The loop of slave_getstr. `string` is what was read so far, nreaded bytes of a buffer of n bytes.
  -- A word that holds a NUL ends it. `none`: out of fuel.
  getstr_loop : ℕ → Mem → (src n : ℕ) → List ℕ → Option (List ℕ × ℕ)
  getstr_loop zero m src n string = none
  getstr_loop (suc fuel) m src n string =
      let string' = string ++ word_bytes (peek m src) in
      let size = if length string' == n then n * 2 else n in
      let rest = getstr_loop fuel m (src + 4) size string' in
      if has_nul (word_bytes (peek m src)) then some (string', n) else rest

  -- slave_getstr: the bytes read and the size of the buffer; STRING_START_SIZE is WORDNBYTES * 8.
  pub getstr : ℕ → Mem → ℕ → Option (List ℕ × ℕ)
  unfolding getstr_loop
  getstr fuel m s = getstr_loop fuel m s 32 []
