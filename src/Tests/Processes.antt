-- ===== src/Tests/Processes.antt =====
-- A process with a plain memory.
use okfs.Base.{
  ℕ, zero, suc, ◌+◌, ◌*◌, ◌/◌, ◌%◌, ◌<◌, ◌≤◌, ◌≡◌, refl, ◌⊎◌, none, some, List, [], ◌∷◌, ◌==◌,
  if◌then◌else◌, length, arith,
}
use okfs.Memory.{
  Ptrace, Buffer, cstr, memset, memget, Tracee, rpl_mem, rpl_known_str, restore_mem, getstr,
}
use okfs.Memory.Bytes.{memset_exact, memget_exact}
use okfs.Memory.Replace.{Holds, restore_mem-rpl_mem, restore_mem-rpl_known_str}
use okfs.Memory.Strings.{c_string, getstr-text}

abbrev pub poke_word : (ℕ → ℕ) → ℕ → ℕ → ℕ → ℕ
poke_word m a w b =
    if b == a
    then w
    else if b == a + 1
    then w / 256
    else if b == a + 2
    then w / 65536
    else if b == a + 3
    then w / 16777216
    else m b

pub byte-poke_word :
    (m : ℕ → ℕ) (a w b : ℕ)
    → poke_word m a w b % 256 ≡ (
        if b == a
        then w % 256
        else if b == a + 1
        then w / 256 % 256
        else if b == a + 2
        then w / 65536 % 256
        else if b == a + 3
        then w / 16777216 % 256
        else m b % 256)
byte-poke_word m a w b = ground arith

abbrev pub ram : Ptrace
ram = record {
  Mem = ℕ → ℕ;
  byte = λ m a. m a % 256;
  peek = λ m a.
      m a % 256
      + 256 * (m (a + 1) % 256)
      + 65536 * (m (a + 2) % 256)
      + 16777216 * (m (a + 3) % 256);
  poke = poke_word;
  byte_lt = λ m a. omega arith;
  peek_bytes = λ m a. refl;
  byte_poke = byte-poke_word;
}

-- "hi" from address 0 on, and NULs
abbrev pub greeting : ℕ → ℕ
greeting = cstr (b'h' ∷ b'i' ∷ [])

abbrev sevens : Buffer
sevens i = 7

abbrev pub process : Tracee ram
process = record { mem = greeting; rpl_code = none; rpl_code_len = 0; rpl_dest = 0 }

memset_exact_example :
    ((i : ℕ) → i < 6 → ram.byte (memset ram greeting 3 sevens 6) (3 + i) ≡ sevens i)
    × ((a : ℕ)
        → (a < 3) ⊎ (3 + 6 ≤ a)
        → ram.byte (memset ram greeting 3 sevens 6) a ≡ ram.byte greeting a)
memset_exact_example = memset_exact ram greeting 3 sevens 6 (λ i. omega arith)

memget_exact_example :
    ((i : ℕ) → i < 7 → memget ram sevens 2 greeting 0 7 (2 + i) ≡ ram.byte greeting (0 + i))
    × ((j : ℕ) → (j < 2) ⊎ (2 + 7 ≤ j) → memget ram sevens 2 greeting 0 7 j ≡ sevens j)
memget_exact_example = memget_exact ram sevens 2 greeting 0 7

restore_mem-rpl_mem_example :
    (t' : Tracee ram) × (rpl_mem ram process 0 sevens 5 ≡ some t')
    × ((i : ℕ) → i < 5 → ram.byte t'.mem (0 + i) ≡ sevens i)
    × (t'' : Tracee ram) × (restore_mem ram t' ≡ some t'')
    × (t''.rpl_code ≡ none)
    × ((a : ℕ) → ram.byte t''.mem a ≡ ram.byte process.mem a)
restore_mem-rpl_mem_example = restore_mem-rpl_mem ram process 0 5 sevens (λ i. omega arith) refl

Holds-greeting : Holds ram greeting 0 (b'h' ∷ b'i' ∷ [])
Holds-greeting zero h = refl
Holds-greeting (suc zero) h = refl
Holds-greeting (suc (suc zero)) h = refl
Holds-greeting (suc (suc (suc i))) h = absurd (omega arith)

bytes_of_yes : (i : ℕ) → cstr (b'y' ∷ b'e' ∷ b's' ∷ []) i < 256
bytes_of_yes zero = omega arith
bytes_of_yes (suc zero) = omega arith
bytes_of_yes (suc (suc zero)) = omega arith
bytes_of_yes (suc (suc (suc i))) = omega arith

restore_mem-rpl_known_str_example :
    (t' : Tracee ram) × (rpl_known_str ram process 0 (b'y' ∷ b'e' ∷ b's' ∷ []) (b'h' ∷ b'i' ∷ [])
      ≡ some t')
    × Holds ram t'.mem 0 (b'y' ∷ b'e' ∷ b's' ∷ [])
    × (t'' : Tracee ram) × (restore_mem ram t' ≡ some t'')
    × (t''.rpl_code ≡ none)
    × ((a : ℕ) → ram.byte t''.mem a ≡ ram.byte process.mem a)
restore_mem-rpl_known_str_example =
    restore_mem-rpl_known_str ram process 0 (b'y' ∷ b'e' ∷ b's' ∷ []) (b'h' ∷ b'i' ∷ [])
      bytes_of_yes Holds-greeting refl

getstr-text_example :
    (r : List ℕ × ℕ) × (getstr ram 1 greeting 0 ≡ some r)
    × (c_string r.0 ≡ b'h' ∷ b'i' ∷ [])
    × (length r.0 ≤ r.1)
getstr-text_example =
    getstr-text ram 1 greeting 0 (b'h' ∷ b'i' ∷ []) (omega arith)
      (refl, (λ e. omega (arith, e)), (refl, (λ e. omega (arith, e)), refl))
