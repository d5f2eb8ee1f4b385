-- ===== src/Shfs/Quote.antt =====
-- The loop of convert_path (shfs.c) works in place: what it makes of the buffer.
use mathlib.Core.Path.{subst}
use okfs.Base.{
  ℕ, zero, suc, ◌+◌, ◌-◌, ◌*◌, ◌<◌, ◌≡◌, refl, sym, ap, ◌∙◌, true, false, [], ◌∷◌, ◌++◌, ◌==◌, ltb,
  if◌then◌else◌, CString, length, length-append, arith, inl, inr, Bool-cases,
}
use okfs.Memory.{Buffer, cstr}
use okfs.Shfs.Convert.{quote_char, backslash, count_quotes, put_at, convert_loop, quote}

-- The text with its end first
rev : CString → CString
rev [] = []
rev (c ∷ s) = rev s ++ c ∷ []

count_quotes-append :
    (s : CString) (c : ℕ)
    → count_quotes (s ++ c ∷ [])
      ≡ (if c == quote_char then suc (count_quotes s) else count_quotes s)
count_quotes-append [] c = refl
count_quotes-append (d ∷ s) c = ground (arith, count_quotes-append s c)

quote-append :
    (s : CString) (c : ℕ)
    → quote (s ++ c ∷ [])
      ≡ quote s
        ++ (if c == quote_char
            then quote_char ∷ backslash ∷ quote_char ∷ quote_char ∷ []
            else c ∷ [])
unfolding quote
quote-append [] c = refl
quote-append (d ∷ s) c = ground (arith, quote-append s c)

pub length-quote : (s : CString) → length (quote s) ≡ length s + 3 * count_quotes s
unfolding quote
length-quote [] = refl
length-quote (c ∷ s) = ground (arith, length-quote s)

-- What a text has in front of its last characters
cstr-append :
    (s t : CString) (i : ℕ)
    → cstr (s ++ t) i ≡ (if ltb i (length s) then cstr s i else cstr t (i - length s))
cstr-append [] t i = ground arith
cstr-append (c ∷ s) t zero = ground arith
cstr-append (c ∷ s) t (suc i) = ground (arith, cstr-append s t i)

-- Without quotes there is nothing to do.
quote-none : (s : CString) → count_quotes s ≡ 0 → quote s ≡ s
unfolding quote
quote-none [] h = refl
quote-none (c ∷ s) h = ground (arith, quote-none s)

length-rev : (s : CString) → length (rev s) ≡ length s
unfolding rev
length-rev [] = refl
length-rev (c ∷ s) = length-append (rev s) (c ∷ []) ∙ omega (arith, length-rev s)

abbrev escaped : CString
escaped = quote_char ∷ backslash ∷ quote_char ∷ quote_char ∷ []

abbrev put_escaped : ℕ → Buffer → Buffer
put_escaped s b =
    put_at s quote_char
      (put_at (s + 1) backslash (put_at (s + 2) quote_char (put_at (s + 3) quote_char b)))

minus : (s k : ℕ) → s + k - k ≡ s
minus s k = omega arith

minus3 : (s : ℕ) → s + 4 - 3 ≡ s + 1
minus3 s = omega arith

minus2 : (s : ℕ) → s + 4 - 2 ≡ s + 2
minus2 s = omega arith

minus1 : (s : ℕ) → s + 4 - 1 ≡ s + 3
minus1 s = omega arith

convert_loop-quoted :
    (q r s : ℕ) (b : Buffer)
    → b r ≡ quote_char
    → convert_loop (suc q) (suc r) (s + 4) b ≡ convert_loop q r s (put_escaped s b)
unfolding convert_loop
convert_loop-quoted q r s b h =
    rw (h, convert_loop) (rw (minus s 4, minus3 s, minus2 s, minus1 s) refl)

convert_loop-moved :
    (q r s : ℕ) (b : Buffer)
    → (b r == quote_char) ≡ false
    → convert_loop (suc q) (suc r) (s + 1) b ≡ convert_loop (suc q) r s (put_at s (b r) b)
unfolding convert_loop
convert_loop-moved q r s b h = rw (h, convert_loop) (rw (minus s 1) refl)

put_escaped-at :
    (s i : ℕ) (b : Buffer)
    → put_escaped s b i
      ≡ (if ltb i s then b i else if ltb i (s + 4) then cstr escaped (i - s) else b i)
put_escaped-at s i b = ground arith

-- One more character at the end, in the places that the loop fills
one_quoted :
    (p : CString) (c s i : ℕ) (b : Buffer)
    → (c == quote_char) ≡ true
    → length (quote p) ≡ s
    → (if ltb i (length (quote p)) then cstr (quote p) i else put_escaped s b i)
      ≡ (if ltb i (length (quote (p ++ c ∷ []))) then cstr (quote (p ++ c ∷ [])) i else b i)
one_quoted p c s i b e l =
    rw (quote-append p c, e)
      (ground (
        arith,
        length-append (quote p) escaped,
        cstr-append (quote p) escaped i,
        put_escaped-at s i b,
      ))

one_moved :
    (p : CString) (c s i : ℕ) (b : Buffer)
    → (c == quote_char) ≡ false
    → length (quote p) ≡ s
    → (if ltb i (length (quote p)) then cstr (quote p) i else put_at s c b i)
      ≡ (if ltb i (length (quote (p ++ c ∷ []))) then cstr (quote (p ++ c ∷ [])) i else b i)
one_moved p c s i b e l =
    rw (quote-append p c, e)
      (ground (arith, length-append (quote p) (c ∷ []), cstr-append (quote p) (c ∷ []) i))

-- What the loop makes of a buffer that has a text of n characters in front
abbrev pub Fills : CString → ℕ → Type 0
Fills p n =
    (b : Buffer)
    → ((i : ℕ) → i < n → b i ≡ cstr p i)
    → (i : ℕ)
    → convert_loop (count_quotes p) n (n + 3 * count_quotes p) b i
      ≡ (if ltb i (length (quote p)) then cstr (quote p) i else b i)

last_char : (p : CString) (c : ℕ) → cstr (p ++ c ∷ []) (length p) ≡ c
last_char [] c = refl
last_char (d ∷ p) c = last_char p c

front : (p : CString) (c i : ℕ) → i < length p → cstr (p ++ c ∷ []) i ≡ cstr p i
front p c i l = ground (arith, cstr-append p (c ∷ []) i)

no_more :
    (p : CString) (n : ℕ) (b : Buffer)
    → length p ≡ n
    → count_quotes p ≡ 0
    → ((i : ℕ) → i < n → b i ≡ cstr p i)
    → (i : ℕ) → b i ≡ (if ltb i (length (quote p)) then cstr (quote p) i else b i)
no_more p n b l e h i = rw (quote-none p e) (ground (arith, h i))

Fills-quoted :
    (p : CString) (c : ℕ)
    → (c == quote_char) ≡ true
    → Fills p (length p)
    → Fills (p ++ c ∷ []) (suc (length p))
Fills-quoted p c e fills b h i =
    let n = length p in
    let q = count_quotes p in
    ap (λ k. convert_loop k (suc n) (suc n + 3 * k) b i) (count_quotes-append p c ∙ rw e refl)
    ∙ ap (λ k. convert_loop (suc q) (suc n) k b i) (omega arith)
    ∙ ap (λ (f : Buffer). f i)
        (convert_loop-quoted q n (n + 3 * q) b (h n (omega arith) ∙ last_char p c ∙ ground arith))
    ∙ fills (put_escaped (n + 3 * q) b)
        (λ j l. ground (arith, put_escaped-at (n + 3 * q) j b, h j, front p c j)) i
    ∙ one_quoted p c (n + 3 * q) i b e (length-quote p)

Fills-moved :
    (p : CString) (c : ℕ)
    → (c == quote_char) ≡ false
    → Fills p (length p)
    → Fills (p ++ c ∷ []) (suc (length p))
unfolding convert_loop
Fills-moved p c e fills b h i =
    ap (λ k. convert_loop k (suc (length p)) (suc (length p) + 3 * k) b i)
      (count_quotes-append p c ∙ rw e refl)
    ∙ go (count_quotes p) refl
  where
    here : b (length p) ≡ c
    here = h (length p) (omega arith) ∙ last_char p c

    go :
        (q : ℕ)
        → count_quotes p ≡ q
        → convert_loop q (suc (length p)) (suc (length p) + 3 * q) b i
          ≡ (if ltb i (length (quote (p ++ c ∷ []))) then cstr (quote (p ++ c ∷ [])) i else b i)
    go zero none_left =
        no_more (p ++ c ∷ []) (suc (length p)) b (length-append p (c ∷ []) ∙ omega arith)
          (count_quotes-append p c ∙ rw e none_left) h i
    go (suc q) some_left =
        let n = length p in
        let s = n + 3 * suc q in
        ap (λ k. convert_loop (suc q) (suc n) k b i) (omega arith)
        ∙ ap (λ (f : Buffer). f i) (convert_loop-moved q n s b (ap (λ x. x == quote_char) here ∙ e))
        ∙ ap (λ x. convert_loop (suc q) n s (put_at s x b) i) here
        ∙ ap (λ k. convert_loop k n (n + 3 * k) (put_at s c b) i) (sym some_left)
        ∙ fills (put_at s c b) (λ j l. ground (arith, h j, front p c j)) i
        ∙ one_moved p c s i b e (length-quote p ∙ ap (λ k. n + 3 * k) some_left)

rev-append : (s : CString) (c : ℕ) → rev (s ++ c ∷ []) ≡ c ∷ rev s
unfolding rev
rev-append [] c = refl
rev-append (d ∷ s) c = ap (λ r. r ++ d ∷ []) (rev-append s c)

rev-rev : (s : CString) → rev (rev s) ≡ s
unfolding rev
rev-rev [] = refl
rev-rev (c ∷ s) = rev-append (rev s) c ∙ ap (λ r. c ∷ r) (rev-rev s)

Fills-rev : (s : CString) → Fills (rev s) (length (rev s))
unfolding convert_loop rev quote
Fills-rev [] = λ b h i. ground arith
Fills-rev (c ∷ s) =
    subst (λ n. Fills (rev s ++ c ∷ []) n) (sym (length-append (rev s) (c ∷ []) ∙ omega arith))
      (elim (Bool-cases (c == quote_char)) [
        | inl e ↦ Fills-quoted (rev s) c e (Fills-rev s)
        | inr e ↦ Fills-moved (rev s) c e (Fills-rev s)
      ])

-- The loop does its work for every text.
pub Fills-all : (s : CString) → Fills s (length s)
Fills-all s = subst (λ p. Fills p (length p)) (rev-rev s) (Fills-rev (rev s))
