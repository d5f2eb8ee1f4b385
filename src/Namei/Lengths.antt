-- ===== src/Namei/Lengths.antt =====
-- What the steps of canonical() (vfs_namei.c) do to the length of a text
use mathlib.Core.List.{reverse, reverse_aux}
use okfs.Base.{◌+◌, ◌≤◌, ◌≡◌, refl, ◌∙◌, [], ◌∷◌, CString, length, arith}
use okfs.Namei.{skip_slashes, component, behind, back, pop_to_slash, with_slash}

pub skip_slashes-le : (s : CString) → length (skip_slashes s) ≤ length s
unfolding skip_slashes
skip_slashes-le [] = omega arith
skip_slashes-le (c ∷ s) = ground (arith, skip_slashes-le s)

pub component-behind : (s : CString) → length (component s) + length (behind s) ≡ length s
unfolding component behind
component-behind [] = refl
component-behind (c ∷ s) = ground (arith, component-behind s)

pub pop_to_slash-le : (d : CString) → length (pop_to_slash d) ≤ length d
unfolding pop_to_slash
pop_to_slash-le [] = omega arith
pop_to_slash-le (c ∷ d) = ground (arith, pop_to_slash-le d)

pub back-le : (d : CString) → length (back d) ≤ length d
unfolding back
back-le [] = omega arith
back-le (c ∷ []) = omega arith
back-le (c ∷ d ∷ r) = omega (arith, pop_to_slash-le (d ∷ r))

pub with_slash-le : (d : CString) → length (with_slash d) ≤ length d + 1
unfolding with_slash
with_slash-le [] = omega arith
with_slash-le (c ∷ r) = ground arith

pub length-reverse_aux : (s t : CString) → length (reverse_aux s t) ≡ length s + length t
length-reverse_aux [] t = omega arith
length-reverse_aux (c ∷ s) t = omega (arith, length-reverse_aux s (c ∷ t))

pub length-reverse : (s : CString) → length (reverse s) ≡ length s
length-reverse s = length-reverse_aux s [] ∙ omega arith
