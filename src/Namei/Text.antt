-- ===== src/Namei/Text.antt =====
-- How the steps of canonical() (vfs_namei.c) read a text made of names
use okfs.Base.{◌≡◌, refl, false, List, [], ◌∷◌, ◌++◌, CString, arith}
use okfs.Namei.{skip_slashes, component, behind}
use okfs.Namei.Form.{has_slash, IsName}

-- The text "/c1/c2/.../cn" of names in their order.
abbrev pub text : List CString → CString
text [] = []
text (c ∷ cs) = b'/' ∷ (c ++ text cs)

pub component-text :
    (c : CString) (cs : List CString) → has_slash c ≡ false → component (c ++ text cs) ≡ c
unfolding component
component-text [] [] h = refl
component-text [] (d ∷ cs) h = refl
component-text (x ∷ c) cs h = ground (arith, component-text c cs)

pub behind-text :
    (c : CString) (cs : List CString) → has_slash c ≡ false → behind (c ++ text cs) ≡ text cs
unfolding behind
behind-text [] [] h = refl
behind-text [] (d ∷ cs) h = refl
behind-text (x ∷ c) cs h = ground (arith, behind-text c cs)

pub skip_slashes-text :
    (c : CString) (cs : List CString)
    → IsName c
    → skip_slashes (b'/' ∷ (c ++ text cs)) ≡ c ++ text cs
unfolding skip_slashes
skip_slashes-text [] cs n = absurd (ground (arith, n.nonempty))
skip_slashes-text (x ∷ c) cs n = ground (arith, n.no_slash)
