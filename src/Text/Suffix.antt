-- ===== src/Text/Suffix.antt =====
-- `str::strip_suffix`.
use tab_stride.Prelude.{ℕ, if◌then◌else◌, Option, none, some, List, [], ◌∷◌, ◌>>=◌}
use tab_stride.Text.{bytes_eq}

unfoldable pub strip_suffix : List ℕ → List ℕ → Option (List ℕ)
strip_suffix suffix [] = if bytes_eq [] suffix then some [] else none
strip_suffix suffix (c ∷ s) =
    let later = strip_suffix suffix s in
    if bytes_eq (c ∷ s) suffix then some [] else do r ← later; some (c ∷ r)
