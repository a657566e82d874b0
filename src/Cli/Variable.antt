-- ===== src/Cli/Variable.antt =====
-- `parse_variable` of crates/tabstride-cli/src/cli/flow.rs: the `KEY=VALUE` of a flow's variable.
use tab_stride.Protocol.Locator.{Text}
use tab_stride.Text.{is_empty}
use tab_stride.Text.Trim.{trim}
use tab_stride.Prelude.{
  ◌==◌, if◌then◌else◌, ◌≡◌, Bool, true, false, not, ◌&&◌, Option, none, some, [], ◌∷◌, ◌++◌, arith,
  ℕ, ◌>>=◌,
}

-- `str::split_once` at a character.
unfoldable pub split_once : ℕ → Text → Option (Text × Text)
split_once k [] = none
split_once k (c ∷ s) =
    let later = split_once k s in if c == k then some ([], s) else do r ← later; some (c ∷ r.0, r.1)

pub data Variable : Type 0 where
  no_equals : Variable
  empty_name : Variable
  variable : Text → Text → Variable

unfoldable pub named : Text × Text → Variable
unfolding trim
named (key, value) = if is_empty (trim key) then empty_name else variable (trim key) value

unfoldable pub parse_variable : Text → Variable
unfolding split_once named
parse_variable raw = elim (split_once b'=' raw) [ none ↦ no_equals | some pair ↦ named pair ]

-- No character of the text is `k`.
abbrev pub lacks : ℕ → Text → Bool
lacks k [] = true
lacks k (c ∷ s) = not (c == k) && lacks k s

-- A text splits at the first of its separators.
pub split_once-first :
    (k : ℕ) (s t : Text) → lacks k s ≡ true → split_once k (s ++ k ∷ t) ≡ some (s, t)
unfolding split_once
split_once-first k [] t h = ground arith
split_once-first k (c ∷ s) t h = ground (arith, split_once-first k s t)

-- A name without `=` and a value, written with `=` between them, are read back, the name without
-- the white space around it, unless it is blank.
pub parse_variable-written :
    (key value : Text)
    → lacks b'=' key ≡ true
    → is_empty (trim key) ≡ false
    → parse_variable (key ++ b'=' ∷ value) ≡ variable (trim key) value
unfolding parse_variable named
parse_variable-written key value h k = ground (arith, split_once-first b'=' key value h)
