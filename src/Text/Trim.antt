-- ===== src/Text/Trim.antt =====
-- `str::trim` over the scalar values of a text, by the Unicode property `White_Space`.
use tab_stride.Prelude.{
  ℕ, leb, ◌==◌, if◌then◌else◌, ◌≡◌, refl, ◌∙◌, Bool, true, ◌&&◌, ◌||◌, List, [], ◌∷◌, arith,
}
use tab_stride.Text.{is_empty}

abbrev is_space_mark : ℕ → Bool
is_space_mark c =
    c == 32
    || c == 133
    || c == 160
    || c == 5760
    || c == 8232
    || c == 8233
    || c == 8239
    || c == 8287
    || c == 12288

-- `char::is_whitespace`
unfoldable pub is_whitespace : ℕ → Bool
is_whitespace c = leb 9 c && leb c 13 || is_space_mark c || leb 8192 c && leb c 8202

unfoldable pub trim_start : List ℕ → List ℕ
trim_start [] = []
trim_start (c ∷ s) = let rest = trim_start s in if is_whitespace c then rest else c ∷ s

unfoldable pub trim_end : List ℕ → List ℕ
trim_end [] = []
trim_end (c ∷ s) =
    let rest = trim_end s in if is_whitespace c && is_empty rest then [] else c ∷ rest

unfoldable pub trim : List ℕ → List ℕ
unfolding trim_start trim_end
trim s = trim_end (trim_start s)

-- `trim().is_empty()`
unfoldable pub is_blank : List ℕ → Bool
unfolding trim
is_blank s = is_empty (trim s)

abbrev pub all_whitespace : List ℕ → Bool
all_whitespace [] = true
all_whitespace (c ∷ s) = is_whitespace c && all_whitespace s

is_empty-trim_end : (s : List ℕ) → is_empty (trim_end s) ≡ all_whitespace s
unfolding trim_end
is_empty-trim_end [] = refl
is_empty-trim_end (c ∷ s) = ground (arith, is_empty-trim_end s)

all_whitespace-trim_start : (s : List ℕ) → all_whitespace (trim_start s) ≡ all_whitespace s
unfolding trim_start
all_whitespace-trim_start [] = refl
all_whitespace-trim_start (c ∷ s) = ground (arith, all_whitespace-trim_start s)

-- A text trims to nothing exactly if it is all whitespace.
pub is_blank_lem : (s : List ℕ) → is_blank s ≡ all_whitespace s
unfolding is_blank trim
is_blank_lem s = is_empty-trim_end (trim_start s) ∙ all_whitespace-trim_start s
