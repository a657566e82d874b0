-- ===== src/Daemon/Origin.antt =====
-- `origin_allowed` of crates/tabstride-cli/src/daemon/ws.rs, over the bytes of the header.
use tab_stride.Text.{codes}
use tab_stride.Prelude.{
  ◌==◌, leb, if◌then◌else◌, length, ◌≡◌, ℕ, Bool, true, false, ◌&&◌, Option, none, some, List, [],
  ◌∷◌, ◌++◌, arith, refl, Option-cases, inl, inr,
}

-- `str::strip_prefix`
unfoldable pub strip_prefix : List ℕ → List ℕ → Option (List ℕ)
strip_prefix [] s = some s
strip_prefix (p ∷ ps) [] = none
strip_prefix (p ∷ ps) (c ∷ s) = let rest = strip_prefix ps s in if c == p then rest else none

abbrev pub extension_prefix : List ℕ
extension_prefix = codes "chrome-extension://"

-- `bytes().all(|b| (b'a'..=b'p').contains(&b))`
unfoldable pub all_id_bytes : List ℕ → Bool
all_id_bytes [] = true
all_id_bytes (b ∷ bs) = leb b'a' b && leb b b'p' && all_id_bytes bs

abbrev pub is_extension_id : List ℕ → Bool
is_extension_id rest = length rest == 32 && all_id_bytes rest

unfoldable pub origin_allowed : List ℕ → Bool → Bool
unfolding strip_prefix all_id_bytes
origin_allowed origin allow_any =
    if allow_any then true else elim (strip_prefix extension_prefix origin) [
      | none ↦ false
      | some rest ↦ is_extension_id rest
    ]

strip_prefix-append : (ps s : List ℕ) → strip_prefix ps (ps ++ s) ≡ some s
unfolding strip_prefix
strip_prefix-append [] s = refl
strip_prefix-append (p ∷ ps) s = ground (arith, strip_prefix-append ps s)

append-strip_prefix : (ps s rest : List ℕ) → strip_prefix ps s ≡ some rest → s ≡ ps ++ rest
unfolding strip_prefix
append-strip_prefix [] s rest h = ground arith
append-strip_prefix (p ∷ ps) [] rest h = ground arith
append-strip_prefix (p ∷ ps) (c ∷ s) rest h = ground (arith, append-strip_prefix ps s rest)

-- The origin of an extension is allowed exactly when its identifier has the form of one.
pub origin_allowed-extension :
    (id : List ℕ) → origin_allowed (extension_prefix ++ id) false ≡ is_extension_id id
unfolding origin_allowed
origin_allowed-extension id = ground (arith, strip_prefix-append extension_prefix id)

-- Without the override, nothing but such an origin is allowed.
pub origin_allowed-form :
    (origin : List ℕ)
    → origin_allowed origin false ≡ true
    → (id : List ℕ) × (origin ≡ extension_prefix ++ id) × (is_extension_id id ≡ true)
unfolding origin_allowed
origin_allowed-form origin h = elim (Option-cases (strip_prefix extension_prefix origin)) [
  | inl e ↦ absurd (ground arith)
  | inr (id, e) ↦ (id, append-strip_prefix extension_prefix origin id e, ground arith)
]
