-- ===== src/Cli/Modifiers.antt =====
-- `parse_modifiers` of crates/tabstride-cli/src/cli/interaction.rs. `lower` is `str::to_lowercase`.
use tab_stride.Protocol.Locator.{Text}
use tab_stride.Protocol.Flow.{KeyModifier, alt, ctrl, meta, shift}
use tab_stride.Text.{codes, is_empty, bytes_eq}
use tab_stride.Text.Trim.{trim}
use tab_stride.Prelude.{
  ◌==◌, if◌then◌else◌, Bool-cases, Option-cases, ℕ, String, ◌≡◌, refl, inl, inr, Bool, true, false,
  not, ◌&&◌, ◌||◌, Option, none, some, List, [], ◌∷◌, ◌++◌, arith,
}

-- Puts a character in front of the first segment.
abbrev onto_first : ℕ → List Text → List Text
onto_first c [] = (c ∷ []) ∷ []
onto_first c (seg ∷ segs) = (c ∷ seg) ∷ segs

-- `split(',')`
unfoldable pub segments : Text → List Text
segments [] = [] ∷ []
segments (c ∷ s) = let rest = segments s in if c == b',' then [] ∷ rest else onto_first c rest

abbrev is_one_of : Text → List String → Bool
is_one_of t [] = false
is_one_of t (n ∷ ns) = bytes_eq t (codes n) || is_one_of t ns

-- The modifier that a lower-case word names.
unfoldable pub modifier_of : Text → Option KeyModifier
modifier_of t =
    if is_one_of t ("alt" ∷ "option" ∷ "opt" ∷ [])
    then some alt
    else if is_one_of t ("ctrl" ∷ "control" ∷ [])
    then some ctrl
    else if is_one_of t ("meta" ∷ "cmd" ∷ "command" ∷ "super" ∷ [])
    then some meta
    else if is_one_of t ("shift" ∷ [])
    then some shift
    else none

abbrev rank : KeyModifier → ℕ
rank alt = 0
rank ctrl = 1
rank meta = 2
rank shift = 3

-- `Vec::contains`
unfoldable pub contains : KeyModifier → List KeyModifier → Bool
contains k [] = false
contains k (m ∷ ms) = rank k == rank m || contains k ms

module _ (lower : Text → Text) where
  -- The loop over the segments, with the modifiers found so far. `none` is the error.
  unfoldable pub collect : List Text → List KeyModifier → Option (List KeyModifier)
  unfolding modifier_of contains
  collect [] found = some found
  collect (raw ∷ segs) found =
      let same = collect segs found in
      if is_empty (trim raw) then same else elim (modifier_of (lower (trim raw))) [
        | none ↦ none
        | some k ↦
            let more = collect segs (found ++ k ∷ []) in if contains k found then same else more
      ]

  unfoldable pub parse_modifiers : Text → Option (List KeyModifier)
  unfolding collect segments
  parse_modifiers input = collect (segments input) []

-- No modifier stands twice.
abbrev pub distinct : List KeyModifier → Bool
distinct [] = true
distinct (m ∷ ms) = not (contains m ms) && distinct ms

contains-alloc :
    (k m : KeyModifier) (ms : List KeyModifier)
    → contains k (ms ++ m ∷ []) ≡ (contains k ms || rank k == rank m)
unfolding contains
contains-alloc k m [] = ground arith
contains-alloc k m (n ∷ ms) = ground (arith, contains-alloc k m ms)

distinct-alloc :
    (ms : List KeyModifier) (k : KeyModifier)
    → distinct (ms ++ k ∷ []) ≡ (distinct ms && not (contains k ms))
unfolding contains
distinct-alloc [] k = refl
distinct-alloc (m ∷ ms) k = ground (arith, distinct-alloc ms k, contains-alloc m k ms)

contains-rank :
    (k m : KeyModifier) (ms : List KeyModifier)
    → (rank k == rank m) ≡ true
    → contains k ms ≡ contains m ms
unfolding contains
contains-rank k m [] h = refl
contains-rank k m (n ∷ ms) h = ground (arith, contains-rank k m ms)

-- Some segment names the modifier.
abbrev pub is_named : (Text → Text) → KeyModifier → List Text → Bool
is_named lower k [] = false
is_named lower k (raw ∷ segs) =
    not (is_empty (trim raw))
      && elim (modifier_of (lower (trim raw))) [ none ↦ false | some m ↦ rank k == rank m ]
    || is_named lower k segs

collect-Named :
    (lower : Text → Text) (segs : List Text) (found r : List KeyModifier) (k : KeyModifier)
    → collect lower segs found ≡ some r
    → distinct found ≡ true
    → (distinct r ≡ true) × (contains k r ≡ (contains k found || is_named lower k segs))
unfolding collect
collect-Named lower [] found r k h d = (ground arith, ground arith)
collect-Named lower (raw ∷ segs) found r k h d = elim (Bool-cases (is_empty (trim raw))) [
  | inl y ↦ let (p, q) = collect-Named lower segs found r k (ground arith) d in (p, ground arith)
  | inr n ↦ elim (Option-cases (modifier_of (lower (trim raw)))) [
    | inl e ↦ absurd (ground arith)
    | inr (m, e) ↦ elim (Bool-cases (contains m found)) [
      | inl y ↦
          let (p, q) = collect-Named lower segs found r k (ground arith) d in
          (p, ground (arith, contains-rank k m found))
      | inr z ↦
          let (p, q) =
            collect-Named lower segs (found ++ m ∷ []) r k (ground arith)
              (ground (arith, distinct-alloc found m)) in
          (p, ground (arith, contains-alloc k m found))
    ]
  ]
]

-- A list of modifiers that is accepted holds each modifier that some segment names, no other, and
-- none twice.
pub parse_modifiers-Named :
    (lower : Text → Text) (input : Text) (r : List KeyModifier) (k : KeyModifier)
    → parse_modifiers lower input ≡ some r
    → (distinct r ≡ true) × (contains k r ≡ is_named lower k (segments input))
unfolding parse_modifiers contains
parse_modifiers-Named lower input r k h = collect-Named lower (segments input) [] r k h refl
