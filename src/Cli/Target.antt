-- ===== src/Cli/Target.antt =====
-- `looks_like_ref` and `build_locator` of crates/tabstride-cli/src/cli/interaction.rs: how a command
-- line names its target.
use tab_stride.Protocol.Locator.{Text, Locator, LocatorError, validate, count_true}
use tab_stride.Protocol.Locator.Strategy.{
  Strategy, by_ref, by_css, spelled, strategy-Accepted, is_semantic,
}
use tab_stride.Text.{is_empty, all_digits}
use tab_stride.Text.Trim.{is_blank}
use tab_stride.Prelude.{
  ◌==◌, if◌then◌else◌, is_some, ℕ, ◌≡◌, Bool, true, false, not, ◌&&◌, Option, none, some, [], ◌∷◌,
  Bool-cases, Option-cases, inl, inr, ◌||◌, arith,
}

-- `strip_prefix(k).unwrap_or(s)`
abbrev pub without_prefix : ℕ → Text → Text
without_prefix k [] = []
without_prefix k (c ∷ s) = if c == k then s else c ∷ s

abbrev pub is_numbered : Text → Bool
is_numbered [] = false
is_numbered (c ∷ s) = c == b'e' && not (is_empty s) && all_digits s

unfoldable pub looks_like_ref : Text → Bool
unfolding all_digits
looks_like_ref target = is_numbered (without_prefix b'@' target)

pub record LocatorFlags : Type 0 where
  pub ref : Option Text
  pub css : Option Text
  pub role : Option Text
  pub name : Option Text
  pub label : Option Text
  pub placeholder : Option Text
  pub text : Option Text
  pub test_id : Option Text
  pub exact : Bool

-- `LocatorFlags::is_empty`
abbrev pub has_no_flag : LocatorFlags → Bool
has_no_flag f =
    not (is_some f.ref)
    && not (is_some f.css)
    && not (is_some f.role)
    && not (is_some f.name)
    && not (is_some f.label)
    && not (is_some f.placeholder)
    && not (is_some f.text)
    && not (is_some f.test_id)
    && not f.exact

-- `Locator::default()`
abbrev pub empty_locator : Locator
empty_locator = record {
  ref = none;
  css = none;
  role = none;
  name = none;
  label = none;
  placeholder = none;
  text = none;
  test_id = none;
  exact = none;
}

-- The results of `build_locator`: its errors, no locator, or one.
pub data Built : Type 0 where
  given_twice missing_target : Built
  invalid : LocatorError → Built
  no_target : Built
  found : Locator → Built

abbrev pub validated : Locator → Built
validated l = elim (validate l) [ some e ↦ invalid e | none ↦ found l ]

abbrev pub of_target : Text → Locator
of_target t =
    if looks_like_ref t
    then record empty_locator { ref = some t }
    else record empty_locator { css = some t }

abbrev pub of_flags : LocatorFlags → Locator
of_flags f = record {
  ref = f.ref;
  css = f.css;
  role = f.role;
  name = f.name;
  label = f.label;
  placeholder = f.placeholder;
  text = f.text;
  test_id = f.test_id;
  exact = if f.exact then some true else none;
}

unfoldable pub build_locator : Option Text → LocatorFlags → Bool → Built
unfolding validate looks_like_ref
build_locator positional flags required =
    if is_some positional && not (has_no_flag flags) then given_twice else elim positional [
      | some target ↦ validated (of_target target)
      | none ↦
          if has_no_flag flags
          then (if required then missing_target else no_target)
          else validated (of_flags flags)
    ]

-- A positional target stands for itself as a ref or as a selector, unless it is blank or a flag is
-- given as well.
pub build_locator-of_target :
    (t : Text) (f : LocatorFlags) (required : Bool)
    → has_no_flag f ≡ true
    → is_blank t ≡ false
    → (build_locator (some t) f required ≡ found (of_target t))
      × (spelled (of_target t) ≡ (if looks_like_ref t then by_ref t else by_css t) ∷ [])
unfolding build_locator validate count_true
build_locator-of_target t f required h k = elim (Bool-cases (looks_like_ref t)) [
  | inl y ↦ (ground arith, ground arith)
  | inr n ↦ (ground arith, ground arith)
]

found-validated : (l m : Locator) → validated m ≡ found l → validate l ≡ none
found-validated l m h = elim (Option-cases (validate m)) [
  | inl e ↦ ground arith
  | inr (d, e) ↦ absurd (ground arith)
]

-- Whatever a command line gives: a locator that is built names one strategy, and asks for an exact
-- match only of a semantic one.
pub strategy-build_locator :
    (positional : Option Text) (f : LocatorFlags) (required : Bool) (l : Locator)
    → build_locator positional f required ≡ found l
    → (s : Strategy) × (spelled l ≡ s ∷ []) × ((not (is_some l.exact) || is_semantic s) ≡ true)
unfolding build_locator
strategy-build_locator none f required l h = elim (Bool-cases (has_no_flag f)) [
  | inl y ↦ absurd (ground arith)
  | inr n ↦ strategy-Accepted l (found-validated l (of_flags f) (ground arith))
]
strategy-build_locator (some t) f required l h = elim (Bool-cases (has_no_flag f)) [
  | inl y ↦ strategy-Accepted l (found-validated l (of_target t) (ground arith))
  | inr n ↦ absurd (ground arith)
]
