-- ===== src/Protocol/Locator.antt =====
-- `Locator` of crates/tabstride-protocol/src/tools/interaction.rs. A text is the list of its
-- scalar values.
pub mod Strategy
use tab_stride.Prelude.{
  ℕ, ◌==◌, if◌then◌else◌, is_some, ◌+◌, Bool, false, not, ◌&&◌, ◌||◌, Option, none, some, List, [],
  ◌∷◌, map,
}
use tab_stride.Text.Trim.{is_blank}

abbrev pub Text : Type 0
Text = List ℕ

pub record Locator : Type 0 where
  pub ref : Option Text
  pub css : Option Text
  pub role : Option Text
  pub name : Option Text
  pub label : Option Text
  pub placeholder : Option Text
  pub text : Option Text
  pub test_id : Option Text
  pub exact : Option Bool

-- The reasons that `validate` gives.
pub data LocatorError : Type 0 where
  needs_one_strategy needs_role_and_name needs_non_empty_role exact_not_semantic : LocatorError

-- `is_some_and(|value| !value.trim().is_empty())`
abbrev pub is_given : Option Text → Bool
is_given none = false
is_given (some t) = not (is_blank t)

-- `is_some_and(|value| value.trim().is_empty())`
abbrev pub is_left_blank : Option Text → Bool
is_left_blank none = false
is_left_blank (some t) = is_blank t

-- `iter().filter(|present| *present).count()`
unfoldable pub count_true : List Bool → ℕ
count_true [] = 0
count_true (b ∷ bs) = (if b then 1 else 0) + count_true bs

abbrev pub strategies : Locator → List (Option Text)
strategies l = l.ref ∷ l.css ∷ l.role ∷ l.label ∷ l.placeholder ∷ l.text ∷ l.test_id ∷ []

-- `Locator::validate`; `none` is `Ok`.
unfoldable pub validate : Locator → Option LocatorError
unfolding count_true
validate l =
    if not (count_true (map is_given (strategies l)) == 1)
    then some needs_one_strategy
    else if not (is_some l.role && is_some l.name || not (is_some l.role) && not (is_some l.name))
    then some needs_role_and_name
    else if is_left_blank l.role || is_left_blank l.name
    then some needs_non_empty_role
    else if (is_some l.ref || is_some l.css) && is_some l.exact
    then some exact_not_semantic
    else none
