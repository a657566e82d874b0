-- ===== src/Protocol/Assertion.antt =====
-- `AssertionSpec` of crates/tabstride-protocol/src/tools/assertion.rs.
use tab_stride.Protocol.Locator.{
  Text, Locator, LocatorError, validate as validate_locator, count_true,
}
use tab_stride.Prelude.{
  ◌==◌, if◌then◌else◌, is_some, map_error, ℤ, ℕ, Bool, false, not, ◌||◌, Option, none, some, List,
  [], ◌∷◌,
}

pub record AssertionSpec : Type 0 where
  pub target : Option Locator
  pub tab_id : Option ℤ
  pub visible : Option Bool
  pub hidden : Option Bool
  pub attached : Option Bool
  pub detached : Option Bool
  pub text_equals : Option Text
  pub text_contains : Option Text
  pub value_equals : Option Text
  pub enabled : Option Bool
  pub disabled : Option Bool
  pub editable : Option Bool
  pub checked : Option Bool
  pub unchecked : Option Bool
  pub count : Option ℕ
  pub populated : Option Bool
  pub url_equals : Option Text
  pub url_matches : Option Text
  pub timeout_ms : Option ℕ

-- `AssertionSpec::default()`
abbrev pub no_assertion : AssertionSpec
no_assertion = record {
  target = none;
  tab_id = none;
  visible = none;
  hidden = none;
  attached = none;
  detached = none;
  text_equals = none;
  text_contains = none;
  value_equals = none;
  enabled = none;
  disabled = none;
  editable = none;
  checked = none;
  unchecked = none;
  count = none;
  populated = none;
  url_equals = none;
  url_matches = none;
  timeout_ms = none;
}

-- The reasons that `validate` gives.
pub data AssertionError : Type 0 where
  needs_one_expectation zero_timeout url_takes_no_target needs_target : AssertionError
  bad_target : LocatorError → AssertionError

abbrev pub expectations : AssertionSpec → List Bool
expectations a =
    is_some a.visible
    ∷ is_some a.hidden
    ∷ is_some a.attached
    ∷ is_some a.detached
    ∷ is_some a.text_equals
    ∷ is_some a.text_contains
    ∷ is_some a.value_equals
    ∷ is_some a.enabled
    ∷ is_some a.disabled
    ∷ is_some a.editable
    ∷ is_some a.checked
    ∷ is_some a.unchecked
    ∷ is_some a.count
    ∷ is_some a.populated
    ∷ is_some a.url_equals
    ∷ is_some a.url_matches
    ∷ []

-- `== Some(0)`
abbrev pub is_zero : Option ℕ → Bool
is_zero none = false
is_zero (some n) = n == 0

abbrev pub is_url_assertion : AssertionSpec → Bool
is_url_assertion a = is_some a.url_equals || is_some a.url_matches

-- The check of a target that an element assertion makes.
abbrev pub check_target : Option Locator → Option AssertionError
check_target none = some needs_target
check_target (some l) = map_error bad_target (validate_locator l)

-- `AssertionSpec::validate`; `none` is `Ok`.
unfoldable pub validate : AssertionSpec → Option AssertionError
unfolding count_true
validate a =
    if not (count_true (expectations a) == 1)
    then some needs_one_expectation
    else if is_zero a.timeout_ms
    then some zero_timeout
    else if is_url_assertion a
    then (if is_some a.target then some url_takes_no_target else none)
    else check_target a.target
