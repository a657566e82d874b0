-- ===== src/Tests/Commands.antt =====
-- The theorems on command lines at concrete inputs.
use tab_stride.Text.{codes, parse_u64, parse_digits, bytes_eq}
use tab_stride.Text.Trim.{trim, trim_start, trim_end, is_blank, is_whitespace}
use tab_stride.Text.Suffix.{strip_suffix}
use tab_stride.Protocol.Locator.{Text, Locator, count_true, validate as validate_locator}
use tab_stride.Protocol.Flow.{ctrl, shift}
use tab_stride.Daemon.Flow.Timeout.{parse_flow_timeout, split_unit}
use tab_stride.Cli.Base64.{decode_base64, encode_base64, decode_base64-encode}
use tab_stride.Cli.Modifiers.{parse_modifiers, collect, segments, modifier_of, contains}
use tab_stride.Cli.Target.{LocatorFlags, build_locator, found}
use tab_stride.Prelude.{◌≡◌, refl, true, none, some, [], ◌∷◌}

decode_base64-encode_example : decode_base64 (encode_base64 (codes "tab!")) ≡ some (codes "tab!")
decode_base64-encode_example = decode_base64-encode (codes "tab!") refl

five_seconds : parse_flow_timeout (some (codes "5s")) ≡ some 5000
unfolding parse_flow_timeout split_unit strip_suffix parse_u64 parse_digits bytes_eq
five_seconds = refl

abbrev chord : Text
chord = codes "ctrl, shift,control"

chord_parses : parse_modifiers (λ t. t) chord ≡ some (ctrl ∷ shift ∷ [])
unfolding parse_modifiers collect segments modifier_of contains trim trim_start trim_end
    is_whitespace bytes_eq
chord_parses = refl

abbrev by_label_flags : LocatorFlags
by_label_flags = record {
  ref = none;
  css = none;
  role = none;
  name = none;
  label = some (codes "Name");
  placeholder = none;
  text = none;
  test_id = none;
  exact = true;
}

abbrev labelled : Locator
labelled = record {
  ref = none;
  css = none;
  role = none;
  name = none;
  label = some (codes "Name");
  placeholder = none;
  text = none;
  test_id = none;
  exact = some true;
}

label_is_found : build_locator none by_label_flags true ≡ found labelled
unfolding build_locator validate_locator count_true is_blank trim trim_start trim_end is_whitespace
label_is_found = refl
