-- ===== src/Tests/Arguments.antt =====
-- Tests of the argument parsers, as in the tests of the source.
use tab_stride.Text.{codes, parse_u64, parse_digits, bytes_eq}
use tab_stride.Text.Trim.{trim, trim_start, trim_end, is_whitespace}
use tab_stride.Cli.IdleDuration.{parse_duration, parse_trimmed, split_letter, in_unit}
use tab_stride.Cli.Variable.{parse_variable, split_once, named, variable}
use tab_stride.Daemon.Origin.{origin_allowed, strip_prefix, all_id_bytes}
use tab_stride.Prelude.{◌≡◌, refl, none, some, true, false}

two_minutes : parse_duration (codes "2m") ≡ some 120000
unfolding parse_duration parse_trimmed split_letter in_unit trim trim_start trim_end is_whitespace
    parse_u64 parse_digits bytes_eq
two_minutes = refl

bad_unit : parse_duration (codes "10x") ≡ none
unfolding parse_duration parse_trimmed split_letter in_unit trim trim_start trim_end is_whitespace
    parse_u64 parse_digits bytes_eq
bad_unit = refl

user_variable : parse_variable (codes " user =a=b") ≡ variable (codes "user") (codes "a=b")
unfolding parse_variable split_once named trim trim_start trim_end is_whitespace
user_variable = refl

extension_is_allowed :
    origin_allowed (codes "chrome-extension://abcdefghijklmnopabcdefghijklmnop") false ≡ true
unfolding origin_allowed strip_prefix all_id_bytes
extension_is_allowed = refl

site_is_refused : origin_allowed (codes "https://example.com") false ≡ false
unfolding origin_allowed strip_prefix all_id_bytes
site_is_refused = refl
