-- ===== src/Cli/StartArgs.antt =====
-- `validate_start_args` of crates/tabstride-cli/src/cli/session.rs.
use tab_stride.Protocol.Locator.{Text}
use tab_stride.Prelude.{if◌then◌else◌, Bool, ◌||◌, Option, is_some, ℤ}

pub data CliSessionMode : Type 0 where
  isolated : CliSessionMode
  attach : CliSessionMode

pub data CliTabTarget : Type 0 where
  active : CliTabTarget

pub record SessionStartArgs : Type 0 where
  pub browser : Option Text
  pub mode : CliSessionMode
  pub tab : Option CliTabTarget
  pub tab_id : Option ℤ
  pub snapshot : Bool

pub data StartArgs : Type 0 where
  accepted : StartArgs
  needs_attach : StartArgs
  needs_tab : StartArgs

-- `args.tab.is_some() || args.tab_id.is_some()`
abbrev pub names_tab : SessionStartArgs → Bool
names_tab args = is_some args.tab || is_some args.tab_id

unfoldable pub validate_start_args : SessionStartArgs → StartArgs
validate_start_args args = elim args.mode [
  | isolated ↦ if names_tab args then needs_attach else accepted
  | attach ↦ if names_tab args then accepted else needs_tab
]
