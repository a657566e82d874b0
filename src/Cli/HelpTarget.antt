-- ===== src/Cli/HelpTarget.antt =====
-- `parse_target` of crates/tabstride-cli/src/cli/human_loop.rs: what a help request points at.
use tab_stride.Protocol.Locator.{Text}
use tab_stride.Text.Trim.{trim}
use tab_stride.Cli.Target.{is_numbered, without_prefix, looks_like_ref}
use tab_stride.Prelude.{if◌then◌else◌, ◌≡◌, Option, none, some, is_some, arith}

pub record HelpTarget : Type 0 where
  pub ref : Option Text
  pub selector : Option Text

unfoldable pub parse_target : Text → HelpTarget
unfolding trim
parse_target raw =
    let trimmed = trim raw in
    if is_numbered (without_prefix b'@' trimmed)
    then record { ref = some trimmed; selector = none }
    else record { ref = none; selector = some trimmed }

-- A help request takes for a reference what the commands of interaction take for one.
pub parse_target-ref : (raw : Text) → is_some (parse_target raw).ref ≡ looks_like_ref (trim raw)
unfolding parse_target looks_like_ref
parse_target-ref raw = ground arith
