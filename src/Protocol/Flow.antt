-- ===== src/Protocol/Flow.antt =====
-- The types of crates/tabstride-protocol/src/flow.rs, and what they take from tools/navigation.rs,
-- tools/interaction.rs and tools/human_loop.rs.
pub mod Validate
pub mod Accepted
use tab_stride.Protocol.Locator.{Text, Locator}
use tab_stride.Protocol.Assertion.{AssertionSpec, no_assertion}
use tab_stride.Prelude.{ℤ, ℕ, Bool, true, Option, some, List}

pub data WaitUntil : Type 0 where
  load dom_content_loaded network_idle commit : WaitUntil

pub data KeyModifier : Type 0 where
  alt ctrl meta shift : KeyModifier

-- (`unreported` is `PageUpdateMode::None`.)
pub data PageUpdateMode : Type 0 where
  unreported signal delta : PageUpdateMode

pub record HelpTarget : Type 0 where
  pub ref : Option Text
  pub selector : Option Text

pub record FlowNavigateStep : Type 0 where
  pub url : Text
  pub tab_id : Option ℤ
  pub wait_until : Option WaitUntil
  pub timeout_ms : Option ℕ

pub record FlowClickStep : Type 0 where
  pub target : Locator
  pub tab_id : Option ℤ
  pub timeout_ms : Option ℕ
  pub page_update : Option PageUpdateMode

pub record FlowFillStep : Type 0 where
  pub target : Locator
  pub value : Text
  pub tab_id : Option ℤ
  pub clear_before : Option Bool
  pub timeout_ms : Option ℕ
  pub page_update : Option PageUpdateMode

pub record FlowPressStep : Type 0 where
  pub key : Text
  pub target : Option Locator
  pub tab_id : Option ℤ
  pub modifiers : Option (List KeyModifier)
  pub hold_ms : Option ℕ
  pub timeout_ms : Option ℕ
  pub page_update : Option PageUpdateMode

pub record FlowSelectStep : Type 0 where
  pub target : Locator
  pub values : List Text
  pub tab_id : Option ℤ
  pub timeout_ms : Option ℕ
  pub page_update : Option PageUpdateMode

pub data FlowWaitForState : Type 0 where
  attached detached visible hidden enabled disabled editable checked unchecked populated :
      FlowWaitForState

pub record FlowWaitForStep : Type 0 where
  pub target : Locator
  pub state : FlowWaitForState
  pub tab_id : Option ℤ
  pub timeout_ms : Option ℕ

pub record FlowRequestHelpStep : Type 0 where
  pub prompt : Text
  pub title : Option Text
  pub targets : Option (List HelpTarget)
  pub tab_id : Option ℤ
  pub timeout_ms : Option ℕ

pub record FlowSnapshotStep : Type 0 where
  pub tab_id : Option ℤ
  pub max_depth : Option ℕ
  pub max_tokens : Option ℕ

pub record FlowWaitMsStep : Type 0 where
  pub duration_ms : ℕ

pub data FlowStep : Type 0 where
  navigate : FlowNavigateStep → FlowStep
  click : FlowClickStep → FlowStep
  fill : FlowFillStep → FlowStep
  press : FlowPressStep → FlowStep
  choose : FlowSelectStep → FlowStep  -- `Select`
  wait_for : FlowWaitForStep → FlowStep
  request_help : FlowRequestHelpStep → FlowStep
  check : AssertionSpec → FlowStep  -- `Assert`
  snapshot : FlowSnapshotStep → FlowStep
  wait_ms : FlowWaitMsStep → FlowStep

pub record FlowDefinition : Type 0 where
  pub name : Text
  pub timeout : Option Text
  pub steps : List FlowStep
  pub assertions : List AssertionSpec

-- The expectation that the state of a wait sets.
abbrev pub expect : FlowWaitForState → AssertionSpec → AssertionSpec
expect attached a = record a { attached = some true }
expect detached a = record a { detached = some true }
expect visible a = record a { visible = some true }
expect hidden a = record a { hidden = some true }
expect enabled a = record a { enabled = some true }
expect disabled a = record a { disabled = some true }
expect editable a = record a { editable = some true }
expect checked a = record a { checked = some true }
expect unchecked a = record a { unchecked = some true }
expect populated a = record a { populated = some true }

-- `FlowWaitForStep::into_assertion`
unfoldable pub into_assertion : FlowWaitForStep → AssertionSpec
into_assertion w =
    expect w.state
      (record no_assertion { target = some w.target; tab_id = w.tab_id; timeout_ms = w.timeout_ms })
