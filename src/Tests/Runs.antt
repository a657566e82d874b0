-- ===== src/Tests/Runs.antt =====
-- The theorems on races, sessions and the whole daemon at concrete inputs.
use tab_stride.Prelude.{
  if◌then◌else◌, ◌>>=◌, ◌≡◌, refl, ◌⊎◌, inl, true, false, not, ◌&&◌, ◌||◌, none, some, [], str_eq,
  List, ◌∷◌,
}
use tab_stride.Json.{get}
use tab_stride.Protocol.Error
use tab_stride.Daemon.Inflight.Races
use tab_stride.Daemon.Inflight.{user_aborted, cancel_and_snapshot, entry_at}
use tab_stride.Protocol.Method.{tool_click, tool_tab_list}
use tab_stride.Protocol.Error.{plain, err, ok}
use tab_stride.Daemon.Forward
use tab_stride.Daemon.Inflight.Races.{
  next, here, offers, cancels, Race, cancel_race, Queued, offer, Forwarded, request_first,
  cancelled_stays_silent,
}
use tab_stride.Map.{lookup, contains_key}
use tab_stride.Daemon.Events.{extract_session_id, is_foreign, user_interrupt, window_closed}
use tab_stride.Daemon.Tools.Refused.{Entered, handle_tool_dispatch-Entered}
use tab_stride.Daemon.Interrupts.{is_pending}
use tab_stride.Daemon.Tools.{handle_tool_dispatch, tool_dispatch_timeout}
use tab_stride.Tests.Samples.{
  Doc, daemon, call_entry, docs, dict, call_job, payload, field, word_of, number, done,
}
use tab_stride.Daemon.Forward.{forward_begin, forward_finish, stopped, forward_wait, drop_waiter}
use tab_stride.Daemon.Tools.Interrupted.{Doing, calls, meanwhile, aborted, any_changes, aborts_once}
use tab_stride.Daemon.Events.Ownership.{SameCalls, window_closed_scope}
use tab_stride.Daemon.Events.Interrupt.{SameSetup, user_interrupt_reaches}
use tab_stride.Daemon.Forward.Aborted.{interrupt_aborts}
use tab_stride.Daemon.Browsers.Pending.{Mailbox, delivered}

-- An entry that nobody has forwarded yet, and one that was cancelled before.
abbrev queued : Race
queued = record { entry = call_entry; sink = record { is_open = true; wire = [] }; offered = false }

abbrev offered : Race
offered = offer "b1" "tool-1" queued

abbrev after_offer : Races.Reach "b1" "tool-1" queued (cancel_race user_aborted offered)
after_offer = next (next here (offers queued refl)) (cancels offered user_aborted)

request_first_example :
    Queued "b1" "tool-1" (cancel_race user_aborted offered)
    ⊎ Forwarded "b1" "tool-1" (cancel_race user_aborted offered)
request_first_example = request_first "b1" "tool-1" (refl, refl, refl) after_offer

abbrev dead : Race
dead = record queued { entry = (cancel_and_snapshot call_entry user_aborted).0 }

cancelled_stays_silent_example :
    ((offer "b1" "tool-1" dead).entry.is_dead ≡ true) × ((offer "b1" "tool-1" dead).sink.wire ≡ [])
unfolding cancel_and_snapshot
cancelled_stays_silent_example =
    cancelled_stays_silent "b1" "tool-1" {s = dead} refl (refl, refl, refl)
      (next here (offers dead refl))

registered : lookup "rpc1" daemon.tool_inflight.table ≡ some 0
unfolding lookup
registered = refl

named : extract_session_id docs payload ≡ some "s1"
unfolding extract_session_id get lookup
named = refl

owned : is_foreign daemon.sessions "s1" "b1" ≡ false
unfolding is_foreign lookup
owned = refl

-- The extension has answered, but the call was cancelled before that was seen.
abbrev answered_click : Mailbox Doc
answered_click = delivered (record { id = "tool-1"; body = ok payload })

interrupt_aborts_example :
    let st' = user_interrupt docs daemon "b1" payload in
    (forward_begin docs st' "s1" call_job "tool-1" 3
      ≡ (st', Forward.fails (plain Error.user_aborted)))
    × (forward_wait st' call_job 0 "tool-1" answered_click false
        ≡ some (drop_waiter st' 0 "tool-1", err (plain Error.user_aborted)))
interrupt_aborts_example =
    interrupt_aborts docs daemon "b1" "s1" "rpc1" payload 0 call_entry call_job "tool-1" 3 0
      answered_click false named owned registered refl refl refl refl

no_token : lookup "rpc1" daemon.abort_registry.tokens ≡ none
unfolding lookup
no_token = refl

user_interrupt_reaches_example :
    let st' = user_interrupt docs daemon "b1" payload in
    let heard = not (is_foreign daemon.sessions "s1" "b1") in
    (is_pending st'.session_interrupts "s2"
      ≡ (heard && str_eq "s1" "s2" || is_pending daemon.session_interrupts "s2"))
    × (entry_at st'.tool_inflight 0 ≡ (
        if heard && str_eq "s1" "s1"
        then some (cancel_and_snapshot call_entry user_aborted).0
        else some call_entry))
    × SameSetup docs daemon st'
    × (st' ≡ (if heard then st' else daemon))
user_interrupt_reaches_example =
    user_interrupt_reaches docs daemon "b1" "s1" "rpc1" "s2" payload 0 call_entry named registered
      refl

found_id : (get docs "session_id" payload >>= word_of) ≡ some "s1"
unfolding get lookup
found_id = refl

window_closed_scope_example :
    let st' = window_closed docs daemon "b1" payload in
    let goes =
      not (is_foreign daemon.sessions "s1" "b1")
      && (contains_key "s1" daemon.sessions && str_eq "s1" "s1") in
    (lookup "s1" st'.sessions ≡ (if goes then none else lookup "s1" daemon.sessions))
    × (lookup "s1" st'.tool_queues.table
        ≡ (if goes then none else lookup "s1" daemon.tool_queues.table))
    × (is_pending st'.session_interrupts "s1"
        ≡ (if goes then false else is_pending daemon.session_interrupts "s1"))
    × SameCalls daemon st'
    × (st'.tool_queues.queues ≡ daemon.tool_queues.queues)
    × (st' ≡ (
        if not (is_foreign daemon.sessions "s1" "b1") && contains_key "s1" daemon.sessions
        then st'
        else daemon))
window_closed_scope_example = window_closed_scope docs daemon "b1" "s1" "s1" payload found_id

handle_tool_dispatch-Entered_example :
    Entered docs daemon "rpc2" "rpc1" (handle_tool_dispatch docs daemon "rpc2" tool_click payload)
handle_tool_dispatch-Entered_example =
    handle_tool_dispatch-Entered docs daemon "rpc2" "rpc1" tool_click payload

-- A call that only reads, one that changes the page, and two more while the queue is free again.
abbrev four_calls : List (Doing docs)
four_calls =
    calls "rpc2" tool_tab_list payload
    ∷ calls "rpc3" tool_click payload
    ∷ meanwhile daemon
    ∷ calls "rpc4" tool_click payload
    ∷ calls "rpc5" tool_click payload
    ∷ []

aborts_once_example : aborted docs "s1" daemon four_calls ≡ (
    if is_pending daemon.session_interrupts "s1" && any_changes docs "s1" four_calls then 1 else 0)
aborts_once_example = aborts_once docs daemon "s1" four_calls

abbrev timed_call : Doc
timed_call = dict (field "timeout_ms" (number 500) done)

given : tool_dispatch_timeout docs timed_call ≡ inl 2500
unfolding tool_dispatch_timeout get lookup
given = refl
