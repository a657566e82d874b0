-- ===== src/Tests/Registries.antt =====
-- The theorems on single registries at concrete inputs.
use tab_stride.Prelude.{ℕ, zero, suc, String, ◌≡◌, refl, some}
use tab_stride.Daemon.Abort
use tab_stride.Daemon.Browsers.Pending
use tab_stride.Protocol.Error.{ok}
use tab_stride.Daemon.Browsers.{found, empty as nobody, connect, choose}
use tab_stride.Daemon.Abort.Tokens
use tab_stride.Daemon.Browsers.Generations
use tab_stride.Daemon.Abort.{AbortRegistry, AbortGuard, is_cancelled}
use tab_stride.Map.Table.{nil-Owns}
use tab_stride.Map.{lookup, insert}
use tab_stride.Daemon.Browsers.Pending.{Pending, resolve, mailbox_at, delivered, resolve_delivers}
use tab_stride.Protocol.Frame.{ResponseFrame}
use tab_stride.Daemon.Browsers.Select.{Poll}
use tab_stride.Tests.Samples.{Doc, online, daemon, word, chrome}
use tab_stride.Daemon.Sessions.Purge.{Named}
use tab_stride.Daemon.Abort.Tokens.{is_cancelled-cancel, lookup-unregister}
use tab_stride.Daemon.Browsers.Generations.{cleanup_own, cleanup_after_reconnect}

abbrev tokens : AbortRegistry
tokens = (Abort.register Abort.empty "w1").0

tokens-IsValid : Tokens.IsValid tokens
tokens-IsValid = Tokens.register-IsValid Abort.empty "w1" (nil-Owns 0)

abbrev wait_guard : AbortGuard
wait_guard = record { rpc_id = "w1"; token = 0 }

registered : lookup "rpc1" daemon.tool_inflight.table ≡ some 0
unfolding lookup
registered = refl

abbrev waiting_call : Pending Doc
waiting_call = (Pending.register Pending.empty "tool-1").0

waiting_call-IsValid : Pending.IsValid waiting_call
unfolding lookup
waiting_call-IsValid =
    Pending.register-IsValid Pending.empty "tool-1"
      (record { owns = nil-Owns 0; open_mail = λ k a h. absurd (cc) })

waits : lookup "tool-1" waiting_call.waiters ≡ some 0
unfolding Pending.register insert lookup
waits = refl

abbrev reply : ResponseFrame Doc
reply = record { id = "tool-1"; body = ok (word "done") }

nobody-IsValid : Generations.IsValid {V = Doc} nobody
nobody-IsValid = record {
  owns = nil-Owns 0;
  named = λ k a c h e. absurd (cc);
  stamped = λ a c h. absurd (cc);
  distinct = λ a b c d h e g. absurd (cc);
}

online-IsValid : Generations.IsValid online
unfolding connect insert
online-IsValid = Generations.connect-IsValid nobody chrome nobody-IsValid

abbrev draw : ℕ → String
draw zero = "s1"
draw (suc n) = "s2"

sessions-Named : Named daemon.sessions
unfolding lookup
sessions-Named = (refl, refl, tt)

named_work : choose online (some "work") ≡ found 0
unfolding choose lookup
named_work = refl

abbrev empty_poll : ℕ → Poll Doc
empty_poll now = record { first = nobody; second = nobody; third = nobody; now = now }
