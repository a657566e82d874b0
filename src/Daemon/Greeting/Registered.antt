-- ===== src/Daemon/Greeting/Registered.antt =====
-- Who is registered by a handshake, and what is left where the reply to it is lost.
use mathlib.Core.Path.{subst}
use tab_stride.Map.{lookup}
use tab_stride.Map.Laws.{lookup-insert_self}
use tab_stride.Protocol.Method.{system_handshake, as_str}
use tab_stride.Protocol.Frame.{RequestFrame}
use tab_stride.Protocol.Handshake.{HandshakeCompat, ok, skew, reject}
use tab_stride.Daemon.Browsers.{Browsers, BrowserClient, connect, client_at, is_empty, send}
use tab_stride.Daemon.State.{DaemonState}
use tab_stride.Daemon.Greeting.{
  HandshakeParams, FirstMessage, silence, stream_error, closed, not_text, text, Greeted, ended,
  registered, client_of, verdict_on, register, admit, params_of, greet_params, greet, reply,
  drop_receiver, close_at, refusal, closed_sink,
}
use tab_stride.Prelude.{
  ℕ, String, set, length, if◌then◌else◌, str_eq, Bool, true, false, Option, none, some, [], ◌∷◌,
  ◌++◌, ◌≡◌, refl, arith, get_elem?, get_elem?-alloc, get_elem?-set_self, ◌∙◌, ap, sym,
}
use tab_stride.Protocol.Error.{plain, protocol_error}

-- Whether the verdict is a drift of versions.
abbrev pub drifts : HandshakeCompat → Bool
drifts skew = true
drifts ok = false
drifts (reject reason) = false

abbrev pub accepts : HandshakeCompat → Bool
accepts skew = true
accepts ok = true
accepts (reject reason) = false

module _ {V : Type 0} (read_params : V → Option HandshakeParams)
    (details : HandshakeParams → V) where
  -- The first message was a handshake whose versions fit, and the client is registered under the id
  -- that it gave, open, with its drift.
  abbrev pub IsGreeted :
      DaemonState V → FirstMessage V → ℕ → DaemonState V → ℕ → String → ℕ → Type 0
  IsGreeted st f now st' a id g =
      (r : RequestFrame V) × (p : HandshakeParams) × (f ≡ text (some r))
      × (str_eq (as_str r.method) (as_str system_handshake) ≡ true)
      × (params_of read_params r.params ≡ some p)
      × (accepts (verdict_on p) ≡ true)
      × (id ≡ p.instance_id)
      × (lookup id st'.browsers.table ≡ some a)
      × (client_at st'.browsers a
          ≡ some (record (client_of p now (drifts (verdict_on p))) { generation = g }))
      × (st'.sessions ≡ st.sessions)

  -- A connection that ends has changed nothing; one that goes on is greeted.
  abbrev pub Accounts : DaemonState V → FirstMessage V → ℕ → DaemonState V × Greeted V → Type 0
  Accounts st f now (st', ended r) = st' ≡ st
  Accounts st f now (st', registered a id g) = IsGreeted st f now st' a id g

  module _ (st : DaemonState V) (r : RequestFrame V) (now : ℕ) (p : HandshakeParams) where
    module _ (handshake : str_eq (as_str r.method) (as_str system_handshake) ≡ true)
        (given : params_of read_params r.params ≡ some p) where
      abbrev stored : HandshakeCompat → BrowserClient V
      stored c = record (client_of p now (drifts c)) { generation = st.browsers.next_generation }

      client_at-register :
          (c : HandshakeCompat)
          → verdict_on p ≡ c
          → get_elem? (st.browsers.clients ++ stored c ∷ []) (length st.browsers.clients)
            ≡ some (stored (verdict_on p))
      client_at-register c e =
          get_elem?-alloc st.browsers.clients (stored c) (length st.browsers.clients)
          ∙ ground arith
          ∙ ap (λ x. some (stored x)) (sym e)

      register-Accounts :
          (c : HandshakeCompat)
          → verdict_on p ≡ c
          → accepts c ≡ true
          → Accounts st (text (some r)) now (register st p now (drifts c))
      unfolding register connect
      register-Accounts c e y = (
        r,
        p,
        refl,
        handshake,
        given,
        ap accepts e ∙ y,
        refl,
        lookup-insert_self p.instance_id (length st.browsers.clients) st.browsers.table,
        client_at-register c e,
        refl,
      )

      admit-Accounts :
          (c : HandshakeCompat)
          → verdict_on p ≡ c
          → Accounts st (text (some r)) now (admit st r p now (details p) c)
      admit-Accounts (reject reason) e = refl
      admit-Accounts skew e = register-Accounts skew e refl
      admit-Accounts ok e = register-Accounts ok e refl

  greet_params-Accounts :
      (st : DaemonState V) (r : RequestFrame V) (now : ℕ) (o : Option HandshakeParams)
      → str_eq (as_str r.method) (as_str system_handshake) ≡ true
      → params_of read_params r.params ≡ o
      → Accounts st (text (some r)) now (greet_params read_params details st r now o)
  greet_params-Accounts st r now none h e = refl
  greet_params-Accounts st r now (some p) h e = admit-Accounts st r now p h e (verdict_on p) refl

  greet_request-Accounts :
      (st : DaemonState V) (r : RequestFrame V) (now : ℕ) (b : Bool)
      → str_eq (as_str r.method) (as_str system_handshake) ≡ b
      → Accounts st (text (some r)) now (
          if b
          then greet_params read_params details st r now (params_of read_params r.params)
          else (st, refusal r (plain protocol_error)))
  greet_request-Accounts st r now true h =
      greet_params-Accounts st r now (params_of read_params r.params) h refl
  greet_request-Accounts st r now false h = refl

  -- A connection of an extension registers a client only by a handshake of fitting versions in its first
  -- message, under the id given there and with the drift of its version; otherwise nothing changes.
  pub greet-Accounts :
      (st : DaemonState V) (f : FirstMessage V) (now : ℕ)
      → Accounts st f now (greet read_params details st f now)
  unfolding greet
  greet-Accounts st silence now = refl
  greet-Accounts st stream_error now = refl
  greet-Accounts st closed now = refl
  greet-Accounts st not_text now = refl
  greet-Accounts st (text none) now = refl
  greet-Accounts st (text (some r)) now =
      greet_request-Accounts st r now (str_eq (as_str r.method) (as_str system_handshake)) refl

  is_empty-of_lookup :
      (b : Browsers V) (id : String) (a : ℕ) → lookup id b.table ≡ some a → is_empty b ≡ false
  unfolding is_empty lookup
  is_empty-of_lookup b id a h = ground arith

  -- A client is registered under an id, and every frame sent to it fails.
  abbrev pub IsStuck : Browsers V → String → ℕ → Type 0
  IsStuck browsers id a =
      (lookup id browsers.table ≡ some a)
      × (is_empty browsers ≡ false)
      × (c : BrowserClient V) × (client_at browsers a ≡ some c)
      × ((frame : RequestFrame V) → (send frame c.sink).1 ≡ false)

  module _ (st : DaemonState V) (a : ℕ) (c : BrowserClient V)
      (h : client_at st.browsers a ≡ some c) where
    browsers-drop_receiver : (drop_receiver st a).browsers ≡ record {
      table = st.browsers.table;
      clients = set st.browsers.clients a (closed_sink c);
      next_generation = st.browsers.next_generation;
    }
    unfolding drop_receiver
    browsers-drop_receiver = ap (λ o. (close_at st a o).browsers) h

    drop_receiver-IsStuck :
        (id : String)
        → lookup id st.browsers.table ≡ some a
        → IsStuck (drop_receiver st a).browsers id a
    unfolding send
    drop_receiver-IsStuck id at =
        subst (λ b. IsStuck b id a) (sym browsers-drop_receiver)
          (
            at,
            is_empty-of_lookup _ id a at,
            closed_sink c,
            get_elem?-set_self st.browsers.clients a (closed_sink c) h,
            λ frame. refl,
          )

  -- A reply to a handshake that cannot be written leaves the client registered: it stays under its id,
  -- every frame sent to it fails, and the registry is not empty.
  pub unsent_reply_sticks :
      (st st' : DaemonState V) (f : FirstMessage V) (now a g : ℕ) (id : String)
      → greet read_params details st f now ≡ (st', registered a id g)
      → IsStuck (reply st' a false).browsers id a
  unfolding reply
  unsent_reply_sticks st st' f now a g id h =
      let (r, p, _, _, _, _, _, at, there, _) =
        subst (Accounts st f now) h (greet-Accounts st f now) in
      drop_receiver-IsStuck st' a _ there id at
