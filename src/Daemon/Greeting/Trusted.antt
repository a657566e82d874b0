-- ===== src/Daemon/Greeting/Trusted.antt =====
-- Who passes the upgrade.
use tab_stride.Daemon.Origin.{origin_allowed-form, is_extension_id, extension_prefix}
use tab_stride.Daemon.Greeting.{decide_upgrade, to_extension, to_agent}
use tab_stride.Prelude.{ℕ, true, false, List, [], ◌∷◌, ◌++◌, ◌≡◌, refl, arith}

-- Without the override a connection is taken for an extension's only from an extension's origin, and
-- for an agent's only if it names no origin, as a web page would.
pub decide_upgrade-extension :
    (path origin : List ℕ)
    → decide_upgrade path origin false ≡ to_extension
    → (id : List ℕ) × (origin ≡ extension_prefix ++ id) × (is_extension_id id ≡ true)
unfolding decide_upgrade
decide_upgrade-extension path origin h = origin_allowed-form origin (ground arith)

pub decide_upgrade-agent :
    (path origin : List ℕ) → decide_upgrade path origin false ≡ to_agent → origin ≡ []
unfolding decide_upgrade
decide_upgrade-agent path [] h = refl
decide_upgrade-agent path (c ∷ origin) h = absurd (ground arith)
