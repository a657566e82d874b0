-- ===== src/Cli/Update/Cache.antt =====
-- The background check of crates/tabstride-cli/src/cli/update.rs and its cache. The JSON codec of the
-- cache and the network are parameters; times are in seconds.
pub mod Throttle
use tab_stride.Files.{
  File, Directory, Operation, create_dir, create, write, sync, chmod, rename, run, perform,
}
use tab_stride.Files.Replace.{run-IsReplaced, append-ne, Prepares, performed}
use tab_stride.Cli.Update.{
  Semver, UpdateManifest, UpdateCandidate, Offer, unparsable_version, no_asset, up_to_date, newer,
  update_candidate, without_v, offer_with,
}
use tab_stride.Text.{codes, bytes_eq, bytes_eq_iff}
use tab_stride.Prelude.{
  ℕ, leb, ◌-◌, ◌+◌, ◌≤◌, ◌==◌, if◌then◌else◌, String, Bool, true, false, not, ◌&&◌, ◌||◌, Option,
  none, some, List, [], ◌∷◌, ◌++◌, ◌≡◌, ◌⊎◌, inl, inr, refl, arith, All, Option-cases, Bool-cases,
}

pub record UpdateCheckCache : Type 0 where
  pub checked_at_epoch_secs : ℕ
  pub latest_version : List ℕ

-- `UPDATE_CHECK_INTERVAL`
abbrev pub update_check_interval : ℕ
update_check_interval = 86400

-- `saturating_sub`
unfoldable pub is_fresh : UpdateCheckCache → ℕ → ℕ → Bool
is_fresh c now interval = leb (now - c.checked_at_epoch_secs) interval

abbrev pub cache_name : List ℕ
cache_name = codes "update-check.json"

abbrev pub temporary : List ℕ → List ℕ
temporary pid_text = cache_name ++ codes ".tmp." ++ pid_text

abbrev pub cache_operations : List ℕ → ℕ → List ℕ → List Operation
cache_operations pid_text created payload =
    create_dir
    ∷ create (temporary pid_text) created
    ∷ write (temporary pid_text) payload
    ∷ sync
    ∷ sync
    ∷ []

-- `Result<Option<UpdateCheckCache>>`
pub data CacheRead : Type 0 where
  unreadable missing : CacheRead
  cached : UpdateCheckCache → CacheRead

module _ (encode : UpdateCheckCache → List ℕ) (decode : List ℕ → Option UpdateCheckCache) where
  unfoldable pub write_update_cache :
      List ℕ → ℕ → UpdateCheckCache → ℕ → ℕ → Directory → Directory × Bool
  unfolding run
  write_update_cache pid_text created c k n d =
      run
        (cache_operations pid_text created (encode c)
          ++ rename (temporary pid_text) cache_name ∷ [])
        k n d

  abbrev pub parsed : Option UpdateCheckCache → CacheRead
  parsed none = unreadable
  parsed (some c) = cached c

  unfoldable pub read_update_cache : Directory → CacheRead
  read_update_cache d = elim (d cache_name) [ none ↦ missing | some f ↦ parsed (decode f.content) ]

-- What a refresh does: nothing, or write the cache, with the hint if there is one.
pub data Refreshed : Type 0 where
  not_refreshed : Refreshed
  refreshed : UpdateCheckCache → Bool → Refreshed

-- What the command does about updates: print the hint, and start the check in the background.
pub record Background : Type 0 where
  pub hint : Bool
  pub check : Bool

abbrev pub silent : Background
silent = record { hint = false; check = false }

module _ (v : Semver) (show : v.Version → List ℕ) where
  open v use {Version, parse, le}

  -- Whether there is a hint.
  unfoldable pub update_hint_for_cache : UpdateCheckCache → List ℕ → Bool
  unfolding without_v
  update_hint_for_cache c current_version = elim (parse (without_v current_version)) [
    | none ↦ false
    | some current ↦ elim (parse (without_v c.latest_version)) [
      | none ↦ false
      | some latest ↦ not (le latest current)
    ]
  ]

  abbrev pub cache_of : ℕ → UpdateManifest Version → UpdateCheckCache
  cache_of now m = record { checked_at_epoch_secs = now; latest_version = show m.version }

  -- The hint is computed first, and its error ends the refresh before the cache is written.
  abbrev pub refreshed_by : ℕ → UpdateManifest Version → Offer Version → Refreshed
  refreshed_by now m unparsable_version = not_refreshed
  refreshed_by now m no_asset = not_refreshed
  refreshed_by now m up_to_date = refreshed (cache_of now m) false
  refreshed_by now m (newer c) = refreshed (cache_of now m) true

  abbrev pub refreshed_on : ℕ → List ℕ → UpdateManifest Version → Option String → Refreshed
  refreshed_on now current_version m none = not_refreshed
  refreshed_on now current_version m (some platform) =
      refreshed_by now m (update_candidate v m current_version platform)

  unfoldable pub refresh_update_cache :
      ℕ → List ℕ → Option (UpdateManifest Version) → Option String → Refreshed
  unfolding update_candidate
  refresh_update_cache now current_version manifest platform = elim manifest [
    | none ↦ not_refreshed
    | some m ↦ refreshed_on now current_version m platform
  ]

  abbrev pub background_for : ℕ → List ℕ → CacheRead → Background
  background_for now current_version (cached c) = record {
    hint = update_hint_for_cache c current_version;
    check = not (is_fresh c now update_check_interval);
  }
  background_for now current_version missing = record { hint = false; check = true }
  background_for now current_version unreadable = record { hint = false; check = true }

  -- `is_excluded`: the command is one of those that never look for updates.
  unfoldable pub maybe_spawn_background_check :
      Bool → Bool → Bool → ℕ → List ℕ → CacheRead → Background
  unfolding update_hint_for_cache is_fresh
  maybe_spawn_background_check quiet json is_excluded now current_version r =
      if quiet || json || is_excluded then silent else background_for now current_version r
