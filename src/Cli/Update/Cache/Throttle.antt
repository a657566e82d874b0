-- ===== src/Cli/Update/Cache/Throttle.antt =====
-- How a refresh of the cache shows in the commands after it.
use tab_stride.Files.{Directory, perform}
use tab_stride.Files.Replace.{run-IsReplaced, append-ne, Prepares, performed}
use tab_stride.Cli.Update.{Semver, UpdateManifest, without_v}
use tab_stride.Cli.Update.Cache.{
  UpdateCheckCache, cache_name, temporary, cache_operations, write_update_cache, read_update_cache,
  cached, refreshed, not_refreshed, refresh_update_cache, maybe_spawn_background_check,
}
use tab_stride.Text.{codes, bytes_eq_iff}
use tab_stride.Map.{lookup}
use tab_stride.Prelude.{
  ℕ, leb, ◌-◌, String, Bool, true, false, not, Option, none, some, List, ◌++◌, ◌≡◌, ◌⊎◌, inl, inr,
  refl, arith, All, Option-cases, Bool-cases,
}

cache_operations-Prepares :
    (pid_text : List ℕ) (created : ℕ) (payload : List ℕ)
    → All (Prepares (temporary pid_text)) (cache_operations pid_text created payload)
cache_operations-Prepares pid_text created payload = (tt, (refl, (refl, (tt, (tt, tt)))))

performed-cache_operations :
    (pid_text : List ℕ) (created : ℕ) (payload : List ℕ) (d : Directory)
    → performed (cache_operations pid_text created payload) d (temporary pid_text)
      ≡ some (record { content = payload; mode = created })
unfolding perform
performed-cache_operations pid_text created payload d =
    ground (arith, bytes_eq_iff (temporary pid_text) (temporary pid_text))

-- A write of the cache that stops at any point fails and is not seen, or is seen whole.
pub read_update_cache-write :
    (encode : UpdateCheckCache → List ℕ) (decode : List ℕ → Option UpdateCheckCache)
    → (c : UpdateCheckCache) → decode (encode c) ≡ some c
    → (pid_text : List ℕ) (created k n : ℕ) (d : Directory)
    → let r = write_update_cache encode decode pid_text created c k n d in
      ((r.1 ≡ false) × (read_update_cache encode decode r.0 ≡ read_update_cache encode decode d))
      ⊎ ((r.1 ≡ true) × (read_update_cache encode decode r.0 ≡ cached c))
unfolding write_update_cache read_update_cache
read_update_cache-write encode decode c codec pid_text created k n d =
    elim (run-IsReplaced (temporary pid_text) cache_name
      (append-ne cache_name b'.' (codes "tmp." ++ pid_text))
      (cache_operations pid_text created (encode c)) d
      (record { content = encode c; mode = created }) k n
      (cache_operations-Prepares pid_text created (encode c))
      (performed-cache_operations pid_text created (encode c) d)) [
        | inl (fails, old) ↦ inl (fails, ground arith)
        | inr (done, new) ↦ inr (done, ground (arith, codec))
      ]

module _ (v : Semver) (show : v.Version → List ℕ) where
  open v use {Version, parse, le}

  module _ (m : UpdateManifest Version) (current_version : List ℕ) (platform : String) where
    -- What a refresh writes is read by a later command of the same version with the same hint, and
    -- starts no further check within a day; after a day it does.
    pub background-refresh :
        (now later : ℕ) (c : UpdateCheckCache) (hint : Bool)
        → parse (without_v (show m.version)) ≡ some m.version
        → refresh_update_cache v show now current_version (some m) (some platform)
          ≡ refreshed c hint
        → maybe_spawn_background_check v show false false false later current_version (cached c)
          ≡ record { hint = hint; check = not (leb (later - now) 86400) }
    unfolding refresh_update_cache maybe_spawn_background_check
    background-refresh now later c hint p h =
        elim (Option-cases (parse (without_v current_version))) [
          | inl e ↦ absurd (ground arith)
          | inr (current, e) ↦ elim (Bool-cases (le m.version current)) [
            | inl y ↦ ground arith
            | inr n ↦ elim (Option-cases (lookup platform m.assets)) [
              | inl a ↦ absurd (ground arith)
              | inr (asset, a) ↦ ground arith
            ]
          ]
        ]

    -- Where a newer release lists no asset for the platform, a refresh writes nothing, so that the
    -- next command checks again.
    pub refresh_without_asset :
        (now : ℕ) (current : Version)
        → parse (without_v current_version) ≡ some current
        → le m.version current ≡ false
        → lookup platform m.assets ≡ none
        → refresh_update_cache v show now current_version (some m) (some platform) ≡ not_refreshed
    unfolding refresh_update_cache
    refresh_without_asset now current c n a = ground arith
