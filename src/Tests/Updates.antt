-- ===== src/Tests/Updates.antt =====
-- The theorems on updates at concrete inputs.
use tab_stride.Files.{Directory}
use tab_stride.Text.{codes}
use tab_stride.Map.{lookup}
use tab_stride.Cli.Update.{Semver, UpdateManifest, ManifestAsset, without_v}
use tab_stride.Cli.Update.Install.{World, run_update}
use tab_stride.Cli.Update.Install.Safe.{IsSafe}
use tab_stride.Cli.Update.Install.Offered.{run_update-IsSafe}
use tab_stride.Cli.Update.Cache.{
  UpdateCheckCache, refreshed, refresh_update_cache, maybe_spawn_background_check, cached,
}
use tab_stride.Cli.Update.Cache.Throttle.{background-refresh}
use tab_stride.Prelude.{ℕ, leb, ◌-◌, not, true, false, none, some, List, [], ◌∷◌, ◌≡◌, refl, length}

-- Versions are numbers, written in as many strokes.
abbrev strokes : Semver
strokes = record { Version = ℕ; parse = λ s. some (length s); le = leb }

abbrev asset : ManifestAsset
asset = record { url = codes "tabstride.zip"; sha256 = some (codes "x") }

abbrev release : UpdateManifest ℕ
release = record {
  version = 3;
  tag = codes "cli-v3";
  release_url = none;
  assets = ("linux-x64", asset) ∷ [];
}

abbrev world : World ℕ
world = record {
  manifest = some release;
  platform = some "linux-x64";
  current_version = codes "ii";
  check = false;
  yes = true;
  answer = none;
  fetch = λ url. some (codes "archive");
  hex = λ bytes. codes "x";
  extract = λ kind bytes. some (codes "binary");
  target = some (codes "tabstride");
  pid_text = codes "42";
  created = 420;
  stops_in = 9;
  written = 0;
}

abbrev before_update : Directory
before_update name = some (record { content = codes "old"; mode = 493 })

run_update-IsSafe_example :
    IsSafe strokes world before_update (codes "tabstride") (run_update strokes world before_update)
run_update-IsSafe_example = run_update-IsSafe strokes world before_update (codes "tabstride") refl

abbrev written : List ℕ
written = codes "iii"

abbrev day_one : UpdateCheckCache
day_one = record { checked_at_epoch_secs = 1000; latest_version = codes "iii" }

refreshes :
    refresh_update_cache strokes (λ n. written) 1000 (codes "ii") (some release) (some "linux-x64")
    ≡ refreshed day_one true
unfolding refresh_update_cache lookup
refreshes = refl

background-refresh_example :
    maybe_spawn_background_check strokes
      (λ n. written)
      false
      false
      false
      5000
      (codes "ii")
      (cached day_one)
    ≡ record { hint = true; check = not (leb (5000 - 1000) 86400) }
unfolding without_v
background-refresh_example =
    background-refresh strokes (λ n. written) release (codes "ii") "linux-x64" 1000 5000 day_one
      true refl refreshes
