-- ===== src/Cli/Update/Install/Offered.antt =====
-- The stages of `tabstride update` up to the agreement of the user, and the whole command.
use tab_stride.Files.{Directory}
use tab_stride.Cli.Update.{
  Semver, ManifestAsset, UpdateManifest, without_v, candidate, update_candidate, offer_with,
  up_to_date, offer_from,
}
use tab_stride.Cli.Update.Install.{
  World, install_candidate, with_answer, reported, with_offer, with_platform, with_manifest,
  run_update, available, unsupported_platform, no_manifest, missing_asset, bad_version,
}
use tab_stride.Map.{lookup}
use tab_stride.Prelude.{
  ℕ, String, true, false, some, List, ◌≡◌, inl, refl, Bool, Option, none, if◌then◌else◌,
}
use tab_stride.Cli.Update.Install.Safe.{IsSafe}
use tab_stride.Cli.Update.Install.Stages.{untouched, agreed-IsSafe}

module _ (v : Semver) (w : World v.Version) (d : Directory) (target : List ℕ) where
  module _ (here : w.target ≡ some target) where
    module _ (m : UpdateManifest v.Version) (platform : String) (is_manifest : w.manifest ≡ some m)
        (is_platform : w.platform ≡ some platform) where
      checked-IsSafe :
          (current : v.Version) (asset : ManifestAsset) (b : Bool)
          → v.parse (without_v w.current_version) ≡ some current
          → v.le m.version current ≡ false
          → lookup platform m.assets ≡ some asset
          → w.check ≡ b
          → IsSafe v w d target (
              if b
              then (d, reported available)
              else if w.yes
              then install_candidate w d (candidate v m current asset)
              else with_answer w d (candidate v m current asset) w.answer)
      checked-IsSafe current asset true c n a e = inl (λ h. absurd (cc), refl)
      checked-IsSafe current asset false c n a e =
          agreed-IsSafe v w d target here m current platform asset is_manifest c n is_platform a e
            w.yes refl

      with_asset-IsSafe :
          (current : v.Version) (o : Option ManifestAsset)
          → v.parse (without_v w.current_version) ≡ some current
          → v.le m.version current ≡ false
          → lookup platform m.assets ≡ o
          → IsSafe v w d target (with_offer w d (offer_with v m current o))
      with_asset-IsSafe current none c n a = untouched v w d target missing_asset
      with_asset-IsSafe current (some asset) c n a = checked-IsSafe current asset w.check c n a refl

      newest-IsSafe :
          (current : v.Version) (b : Bool)
          → v.parse (without_v w.current_version) ≡ some current
          → v.le m.version current ≡ b
          → IsSafe v w d target (
              with_offer w d
                (if b then up_to_date else offer_with v m current (lookup platform m.assets)))
      newest-IsSafe current true c n = inl (λ h. absurd (cc), refl)
      newest-IsSafe current false c n =
          with_asset-IsSafe current (lookup platform m.assets) c n refl

      parsed-IsSafe :
          (o : Option v.Version)
          → v.parse (without_v w.current_version) ≡ o
          → IsSafe v w d target (with_offer w d (offer_from v m platform o))
      parsed-IsSafe none c = untouched v w d target bad_version
      parsed-IsSafe (some current) c = newest-IsSafe current (v.le m.version current) c refl

      update_candidate-IsSafe :
          IsSafe v w d target (with_offer w d (update_candidate v m w.current_version platform))
      unfolding update_candidate
      update_candidate-IsSafe = parsed-IsSafe (v.parse (without_v w.current_version)) refl

    with_platform-IsSafe :
        (m : UpdateManifest v.Version) (o : Option String)
        → w.manifest ≡ some m
        → w.platform ≡ o
        → IsSafe v w d target (with_platform v w d m o)
    with_platform-IsSafe m none e p = untouched v w d target unsupported_platform
    with_platform-IsSafe m (some platform) e p = update_candidate-IsSafe m platform e p

    with_manifest-IsSafe :
        (o : Option (UpdateManifest v.Version))
        → w.manifest ≡ o
        → IsSafe v w d target (with_manifest v w d o)
    with_manifest-IsSafe none e = untouched v w d target no_manifest
    with_manifest-IsSafe (some m) e = with_platform-IsSafe m w.platform e refl

-- `tabstride update` leaves the executable as it was and reports no update, or it reports one and the
-- executable is the whole of a vetted binary, wherever the replacement stops: the binary of a newer
-- release for the platform, from an archive with the stated hash, that the user agreed to install.
pub run_update-IsSafe :
    (v : Semver) (w : World v.Version) (d : Directory) (target : List ℕ)
    → w.target ≡ some target
    → IsSafe v w d target (run_update v w d)
unfolding run_update
run_update-IsSafe v w d target here = with_manifest-IsSafe v w d target here w.manifest refl
