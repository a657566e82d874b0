-- ===== src/Cli/Update/Install/Stages.antt =====
-- The stages of `tabstride update` behind the agreement of the user, from the last to the first.
use mathlib.Core.Path.{subst}
use tab_stride.Files.{Directory}
use tab_stride.Files.Replace.{IsReplaced}
use tab_stride.Cli.Update.{
  Semver, ManifestAsset, UpdateManifest, ArchiveKind, without_v, lower, verify_sha256, kind_of_url,
  candidate,
}
use tab_stride.Cli.Update.Install.{
  executable, replace_binary_atomically, World, UpdateError, finish_replace, with_binary, with_kind,
  failed, unknown_archive, no_binary, with_target, with_archive, with_checksum, install_candidate,
  with_answer, no_archive, no_checksum, checksum_mismatch, no_answer,
}
use tab_stride.Text.{bytes_eq_iff}
use tab_stride.Text.Trim.{trim}
use tab_stride.Map.{lookup}
use tab_stride.Prelude.{
  ℕ, String, true, false, some, List, ◌≡◌, ◌⊎◌, inl, inr, refl, arith, Bool, Option, none,
  if◌then◌else◌,
}
use tab_stride.Cli.Update.Install.Safe.{IsVetted, IsSafe, replace_binary_atomically-IsReplaced}

module _ (v : Semver) (w : World v.Version) (d : Directory) (target : List ℕ) where
  pub untouched : (e : UpdateError) → IsSafe v w d target (d, failed e)
  untouched e = inl (λ h. absurd (cc), refl)

  module _ (here : w.target ≡ some target) where
    finish_replace-IsSafe :
        (binary : List ℕ) (r : Directory × Bool)
        → IsVetted v w binary
        → IsReplaced target d (record { content = binary; mode = executable }) r
        → IsSafe v w d target (finish_replace r)
    finish_replace-IsSafe binary (d', true) vetted (inl (f, old)) = absurd (cc)
    finish_replace-IsSafe binary (d', true) vetted (inr (e, new)) = inr (refl, binary, vetted, new)
    finish_replace-IsSafe binary (d', false) vetted (inl (f, old)) = inl (λ h. absurd (cc), old)
    finish_replace-IsSafe binary (d', false) vetted (inr (e, new)) = absurd (cc)

    with_target-IsSafe :
        (binary : List ℕ) (o : Option (List ℕ))
        → IsVetted v w binary
        → o ≡ some target
        → IsSafe v w d target (with_target w d binary o)
    with_target-IsSafe binary none vetted e = absurd (cc)
    with_target-IsSafe binary (some t) vetted e =
        let same : target ≡ t = ground arith in
        subst (λ x. IsSafe v w d target (with_target w d binary (some x))) same
          (finish_replace-IsSafe binary
            (replace_binary_atomically target w.pid_text w.created binary w.stops_in w.written d)
            vetted
            (replace_binary_atomically-IsReplaced target w.pid_text w.created binary w.stops_in
              w.written d))

    -- What is known of a candidate once the user has agreed.
    module _ (m : UpdateManifest v.Version) (current : v.Version) (platform : String)
        (asset : ManifestAsset) (is_manifest : w.manifest ≡ some m)
        (is_current : v.parse (without_v w.current_version) ≡ some current)
        (is_newer : v.le m.version current ≡ false) (is_platform : w.platform ≡ some platform)
        (is_asset : lookup platform m.assets ≡ some asset) (asked : w.check ≡ false) where
      module _ (agreed : (w.yes ≡ true) ⊎ (w.answer ≡ some true)) where
        module _ (expected archive : List ℕ) (is_expected : asset.sha256 ≡ some expected)
            (is_archive : w.fetch asset.url ≡ some archive)
            (has_hash : w.hex archive ≡ lower (trim expected)) where
          with_binary-IsSafe :
              (kind : ArchiveKind) (o : Option (List ℕ))
              → w.extract kind archive ≡ o
              → IsSafe v w d target (with_binary w d o)
          with_binary-IsSafe kind none e = untouched no_binary
          with_binary-IsSafe kind (some binary) e =
              with_target-IsSafe binary w.target
                (record {
                  manifest = m;
                  current = current;
                  platform = platform;
                  asset = asset;
                  expected = expected;
                  archive = archive;
                  kind = kind;
                  is_manifest = is_manifest;
                  is_current = is_current;
                  is_newer = is_newer;
                  is_platform = is_platform;
                  is_asset = is_asset;
                  asked = asked;
                  agreed = agreed;
                  is_expected = is_expected;
                  is_archive = is_archive;
                  has_hash = has_hash;
                  is_binary = e;
                })
                here

          with_kind-IsSafe :
              (o : Option ArchiveKind) → IsSafe v w d target (with_kind w d archive o)
          with_kind-IsSafe none = untouched unknown_archive
          with_kind-IsSafe (some kind) = with_binary-IsSafe kind (w.extract kind archive) refl

        verified-IsSafe :
            (expected archive : List ℕ)
            → asset.sha256 ≡ some expected
            → w.fetch asset.url ≡ some archive
            → (b : Bool) → verify_sha256 w.hex archive expected ≡ b
            → IsSafe v w d target (
                if b
                then with_kind w d archive (kind_of_url asset.url)
                else (d, failed checksum_mismatch))
        unfolding verify_sha256
        verified-IsSafe expected archive s f false e = untouched checksum_mismatch
        verified-IsSafe expected archive s f true e =
            with_kind-IsSafe expected archive s f
              ((bytes_eq_iff (w.hex archive) (lower (trim expected))).0 e) (kind_of_url asset.url)

        with_archive-IsSafe :
            (expected : List ℕ) (o : Option (List ℕ))
            → asset.sha256 ≡ some expected
            → w.fetch asset.url ≡ o
            → IsSafe v w d target (with_archive w d asset expected o)
        with_archive-IsSafe expected none s f = untouched no_archive
        with_archive-IsSafe expected (some archive) s f =
            verified-IsSafe expected archive s f (verify_sha256 w.hex archive expected) refl

        with_checksum-IsSafe :
            (o : Option (List ℕ))
            → asset.sha256 ≡ o
            → IsSafe v w d target (with_checksum w d asset o)
        with_checksum-IsSafe none s = untouched no_checksum
        with_checksum-IsSafe (some expected) s =
            with_archive-IsSafe expected (w.fetch asset.url) s refl

        install_candidate-IsSafe :
            IsSafe v w d target (install_candidate w d (candidate v m current asset))
        unfolding install_candidate
        install_candidate-IsSafe = with_checksum-IsSafe asset.sha256 refl

      with_answer-IsSafe :
          (o : Option Bool)
          → w.answer ≡ o
          → IsSafe v w d target (with_answer w d (candidate v m current asset) o)
      with_answer-IsSafe none e = untouched no_answer
      with_answer-IsSafe (some false) e = inl (λ h. absurd (cc), refl)
      with_answer-IsSafe (some true) e = install_candidate-IsSafe (inr e)

      pub agreed-IsSafe :
          (b : Bool)
          → w.yes ≡ b
          → IsSafe v w d target (
              if b
              then install_candidate w d (candidate v m current asset)
              else with_answer w d (candidate v m current asset) w.answer)
      agreed-IsSafe true e = install_candidate-IsSafe (inl e)
      agreed-IsSafe false e = with_answer-IsSafe w.answer refl
