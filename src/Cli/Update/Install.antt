-- ===== src/Cli/Update/Install.antt =====
-- `run`, `install_candidate_with_client` and `replace_binary_atomically` of
-- crates/tabstride-cli/src/cli/update.rs, outside Windows.
pub mod Safe
pub mod Stages
pub mod Offered
use tab_stride.Files.{
  File, Directory, Operation, create_dir, create, write, sync, chmod, rename, run,
}
use tab_stride.Cli.Update.{
  Semver, ManifestAsset, UpdateManifest, UpdateCandidate, Offer, unparsable_version, no_asset,
  up_to_date, newer, ArchiveKind, kind_of_url, update_candidate, verify_sha256,
}
use tab_stride.Text.{codes}
use tab_stride.Prelude.{
  ℕ, if◌then◌else◌, String, Bool, true, false, not, ◌&&◌, Option, none, some, List, [], ◌∷◌, ◌++◌,
}

abbrev pub temporary : List ℕ → List ℕ → List ℕ
temporary target pid_text =
    codes "." ++ (target ++ (codes ".update-" ++ (pid_text ++ codes ".tmp")))

-- 0o755
abbrev pub executable : ℕ
executable = 493

abbrev pub replace_operations : List ℕ → List ℕ → ℕ → List ℕ → List Operation
replace_operations target pid_text created binary =
    create_dir
    ∷ create (temporary target pid_text) created
    ∷ write (temporary target pid_text) binary
    ∷ sync
    ∷ sync
    ∷ chmod (temporary target pid_text) executable
    ∷ []

unfoldable pub replace_binary_atomically :
    List ℕ → List ℕ → ℕ → List ℕ → ℕ → ℕ → Directory → Directory × Bool
unfolding run
replace_binary_atomically target pid_text created binary k n d =
    run
      (replace_operations target pid_text created binary
        ++ rename (temporary target pid_text) target ∷ [])
      k n d

pub data Status : Type 0 where
  already_newest available declined updated : Status

pub data UpdateError : Type 0 where
  no_manifest unsupported_platform bad_version missing_asset no_answer no_checksum : UpdateError
  no_archive checksum_mismatch unknown_archive no_binary no_target not_replaced : UpdateError

pub data Outcome : Type 0 where
  reported : Status → Outcome
  failed : UpdateError → Outcome

-- What the command meets. `fetch` is the network, `answer` that of the user, `extract` reads an
-- archive, `target` the file name of the running executable in its directory, and the replacement
-- stops in its step `stops_in` with `written` bytes written.
pub record World (V : Type 0) : Type 0 where
  pub manifest : Option (UpdateManifest V)
  pub platform : Option String
  pub current_version : List ℕ
  pub check : Bool
  pub yes : Bool
  pub answer : Option Bool
  pub fetch : List ℕ → Option (List ℕ)
  pub hex : List ℕ → List ℕ
  pub extract : ArchiveKind → List ℕ → Option (List ℕ)
  pub target : Option (List ℕ)
  pub pid_text : List ℕ
  pub created : ℕ
  pub stops_in : ℕ
  pub written : ℕ

abbrev pub finish_replace : Directory × Bool → Directory × Outcome
finish_replace (d, true) = (d, reported updated)
finish_replace (d, false) = (d, failed not_replaced)

module _ {V : Type 0} (w : World V) (d : Directory) where
  abbrev pub with_target : List ℕ → Option (List ℕ) → Directory × Outcome
  with_target binary none = (d, failed no_target)
  with_target binary (some t) =
      finish_replace
        (replace_binary_atomically t w.pid_text w.created binary w.stops_in w.written d)

  abbrev pub with_binary : Option (List ℕ) → Directory × Outcome
  with_binary none = (d, failed no_binary)
  with_binary (some binary) = with_target binary w.target

  abbrev pub with_kind : List ℕ → Option ArchiveKind → Directory × Outcome
  with_kind archive none = (d, failed unknown_archive)
  with_kind archive (some kind) = with_binary (w.extract kind archive)

  abbrev pub with_archive : ManifestAsset → List ℕ → Option (List ℕ) → Directory × Outcome
  with_archive asset expected none = (d, failed no_archive)
  with_archive asset expected (some archive) =
      if verify_sha256 w.hex archive expected
      then with_kind archive (kind_of_url asset.url)
      else (d, failed checksum_mismatch)

  abbrev pub with_checksum : ManifestAsset → Option (List ℕ) → Directory × Outcome
  with_checksum asset none = (d, failed no_checksum)
  with_checksum asset (some expected) = with_archive asset expected (w.fetch asset.url)

  unfoldable pub install_candidate : UpdateCandidate V → Directory × Outcome
  unfolding replace_binary_atomically verify_sha256 kind_of_url
  install_candidate c = with_checksum c.asset c.asset.sha256

  abbrev pub with_answer : UpdateCandidate V → Option Bool → Directory × Outcome
  with_answer c none = (d, failed no_answer)
  with_answer c (some false) = (d, reported declined)
  with_answer c (some true) = install_candidate c

  abbrev pub with_candidate : UpdateCandidate V → Directory × Outcome
  with_candidate c =
      if w.check
      then (d, reported available)
      else if w.yes
      then install_candidate c
      else with_answer c w.answer

  abbrev pub with_offer : Offer V → Directory × Outcome
  with_offer unparsable_version = (d, failed bad_version)
  with_offer no_asset = (d, failed missing_asset)
  with_offer up_to_date = (d, reported already_newest)
  with_offer (newer c) = with_candidate c

module _ (v : Semver) (w : World v.Version) (d : Directory) where
  abbrev pub with_platform : UpdateManifest v.Version → Option String → Directory × Outcome
  with_platform m none = (d, failed unsupported_platform)
  with_platform m (some platform) = with_offer w d (update_candidate v m w.current_version platform)

  abbrev pub with_manifest : Option (UpdateManifest v.Version) → Directory × Outcome
  with_manifest none = (d, failed no_manifest)
  with_manifest (some m) = with_platform m w.platform

  -- The directory of the executable afterwards, and what is reported.
  unfoldable pub run_update : Directory × Outcome
  unfolding install_candidate update_candidate
  run_update = with_manifest w.manifest
