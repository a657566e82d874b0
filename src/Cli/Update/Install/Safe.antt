-- ===== src/Cli/Update/Install/Safe.antt =====
-- What `tabstride update` may put in the place of the executable.
use tab_stride.Files.{Directory, perform}
use tab_stride.Files.Replace.{run-IsReplaced, IsReplaced, Prepares, performed}
use tab_stride.Cli.Update.{Semver, ManifestAsset, UpdateManifest, ArchiveKind, without_v, lower}
use tab_stride.Cli.Update.Install.{
  temporary, executable, replace_operations, replace_binary_atomically, World, Outcome, reported,
  updated,
}
use tab_stride.Text.{codes, bytes_eq, bytes_eq_iff}
use tab_stride.Text.Trim.{trim}
use tab_stride.Map.{lookup}
use tab_stride.Prelude.{
  ℕ, ◌<◌, String, true, false, some, List, ◌++◌, ◌≡◌, ◌≢◌, ◌⊎◌, inl, inr, refl, arith, All, ap,
  length, length-append, Bool-cases,
}

longer-ne : (s t : List ℕ) → length s < length t → bytes_eq s t ≡ false
longer-ne s t h = elim (Bool-cases (bytes_eq s t)) [
  | inr n ↦ n
  | inl y ↦ absurd (omega (arith, ap length ((bytes_eq_iff s t).0 y)))
]

temporary-ne : (target pid_text : List ℕ) → bytes_eq target (temporary target pid_text) ≡ false
temporary-ne target pid_text =
    longer-ne target (temporary target pid_text)
      (omega (arith, length-append target (codes ".update-" ++ (pid_text ++ codes ".tmp"))))

replace_operations-Prepares :
    (target pid_text : List ℕ) (created : ℕ) (binary : List ℕ)
    → All (Prepares (temporary target pid_text)) (replace_operations target pid_text created binary)
replace_operations-Prepares target pid_text created binary =
    (tt, (refl, (refl, (tt, (tt, (refl, tt))))))

performed-replace_operations :
    (target pid_text : List ℕ) (created : ℕ) (binary : List ℕ) (d : Directory)
    → performed (replace_operations target pid_text created binary) d (temporary target pid_text)
      ≡ some (record { content = binary; mode = executable })
unfolding perform
performed-replace_operations target pid_text created binary d =
    ground (arith, bytes_eq_iff (temporary target pid_text) (temporary target pid_text))

-- A replacement that stops at any point leaves the old executable and fails, or the whole new one and
-- succeeds.
pub replace_binary_atomically-IsReplaced :
    (target pid_text : List ℕ) (created : ℕ) (binary : List ℕ) (k n : ℕ) (d : Directory)
    → IsReplaced target d
        (record { content = binary; mode = executable })
        (replace_binary_atomically target pid_text created binary k n d)
unfolding replace_binary_atomically
replace_binary_atomically-IsReplaced target pid_text created binary k n d =
    run-IsReplaced (temporary target pid_text) target (temporary-ne target pid_text)
      (replace_operations target pid_text created binary) d
      (record { content = binary; mode = executable }) k n
      (replace_operations-Prepares target pid_text created binary)
      (performed-replace_operations target pid_text created binary d)

-- A binary that may be installed: it comes from the archive that a release newer than the running
-- version lists for the platform, the archive has the hash that the release states, and the user asked
-- for the installation and agreed to it.
pub record IsVetted (v : Semver) (w : World v.Version) (binary : List ℕ) : Type 0 where
  pub manifest : UpdateManifest v.Version
  pub current : v.Version
  pub platform : String
  pub asset : ManifestAsset
  pub expected : List ℕ
  pub archive : List ℕ
  pub kind : ArchiveKind
  pub is_manifest : w.manifest ≡ some manifest
  pub is_current : v.parse (without_v w.current_version) ≡ some current
  pub is_newer : v.le manifest.version current ≡ false
  pub is_platform : w.platform ≡ some platform
  pub is_asset : lookup platform manifest.assets ≡ some asset
  pub asked : w.check ≡ false
  pub agreed : (w.yes ≡ true) ⊎ (w.answer ≡ some true)
  pub is_expected : asset.sha256 ≡ some expected
  pub is_archive : w.fetch asset.url ≡ some archive
  pub has_hash : w.hex archive ≡ lower (trim expected)
  pub is_binary : w.extract kind archive ≡ some binary

-- The executable is as it was and no update is reported, or it is a vetted binary and one is.
abbrev pub IsSafe :
    (v : Semver) → World v.Version → Directory → List ℕ → Directory × Outcome → Type 0
IsSafe v w d target r =
    ((r.1 ≢ reported updated) × (r.0 target ≡ d target))
    ⊎ ((r.1 ≡ reported updated)
        × (binary : List ℕ) × IsVetted v w binary
        × (r.0 target ≡ some (record { content = binary; mode = executable })))
