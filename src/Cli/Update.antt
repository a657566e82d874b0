-- ===== src/Cli/Update.antt =====
-- crates/tabstride-cli/src/cli/update.rs: which release is installed, and when. Versions (`semver`),
-- the hash and its printed form, archives, the network and the answer of the user are parameters.
pub mod Install
pub mod Cache
use tab_stride.Text.{bytes_eq, codes, is_empty}
use tab_stride.Text.Trim.{trim}
use tab_stride.Map.{Map, lookup}
use tab_stride.Prelude.{
  ℕ, leb, ◌+◌, ◌-◌, if◌then◌else◌, String, Bool, true, false, not, ◌&&◌, ◌==◌, Option, none, some,
  List, [], ◌∷◌, ◌++◌, ◌>>=◌, get_or,
}

pub record ManifestAsset : Type 0 where
  pub url : List ℕ
  pub sha256 : Option (List ℕ)

-- `semver`: parsing a text, and the order. A version is printed only in messages.
pub record Semver : Type 1 where
  pub Version : Type 0
  pub parse : List ℕ → Option Version
  pub le : Version → Version → Bool

pub record UpdateManifest (V : Type 0) : Type 0 where
  pub version : V
  pub tag : List ℕ
  pub release_url : Option (List ℕ)
  pub assets : Map ManifestAsset

pub record UpdateCandidate (V : Type 0) : Type 0 where
  pub current : V
  pub latest : V
  pub tag : List ℕ
  pub release_url : Option (List ℕ)
  pub asset : ManifestAsset

-- `RawManifest`, as serde reads it.
pub data RawManifestAsset : Type 0 where
  url : List ℕ → RawManifestAsset
  rich : List ℕ → Option (List ℕ) → RawManifestAsset

pub record RawManifest : Type 0 where
  pub version : List ℕ
  pub tag : Option (List ℕ)
  pub release_url : Option (List ℕ)
  pub assets : Map RawManifestAsset

-- `trim_start_matches('v')`
unfoldable pub without_v : List ℕ → List ℕ
without_v [] = []
without_v (c ∷ s) = let rest = without_v s in if c == b'v' then rest else c ∷ s

abbrev pub asset_of : RawManifestAsset → ManifestAsset
asset_of (url u) = record { url = u; sha256 = none }
asset_of (rich u h) = record { url = u; sha256 = h }

abbrev pub assets_of : Map RawManifestAsset → Map ManifestAsset
assets_of [] = []
assets_of ((k, a) ∷ rest) = (k, asset_of a) ∷ assets_of rest

-- `Result<Option<UpdateCandidate>>`
pub data Offer (V : Type 0) : Type 0 where
  unparsable_version : Offer V
  no_asset : Offer V
  up_to_date : Offer V
  newer : UpdateCandidate V → Offer V

-- `str::ends_with`
abbrev pub ends_with : List ℕ → List ℕ → Bool
ends_with suffix [] = bytes_eq [] suffix
ends_with suffix (c ∷ s) = if bytes_eq (c ∷ s) suffix then true else ends_with suffix s

pub data ArchiveKind : Type 0 where
  tar_gz zip : ArchiveKind

unfoldable pub kind_of_url : List ℕ → Option ArchiveKind
unfolding bytes_eq
kind_of_url u =
    if ends_with (codes ".tar.gz") u
    then some tar_gz
    else if ends_with (codes ".tgz") u
    then some tar_gz
    else if ends_with (codes ".zip") u
    then some zip
    else none

-- `to_ascii_lowercase`
abbrev pub lower : List ℕ → List ℕ
lower [] = []
lower (c ∷ s) = (if leb b'A' c && leb c b'Z' then c + 32 else c) ∷ lower s

module _ (v : Semver) where
  open v use {Version, parse, le}

  -- `from_slice`, behind the parse of the JSON. `default_tag` is the tag made from the version.
  unfoldable pub manifest_of : (Version → List ℕ) → RawManifest → Option (UpdateManifest Version)
  unfolding without_v
  manifest_of default_tag raw = do
    version ← parse (without_v raw.version)
    some (record {
      version = version;
      tag = get_or raw.tag (default_tag version);
      release_url = raw.release_url;
      assets = assets_of raw.assets;
    })

  abbrev pub candidate : UpdateManifest Version → Version → ManifestAsset → UpdateCandidate Version
  candidate m current asset = record {
    current = current;
    latest = m.version;
    tag = m.tag;
    release_url = m.release_url;
    asset = asset;
  }

  abbrev pub offer_with : UpdateManifest Version → Version → Option ManifestAsset → Offer Version
  offer_with m current none = no_asset
  offer_with m current (some asset) = newer (candidate m current asset)

  abbrev pub offer_from : UpdateManifest Version → String → Option Version → Offer Version
  offer_from m platform none = unparsable_version
  offer_from m platform (some current) =
      if le m.version current then up_to_date else offer_with m current (lookup platform m.assets)

  unfoldable pub update_candidate : UpdateManifest Version → List ℕ → String → Offer Version
  unfolding without_v
  update_candidate m current_version platform =
      offer_from m platform (parse (without_v current_version))

-- `hex` is the printed hash.
unfoldable pub verify_sha256 : (List ℕ → List ℕ) → List ℕ → List ℕ → Bool
unfolding trim
verify_sha256 hex bytes expected = bytes_eq (hex bytes) (lower (trim expected))
