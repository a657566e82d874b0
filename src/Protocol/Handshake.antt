-- ===== src/Protocol/Handshake.antt =====
-- crates/tabstride-protocol/src/system.rs: the version check of `system.handshake`. A version is
-- the list of its bytes; the reason of a refusal is a constructor in place of its text.
pub mod Parts
pub mod Verdict
use Prim.Native.Nat.{compare, Ordering, lt, eq, gt}
use tab_stride.Prelude.{
  ℕ, ◌^◌, ◌-◌, Option, none, some, List, [], ◌∷◌, Bool, true, false, not, ◌&&◌, ◌||◌, leb, ltb,
  ◌==◌, if◌then◌else◌, ◌>>=◌,
}
use tab_stride.Text.{all_digits, is_empty, parse_u64, first_segment, second_segment, bytes_eq}

pub data Reason : Type 0 where
  major_mismatch peer_below_floor peer_unparseable : Reason
  local_below_floor local_unparseable peer_floor_unparseable : Reason

pub data HandshakeCompat : Type 0 where
  ok skew : HandshakeCompat
  reject : Reason → HandshakeCompat

pub record ProtocolParts : Type 0 where
  pub major : ℕ
  pub minor : ℕ

-- 2 ^ 53 - 1
abbrev pub max_protocol_major : ℕ
max_protocol_major = 9007199254740991

-- One numeric field: digits only, and at most `max_protocol_major`.
unfoldable pub parse_field : List ℕ → Option ℕ
parse_field seg =
    if is_empty seg || not (all_digits seg)
    then none
    else do n ← parse_u64 seg; if ltb max_protocol_major n then none else some n

unfoldable pub parse_major : List ℕ → Option ℕ
unfolding parse_field
parse_major value = parse_field (first_segment value)

-- A missing or empty second segment is minor 0.
unfoldable pub parse_minor : Option (List ℕ) → Option ℕ
unfolding parse_field
parse_minor none = some 0
parse_minor (some []) = some 0
parse_minor (some (c ∷ seg)) = parse_field (c ∷ seg)

unfoldable pub parse_protocol_parts : List ℕ → Option ProtocolParts
unfolding parse_major parse_minor
parse_protocol_parts value = do
  major ← parse_major value
  minor ← parse_minor (second_segment value)
  some (record { major = major; minor = minor })

-- `Ordering::then`
abbrev pub and_then : Ordering → Ordering → Ordering
and_then eq o = o
and_then lt o = lt
and_then gt o = gt

unfoldable pub compare_protocol : List ℕ → List ℕ → Option Ordering
compare_protocol a b = do
  pa ← parse_protocol_parts a
  pb ← parse_protocol_parts b
  some (and_then (compare pa.major pb.major) (compare pa.minor pb.minor))

abbrev pub same_major : Option ℕ → Option ℕ → Bool
same_major (some a) (some b) = a == b
same_major _ _ = false

abbrev pub is_none {ℓ} : {A : Type ℓ} → Option A → Bool
is_none none = true
is_none (some a) = false

-- The last test: equal texts, or drift in the minor version.
unfoldable pub check_drift : List ℕ → List ℕ → HandshakeCompat
check_drift peer local = if bytes_eq peer local then ok else skew

-- The peer's floor; a legacy peer sends none.
unfoldable pub check_peer_floor : List ℕ → Option (List ℕ) → List ℕ → HandshakeCompat
unfolding check_drift
check_peer_floor peer none local = check_drift peer local
check_peer_floor peer (some floor) local = elim (compare_protocol local floor) [
  | some lt ↦ reject local_below_floor
  | some eq ↦ check_drift peer local
  | some gt ↦ check_drift peer local
  | none ↦
      if is_none (parse_protocol_parts local)
      then reject local_unparseable
      else reject peer_floor_unparseable
]

unfoldable pub evaluate_handshake_compat :
    List ℕ → Option (List ℕ) → List ℕ → List ℕ → HandshakeCompat
unfolding check_peer_floor
evaluate_handshake_compat peer peer_floor local local_floor =
    if not (same_major (parse_major peer) (parse_major local))
    then reject major_mismatch
    else elim (compare_protocol peer local_floor) [
      | some lt ↦ reject peer_below_floor
      | none ↦ reject peer_unparseable
      | some eq ↦ check_peer_floor peer peer_floor local
      | some gt ↦ check_peer_floor peer peer_floor local
    ]
