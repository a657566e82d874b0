-- ===== src/Protocol/Handshake/Verdict.antt =====
-- What the two ends of a connection conclude.
use tab_stride.Prelude.{
  ℕ, some, List, ◌≡◌, arith, Bool, none, ltb, ◌||◌, if◌then◌else◌, ◌==◌, ◌&&◌, leb,
}
use tab_stride.Text.{bytes_eq_comm, bytes_eq}
use tab_stride.Protocol.Handshake.{
  HandshakeCompat, ok, skew, reject, evaluate_handshake_compat, parse_protocol_parts, ProtocolParts,
  compare_protocol, parse_major,
}

pub data Verdict : Type 0 where
  accepted flagged refused : Verdict

-- The outcome without the reason of a refusal.
abbrev pub verdict : HandshakeCompat → Verdict
verdict ok = accepted
verdict skew = flagged
verdict (reject r) = refused

-- Two peers that both state their floors reach the same verdict about one another.
pub verdict_comm :
    (p q pf qf : List ℕ)
    → verdict (evaluate_handshake_compat p (some pf) q qf)
      ≡ verdict (evaluate_handshake_compat q (some qf) p pf)
unfolding evaluate_handshake_compat
verdict_comm p q pf qf = ground (arith, bytes_eq_comm p q)

parts_major :
    (s : List ℕ) (a : ProtocolParts)
    → parse_protocol_parts s ≡ some a
    → parse_major s ≡ some a.major
unfolding parse_protocol_parts
parts_major s a h = ground arith

-- The order on versions: by the major number, then by the minor one.
abbrev pub le_parts : ProtocolParts → ProtocolParts → Bool
le_parts a b = ltb a.major b.major || (a.major == b.major && leb a.minor b.minor)

-- Of four versions that parse, the verdict is decided by their numbers: refused unless the majors
-- agree and each side is at or above the other's floor; then accepted if the two version texts
-- are the same, and flagged if they differ.
pub verdict_of_parts :
    (p q pf qf : List ℕ) (a b af bf : ProtocolParts)
    → parse_protocol_parts p ≡ some a
    → parse_protocol_parts q ≡ some b
    → parse_protocol_parts pf ≡ some af
    → parse_protocol_parts qf ≡ some bf
    → verdict (evaluate_handshake_compat p (some pf) q qf) ≡ (
        if a.major == b.major && le_parts bf a && le_parts af b
        then (if bytes_eq p q then accepted else flagged)
        else refused)
unfolding evaluate_handshake_compat compare_protocol
verdict_of_parts p q pf qf a b af bf ha hb haf hbf =
    ground (arith, parts_major p a ha, parts_major q b hb)

-- A legacy peer, which sends no floor, is judged as one whose floor is the local version.
pub verdict_legacy :
    (p q qf : List ℕ) (b : ProtocolParts)
    → parse_protocol_parts q ≡ some b
    → evaluate_handshake_compat p none q qf ≡ evaluate_handshake_compat p (some q) q qf
unfolding evaluate_handshake_compat compare_protocol
verdict_legacy p q qf b h = ground arith
