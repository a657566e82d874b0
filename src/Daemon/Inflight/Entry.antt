-- ===== src/Daemon/Inflight/Entry.antt =====
-- One entry: what cancelling it records.
use tab_stride.Prelude.{◌≡◌, refl, true, none, some, List, [], ◌∷◌, arith}
use tab_stride.Daemon.Inflight.{InflightEntry, cancel_and_snapshot, CancelReason}

-- The entry after the cancellations of a list, oldest first.
unfoldable pub cancel_all : InflightEntry → List CancelReason → InflightEntry
cancel_all e [] = e
cancel_all e (r ∷ rs) = cancel_all (cancel_and_snapshot e r).0 rs

cancel_again :
    (e : InflightEntry) (r s : CancelReason)
    → e.is_dead ≡ true
    → e.tripped ≡ true
    → e.cancel_reason ≡ some r
    → (cancel_and_snapshot e s).0 ≡ e
unfolding cancel_and_snapshot
cancel_again e r s d t h = ground arith

pub cancel_all_dead :
    (e : InflightEntry) (r : CancelReason) (rs : List CancelReason)
    → e.is_dead ≡ true
    → e.tripped ≡ true
    → e.cancel_reason ≡ some r
    → cancel_all e rs ≡ e
unfolding cancel_all
cancel_all_dead e r [] d t h = refl
cancel_all_dead e r (s ∷ rs) d t h = rw (cancel_again e r s d t h) (cancel_all_dead e r rs d t h)

-- However many cancellations land on a live entry, they end as the first one alone would: the
-- entry is dead, its token is tripped, and the first reason is the one that is kept.
pub cancel_all_first :
    (e : InflightEntry) (r : CancelReason) (rs : List CancelReason)
    → e.cancel_reason ≡ none
    → let e' = cancel_all e (r ∷ rs) in
      (e' ≡ (cancel_and_snapshot e r).0)
      × (e'.is_dead ≡ true)
      × (e'.tripped ≡ true)
      × (e'.cancel_reason ≡ some r)
unfolding cancel_all cancel_and_snapshot
cancel_all_first e r rs h = ground (arith, cancel_all_dead (cancel_and_snapshot e r).0 r rs)
