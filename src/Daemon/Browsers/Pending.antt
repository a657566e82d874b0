-- ===== src/Daemon/Browsers/Pending.antt =====
-- `Pending` of browsers.rs: the calls that wait for a response of one extension. The two ends of a
-- `oneshot` channel share a mailbox, which lives at an address.
use tab_stride.Prelude.{
  ◌==◌, if◌then◌else◌, length, get_elem?, set, ℕ, String, ◌≡◌, Bool, true, false, Option, none,
  some, List, [], ◌∷◌, ◌++◌, Option-cases, length-alloc, length-set, get_elem?-set,
  get_elem?-set_ne, get_elem?-alloc, refl, inl, inr, arith, eq_iff,
}
use tab_stride.Protocol.Frame.{ResponseFrame}
use tab_stride.Map.{Map, insert, remove, lookup, points_to}
use tab_stride.Map.Table.{Owns, insert-Owns, remove-Owns}
use tab_stride.Map.Laws.{lookup-remove_self, lookup-insert, lookup-remove}

pub data Mailbox (V : Type 0) : Type 0 where
  waiting closed : Mailbox V
  delivered : ResponseFrame V → Mailbox V

pub record Pending (V : Type 0) : Type 0 where
  pub waiters : Map ℕ
  pub mailboxes : List (Mailbox V)

module _ {V : Type 0} where
  abbrev pub empty : Pending V
  empty = record { waiters = []; mailboxes = [] }

  abbrev pub mailbox_at : Pending V → ℕ → Option (Mailbox V)
  mailbox_at p a = get_elem? p.mailboxes a

  -- A dropped sender closes the mailbox of its receiver.
  abbrev pub drop_sender : List (Mailbox V) → Option ℕ → List (Mailbox V)
  drop_sender ms none = ms
  drop_sender ms (some a) = set ms a closed

  -- The receiver is the address of a fresh mailbox; `insert` drops the sender that it replaces.
  unfoldable pub register : Pending V → String → Pending V × ℕ
  register p id = (
    record {
      waiters = insert id (length p.mailboxes) p.waiters;
      mailboxes = drop_sender p.mailboxes (lookup id p.waiters) ++ waiting ∷ [];
    },
    length p.mailboxes,
  )

  unfoldable pub resolve : Pending V → ResponseFrame V → Pending V × Bool
  resolve p frame = elim (lookup frame.id p.waiters) [
    | none ↦ (p, false)
    | some a ↦ (
      record {
        waiters = remove frame.id p.waiters;
        mailboxes = set p.mailboxes a (delivered frame);
      },
      true,
    )
  ]

  unfoldable pub cancel : Pending V → String → Pending V
  cancel p id = record {
    waiters = remove id p.waiters;
    mailboxes = drop_sender p.mailboxes (lookup id p.waiters);
  }

  -- Every waiter has a mailbox of its own, and it is still waiting.
  pub record IsValid (p : Pending V) : Type 0 where
    pub owns : Owns (length p.mailboxes) p.waiters
    pub open_mail :
        (k : String) (a : ℕ) → lookup k p.waiters ≡ some a → mailbox_at p a ≡ some waiting

  length-drop_sender :
      (ms : List (Mailbox V)) (o : Option ℕ) → length (drop_sender ms o) ≡ length ms
  length-drop_sender ms none = refl
  length-drop_sender ms (some a) = length-set ms a closed

  get-drop_sender :
      (ms : List (Mailbox V)) (o : Option ℕ) (b : ℕ)
      → points_to o b ≡ false
      → get_elem? (drop_sender ms o) b ≡ get_elem? ms b
  get-drop_sender ms none b h = refl
  get-drop_sender ms (some a) b h = get_elem?-set_ne ms a b closed (λ e. ground arith)

  pub register-IsValid : (p : Pending V) (k : String) → IsValid p → IsValid (register p k).0
  unfolding register
  register-IsValid p k v = record {
    owns =
        rw
          (
            length-alloc (drop_sender p.mailboxes (lookup k p.waiters)) waiting,
            length-drop_sender p.mailboxes (lookup k p.waiters),
          )
          (insert-Owns (length p.mailboxes) k p.waiters v.owns);
    open_mail = λ j a h. ground (
      arith,
      lookup-insert k j (length p.mailboxes) p.waiters,
      get_elem?-alloc (drop_sender p.mailboxes (lookup k p.waiters)) waiting a,
      length-drop_sender p.mailboxes (lookup k p.waiters),
      get-drop_sender p.mailboxes (lookup k p.waiters) a,
      v.owns.owned k j a,
      v.owns.allocated j a,
      v.open_mail j a,
      eq_iff k j,
    );
  }

  pub resolve-IsValid : (p : Pending V) (f : ResponseFrame V) → IsValid p → IsValid (resolve p f).0
  unfolding resolve
  resolve-IsValid p f v = elim (Option-cases (lookup f.id p.waiters)) [
    | inl e ↦ rw (e, resolve) v
    | inr (a, e) ↦
        rw (e, resolve)
          (record {
            owns =
                rw (length-set p.mailboxes a (delivered f))
                  (remove-Owns (length p.mailboxes) f.id p.waiters v.owns);
            open_mail = λ j b h. ground (
              arith,
              lookup-remove f.id j p.waiters,
              get_elem?-set_ne p.mailboxes a b (delivered f),
              v.owns.owned f.id j b,
              v.open_mail j b,
              eq_iff f.id j,
            );
          })
  ]

  pub cancel-IsValid : (p : Pending V) (k : String) → IsValid p → IsValid (cancel p k)
  unfolding cancel
  cancel-IsValid p k v = record {
    owns =
        rw (length-drop_sender p.mailboxes (lookup k p.waiters))
          (remove-Owns (length p.mailboxes) k p.waiters v.owns);
    open_mail = λ j b h. ground (
      arith,
      lookup-remove k j p.waiters,
      get-drop_sender p.mailboxes (lookup k p.waiters) b,
      v.owns.owned k j b,
      v.open_mail j b,
      eq_iff k j,
    );
  }

  -- A response reaches the mailbox that is registered under its id and no other, and the id is
  -- then free: a second response for it finds nobody.
  pub resolve_delivers :
      (p : Pending V) (f : ResponseFrame V) (a b : ℕ)
      → IsValid p
      → lookup f.id p.waiters ≡ some a
      → let (q, done) = resolve p f in
        (done ≡ true)
        × (mailbox_at q b ≡ (if a == b then some (delivered f) else mailbox_at p b))
        × ((resolve q f).1 ≡ false)
  unfolding resolve
  resolve_delivers p f a b v h =
      rw (h, resolve)
        (
          refl,
          get_elem?-set p.mailboxes a b (delivered f) (v.owns.allocated f.id a h),
          rw (lookup-remove_self f.id p.waiters, resolve) refl,
        )
