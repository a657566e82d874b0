-- ===== src/Cli/Skills/Synced.antt =====
-- What a synchronisation and an installation leave behind.
use tab_stride.Text.{bytes_eq, bytes_eq_iff}
use tab_stride.Cli.Skills.{
  Home, put, SyncFault, no_fault, read_fails, write_fails, rename_fails, SyncOne, missing,
  up_to_date, updated, failed, sync_present, sync_one, SyncReport, add_sync, sync_with_source,
}
use tab_stride.Prelude.{
  ℕ, ◌==◌, Bool, true, false, ◌||◌, Option, none, some, List, [], ◌∷◌, is_some, ◌≡◌, ◌⊎◌, inl, inr,
  refl, arith, Option-cases, Bool-cases, ◌∙◌, sym, ap,
}

abbrev pub mem : ℕ → List ℕ → Bool
mem h [] = false
mem h (x ∷ xs) = h == x || mem h xs

-- A file is as before or the source, and none appears where there was none.
abbrev pub IsKept : List ℕ → Option (List ℕ) → Option (List ℕ) → Type 0
IsKept source before after = (after ≡ before) ⊎ ((after ≡ some source) × (is_some before ≡ true))

abbrev pub settles : SyncOne → Bool
settles missing = false
settles up_to_date = true
settles updated = true
settles failed = false

put-IsKept :
    (home : Home) (h : ℕ) (source on_disk : List ℕ) (k : ℕ)
    → home h ≡ some on_disk
    → IsKept source (home k) (put home h source k)
put-IsKept home h source on_disk k e = elim (Bool-cases (k == h)) [
  | inr n ↦ inl (rw n refl)
  | inl y ↦
      let same : k ≡ h = ground arith in
      inr (rw y refl, ap (λ x. is_some (home x)) same ∙ ap is_some e)
]

module _ (home : Home) (h : ℕ) (source on_disk : List ℕ) (e : home h ≡ some on_disk) where
  sync_present-IsKept :
      (fault : SyncFault) (k : ℕ)
      → IsKept source (home k) ((sync_present home h source fault on_disk).0 k)
  sync_present-IsKept no_fault k = elim (Bool-cases (bytes_eq on_disk source)) [
    | inl y ↦ inl (rw y refl)
    | inr n ↦ rw n (put-IsKept home h source on_disk k e)
  ]
  sync_present-IsKept read_fails k = inl refl
  sync_present-IsKept write_fails k = inl (ground arith)
  sync_present-IsKept rename_fails k = inl (ground arith)

  settled-sync_present :
      (fault : SyncFault)
      → settles (sync_present home h source fault on_disk).1 ≡ true
      → (sync_present home h source fault on_disk).0 h ≡ some source
  settled-sync_present no_fault y = ground (arith, bytes_eq_iff on_disk source)
  settled-sync_present read_fails y = absurd (cc)
  settled-sync_present write_fails y = ground (arith, bytes_eq_iff on_disk source)
  settled-sync_present rename_fails y = ground (arith, bytes_eq_iff on_disk source)

module _ (home : Home) (h : ℕ) (source : List ℕ) (fault : SyncFault) where
  sync_one-missing : home h ≡ none → sync_one home h source fault ≡ (home, missing)
  unfolding sync_one
  sync_one-missing e = rw (e, sync_one) refl

  sync_one-present :
      (d : List ℕ)
      → home h ≡ some d
      → sync_one home h source fault ≡ sync_present home h source fault d
  unfolding sync_one
  sync_one-present d e = rw (e, sync_one) refl

  sync_one-IsKept : (k : ℕ) → IsKept source (home k) ((sync_one home h source fault).0 k)
  sync_one-IsKept k = elim (Option-cases (home h)) [
    | inl e ↦ inl (ap (λ r. r.0 k) (sync_one-missing e))
    | inr (d, e) ↦ rw (sync_one-present d e) (sync_present-IsKept home h source d e fault k)
  ]

  settled-sync_one :
      settles (sync_one home h source fault).1 ≡ true
      → (sync_one home h source fault).0 h ≡ some source
  settled-sync_one y = elim (Option-cases (home h)) [
    | inl e ↦
        let no : false ≡ true = ap (λ r. settles r.1) (sym (sync_one-missing e)) ∙ y in absurd (cc)
    | inr (d, e) ↦
        let same = sync_one-present d e in
        rw same
          (settled-sync_present home h source d e fault (ap (λ r. settles r.1) (sym same) ∙ y))
  ]

IsKept-trans :
    (source : List ℕ) (a b c : Option (List ℕ))
    → IsKept source a b
    → IsKept source b c
    → IsKept source a c
IsKept-trans source a b c (inl p) (inl q) = inl (q ∙ p)
IsKept-trans source a b c (inl p) (inr (q, y)) = inr (q, ap is_some (sym p) ∙ y)
IsKept-trans source a b c (inr (p, x)) (inl q) = inr (q ∙ p, x)
IsKept-trans source a b c (inr (p, x)) (inr (q, y)) = inr (q, x)

-- A synchronisation leaves every file as it was or makes it the source, and it installs none.
pub sync_with_source-IsKept :
    (home : Home) (source : List ℕ) (hs : List (ℕ × SyncFault)) (k : ℕ)
    → IsKept source (home k) ((sync_with_source home source hs).0 k)
unfolding sync_with_source
sync_with_source-IsKept home source [] k = inl refl
sync_with_source-IsKept home source ((h, fault) ∷ rest) k =
    IsKept-trans source (home k) ((sync_one home h source fault).0 k) _
      (sync_one-IsKept home h source fault k)
      (sync_with_source-IsKept (sync_one home h source fault).0 source rest k)

kept_source :
    (source : List ℕ) (a b : Option (List ℕ))
    → IsKept source a b
    → a ≡ some source
    → b ≡ some source
kept_source source a b (inl p) e = p ∙ e
kept_source source a b (inr (p, x)) e = p

mem-add_sync :
    (h k : ℕ) (one : SyncOne) (r : SyncReport)
    → (mem k (add_sync h one r).updated || mem k (add_sync h one r).up_to_date) ≡ true
    → ((k ≡ h) × (settles one ≡ true)) ⊎ ((mem k r.updated || mem k r.up_to_date) ≡ true)
mem-add_sync h k missing r m = inr m
mem-add_sync h k failed r m = inr m
mem-add_sync h k up_to_date r m = elim (Bool-cases (k == h)) [
  | inl y ↦ inl (ground arith, refl)
  | inr n ↦ inr (ground arith)
]
mem-add_sync h k updated r m = elim (Bool-cases (k == h)) [
  | inl y ↦ inl (ground arith, refl)
  | inr n ↦ inr (ground arith)
]

-- A harness that is reported as updated or up to date has the source afterwards.
pub reported-sync_with_source :
    (home : Home) (source : List ℕ) (hs : List (ℕ × SyncFault)) (k : ℕ)
    → let (last, report) = sync_with_source home source hs in
      (mem k report.updated || mem k report.up_to_date) ≡ true → last k ≡ some source
unfolding sync_with_source
reported-sync_with_source home source [] k m = absurd (cc)
reported-sync_with_source home source ((h, fault) ∷ rest) k m =
    let home' = (sync_one home h source fault).0 in
    elim (mem-add_sync h k (sync_one home h source fault).1 (sync_with_source home' source rest).1
      m) [
        | inr later ↦ reported-sync_with_source home' source rest k later
        | inl (same, done) ↦
            kept_source source (home' k) _ (sync_with_source-IsKept home' source rest k)
              (ap home' same ∙ settled-sync_one home h source fault done)
      ]
