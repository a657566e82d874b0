-- ===== src/Files/Replace.antt =====
-- What a sequence of operations that prepares another file and then renames it does to the target.
use tab_stride.Files.{
  File, Directory, Operation, create_dir, create, write, sync, chmod, rename, perform, break_off,
  run,
}
use tab_stride.Text.{bytes_eq, bytes_eq_iff}
use tab_stride.Prelude.{
  ℕ, zero, suc, Bool, true, false, some, List, [], ◌∷◌, ◌++◌, ◌≡◌, ◌⊎◌, refl, arith, All, inl, inr,
  ◌∙◌,
}

-- An operation on one name only.
abbrev pub Prepares : List ℕ → Operation → Type 0
Prepares tmp (create name mode) = name ≡ tmp
Prepares tmp (write name bytes) = name ≡ tmp
Prepares tmp create_dir = Unit
Prepares tmp sync = Unit
Prepares tmp (chmod name mode) = name ≡ tmp
Prepares tmp (rename from onto) = ⊥

-- The directory if nothing stops.
abbrev pub performed : List Operation → Directory → Directory
performed [] d = d
performed (op ∷ ops) d = performed ops (perform op d)

-- The target is as it was, and a failure is reported, or it is the new file, and a success is.
abbrev pub IsReplaced : List ℕ → Directory → File → Directory × Bool → Type 0
IsReplaced target d f r =
    ((r.1 ≡ false) × (r.0 target ≡ d target)) ⊎ ((r.1 ≡ true) × (r.0 target ≡ some f))

module _ (tmp other : List ℕ) (differs : bytes_eq other tmp ≡ false) where
  perform-Prepares :
      (op : Operation) → Prepares tmp op → (d : Directory) → perform op d other ≡ d other
  unfolding perform
  perform-Prepares create_dir e d = refl
  perform-Prepares (create name mode) e d = ground arith
  perform-Prepares (write name bytes) e d = ground arith
  perform-Prepares sync e d = refl
  perform-Prepares (chmod name mode) e d = ground arith
  perform-Prepares (rename from onto) e d = absurd e

  break_off-Prepares :
      (op : Operation)
      → Prepares tmp op
      → (n : ℕ) (d : Directory) → break_off n op d other ≡ d other
  unfolding break_off
  break_off-Prepares create_dir e n d = refl
  break_off-Prepares (create name mode) e n d = refl
  break_off-Prepares (write name bytes) e n d = ground arith
  break_off-Prepares sync e n d = refl
  break_off-Prepares (chmod name mode) e n d = refl
  break_off-Prepares (rename from onto) e n d = absurd e

module _ (tmp target : List ℕ) (differs : bytes_eq target tmp ≡ false) where
  -- Wherever the sequence stops, the target is the old file or the whole new one.
  pub run-IsReplaced :
      (ops : List Operation) (d : Directory) (f : File) (k n : ℕ)
      → All (Prepares tmp) ops
      → performed ops d tmp ≡ some f
      → IsReplaced target d f (run (ops ++ rename tmp target ∷ []) k n d)
  unfolding run perform break_off
  run-IsReplaced [] d f zero n p e = inl (refl, refl)
  run-IsReplaced [] d f (suc k) n p e = inr (refl, ground (arith, bytes_eq_iff target target))
  run-IsReplaced (op ∷ ops) d f zero n p e =
      inl (refl, break_off-Prepares tmp target differs op p.0 n d)
  run-IsReplaced (op ∷ ops) d f (suc k) n p e =
      let same = perform-Prepares tmp target differs op p.0 d in
      elim (run-IsReplaced ops (perform op d) f k n p.1 e) [
        | inl (fails, old) ↦ inl (fails, old ∙ same)
        | inr done ↦ inr done
      ]

-- No name but the two is touched.
pub run-elsewhere :
    (tmp target other : List ℕ) (ops : List Operation) (d : Directory) (k n : ℕ)
    → bytes_eq other tmp ≡ false
    → bytes_eq other target ≡ false
    → All (Prepares tmp) ops
    → (run (ops ++ rename tmp target ∷ []) k n d).0 other ≡ d other
unfolding run perform break_off
run-elsewhere tmp target other [] d zero n a b p = refl
run-elsewhere tmp target other [] d (suc k) n a b p = ground arith
run-elsewhere tmp target other (op ∷ ops) d zero n a b p = break_off-Prepares tmp other a op p.0 n d
run-elsewhere tmp target other (op ∷ ops) d (suc k) n a b p =
    run-elsewhere tmp target other ops (perform op d) k n a b p.1
    ∙ perform-Prepares tmp other a op p.0 d

-- A longer name is another name.
pub append-ne : (s : List ℕ) (c : ℕ) (t : List ℕ) → bytes_eq s (s ++ c ∷ t) ≡ false
unfolding bytes_eq
append-ne [] c t = refl
append-ne (b ∷ s) c t = ground (arith, append-ne s c t)
