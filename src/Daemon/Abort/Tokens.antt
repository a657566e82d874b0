-- ===== src/Daemon/Abort/Tokens.antt =====
-- Which tokens a cancellation trips, and which entries a guard removes.
use tab_stride.Prelude.{
  if◌then◌else◌, Bool-cases, Option-cases, is_some, length, length-set, get_elem?-set, ℕ, String,
  ◌≡◌, refl, inl, inr, true, false, ◌&&◌, ◌||◌, none, arith, str_eq, length-alloc, get_elem?-alloc,
  some,
}
use tab_stride.Daemon.Abort.{AbortRegistry, register, cancel, unregister, AbortGuard, is_cancelled}
use tab_stride.Map.Table.{Owns, remove-Owns, insert-Owns}
use tab_stride.Map.{contains_key, lookup, points_to}
use tab_stride.Map.Laws.{lookup-remove, lookup-insert_self}

abbrev pub IsValid : AbortRegistry → Type 0
IsValid r = Owns (length r.flags) r.tokens

-- Every operation keeps the tokens of the registry allocated and apart.
pub register-IsValid : (r : AbortRegistry) (k : String) → IsValid r → IsValid (register r k).0
unfolding register
register-IsValid r k v = elim (Bool-cases (contains_key k r.tokens)) [
  | inl dup ↦ rw dup v
  | inr new ↦ rw (new, length-alloc r.flags false) (insert-Owns (length r.flags) k r.tokens v)
]

pub cancel-IsValid : (r : AbortRegistry) (k : String) → IsValid r → IsValid (cancel r k).0
unfolding cancel
cancel-IsValid r k v = elim (Option-cases (lookup k r.tokens)) [
  | inl e ↦ rw (e, cancel) v
  | inr (a, e) ↦ rw (e, cancel) (rw (length-set r.flags a true) v)
]

pub unregister-IsValid : (r : AbortRegistry) (g : AbortGuard) → IsValid r → IsValid (unregister r g)
unfolding unregister
unregister-IsValid r g v = elim (Bool-cases (points_to (lookup g.rpc_id r.tokens) g.token)) [
  | inl e ↦ rw e (remove-Owns (length r.flags) g.rpc_id r.tokens v)
  | inr e ↦ rw e v
]

-- `cancel` trips the token registered under the id and no other, and says whether there was one.
pub is_cancelled-cancel :
    (r : AbortRegistry) (k : String) (b : ℕ)
    → IsValid r
    → ((cancel r k).1 ≡ is_some (lookup k r.tokens))
      × (is_cancelled (cancel r k).0 b ≡ (points_to (lookup k r.tokens) b || is_cancelled r b))
unfolding cancel is_cancelled
is_cancelled-cancel r k b v = elim (Option-cases (lookup k r.tokens)) [
  | inl e ↦ rw (e, cancel) (refl, refl)
  | inr (a, e) ↦
      rw (e, cancel) (refl, ground (arith, get_elem?-set r.flags a b true (v.allocated k a e)))
]

-- A guard frees its id while its own token stands there, and leaves the registry alone if another
-- registration has taken the id over; either way no other id is affected.
pub lookup-unregister :
    (r : AbortRegistry) (g : AbortGuard) (j : String)
    → lookup j (unregister r g).tokens ≡ (
        if str_eq g.rpc_id j && points_to (lookup g.rpc_id r.tokens) g.token
        then none
        else lookup j r.tokens)
unfolding unregister
lookup-unregister r g j = ground (arith, lookup-remove g.rpc_id j r.tokens)

-- A registration that succeeds is of a free id, which then names a token that is not tripped.
pub Registered-register :
    (r r' : AbortRegistry) (k : String) (g : AbortGuard)
    → register r k ≡ (r', some g)
    → (contains_key k r.tokens ≡ false)
      × (lookup k r'.tokens ≡ some g.token)
      × (is_cancelled r' g.token ≡ false)
unfolding register is_cancelled
Registered-register r r' k g h = elim (Bool-cases (contains_key k r.tokens)) [
  | inl y ↦ absurd (ground arith)
  | inr n ↦ (
    n,
    ground (arith, lookup-insert_self k (length r.flags) r.tokens),
    ground (arith, get_elem?-alloc r.flags false (length r.flags)),
  )
]
