-- ===== src/Daemon/Flow/Tree.antt =====
-- `expand_value` of crates/tabstride-cli/src/daemon/flow_runtime.rs, over `serde_json::Value`.
use tab_stride.Protocol.Locator.{Text}
use tab_stride.Daemon.Flow.Template.{Expansion, expanded, expand_string}
use tab_stride.Prelude.{
  Bool, Option, none, some, List, ◌>>=◌, Option-cases, ◌≡◌, inl, inr, [], arith,
}

-- `serde_json::Value`; a number is kept as it is written.
mutual
  pub data Tree : Type 0 where
    null : Tree
    flag : Bool → Tree
    number : Text → Tree
    text : Text → Tree
    array : Elements → Tree
    object : Members → Tree

  pub data Elements : Type 0 where
    stop : Elements
    element : Tree → Elements → Elements

  pub data Members : Type 0 where
    close : Members
    member : Text → Tree → Members → Members

-- `?` on the result; each error is `invalid_params`.
abbrev pub expanded_text : Expansion → Option Text
expanded_text (expanded t) = some t
expanded_text _ = none

-- `expand_value`; `none` is the error.
unfoldable mutual
  unfolding expand_string

  pub expand_value : List (Text × Text) → Tree → Option Tree
  expand_value vars (text t) = do u ← expanded_text (expand_string t vars); some (text u)
  expand_value vars (array es) = do fs ← expand_elements vars es; some (array fs)
  expand_value vars (object ms) = do ns ← expand_members vars ms; some (object ns)
  expand_value vars v = some v

  pub expand_elements : List (Text × Text) → Elements → Option Elements
  expand_elements vars stop = some stop
  expand_elements vars (element t es) = do
    u ← expand_value vars t
    fs ← expand_elements vars es
    some (element u fs)

  pub expand_members : List (Text × Text) → Members → Option Members
  expand_members vars close = some close
  expand_members vars (member k t ms) = do
    u ← expand_value vars t
    ns ← expand_members vars ms
    some (member k u ns)

-- The value with its texts left out: its shape, its keys, its numbers and its flags.
unfoldable mutual
  pub outline : Tree → Tree
  outline (text t) = text []
  outline (array es) = array (outline_elements es)
  outline (object ms) = object (outline_members ms)
  outline v = v

  pub outline_elements : Elements → Elements
  outline_elements stop = stop
  outline_elements (element t es) = element (outline t) (outline_elements es)

  pub outline_members : Members → Members
  outline_members close = close
  outline_members (member k t ms) = member k (outline t) (outline_members ms)

mutual
  unfolding expand_value outline

  outline-expanded :
      (vars : List (Text × Text)) (t u : Tree)
      → expand_value vars t ≡ some u
      → outline u ≡ outline t
  outline-expanded vars null u h = ground arith
  outline-expanded vars (flag b) u h = ground arith
  outline-expanded vars (number n) u h = ground arith
  outline-expanded vars (text t) u h = elim (Option-cases (expanded_text (expand_string t vars))) [
    | inl e ↦ absurd (ground arith)
    | inr (r, e) ↦ ground arith
  ]
  outline-expanded vars (array es) u h = elim (Option-cases (expand_elements vars es)) [
    | inl e ↦ absurd (ground arith)
    | inr (fs, e) ↦ ground (arith, outline_elements-expand_elements vars es fs e)
  ]
  outline-expanded vars (object ms) u h = elim (Option-cases (expand_members vars ms)) [
    | inl e ↦ absurd (ground arith)
    | inr (ns, e) ↦ ground (arith, outline_members-expand_members vars ms ns e)
  ]

  outline_elements-expand_elements :
      (vars : List (Text × Text)) (es fs : Elements)
      → expand_elements vars es ≡ some fs
      → outline_elements fs ≡ outline_elements es
  outline_elements-expand_elements vars stop fs h = ground arith
  outline_elements-expand_elements vars (element t es) fs h =
      elim (Option-cases (expand_value vars t)) [
        | inl e ↦ absurd (ground arith)
        | inr (u, e) ↦ elim (Option-cases (expand_elements vars es)) [
          | inl d ↦ absurd (ground arith)
          | inr (gs, d) ↦
              ground
                (arith, outline-expanded vars t u e, outline_elements-expand_elements vars es gs d)
        ]
      ]

  outline_members-expand_members :
      (vars : List (Text × Text)) (ms ns : Members)
      → expand_members vars ms ≡ some ns
      → outline_members ns ≡ outline_members ms
  outline_members-expand_members vars close ns h = ground arith
  outline_members-expand_members vars (member k t ms) ns h =
      elim (Option-cases (expand_value vars t)) [
        | inl e ↦ absurd (ground arith)
        | inr (u, e) ↦ elim (Option-cases (expand_members vars ms)) [
          | inl d ↦ absurd (ground arith)
          | inr (gs, d) ↦
              ground
                (arith, outline-expanded vars t u e, outline_members-expand_members vars ms gs d)
        ]
      ]

-- An expansion changes nothing but texts: keys, numbers, flags and the shape stay as they are.
pub outline-expand_value :
    (vars : List (Text × Text)) (t u : Tree) → expand_value vars t ≡ some u → outline u ≡ outline t
outline-expand_value vars t u h = outline-expanded vars t u h
