-- ===== src/Daemon/Flow/Template.antt =====
-- `expand_string` of crates/tabstride-cli/src/daemon/flow_runtime.rs, over the scalar values of a
-- text.
use tab_stride.Protocol.Locator.{Text}
use tab_stride.Text.Pairs.{split_pair, length-split_pair}
use tab_stride.Text.Trim.{trim}
use tab_stride.Prelude.{
  if◌then◌else◌, Option-cases, length, ℕ, zero, suc, ◌<◌, ◌≢◌, inl, inr, Option, none, some, List,
  [], ◌∷◌, ◌++◌, arith,
}
use tab_stride.Text.{bytes_eq}

-- `variables.get(key)`
unfoldable pub variable : Text → List (Text × Text) → Option Text
variable key [] = none
variable key (v ∷ vs) = if bytes_eq key v.0 then some v.1 else variable key vs

-- The results of `expand_string`, and the end of the fuel.
pub data Expansion : Type 0 where
  expanded missing : Text → Expansion
  unterminated out_of_fuel : Expansion

-- `while let Some(start) = rest.find("{{")`, on fuel.
unfoldable pub expand_on : ℕ → List (Text × Text) → Text → Text → Expansion
expand_on zero vars output rest = out_of_fuel
expand_on (suc n) vars output rest = elim (split_pair b'{' rest) [
  | none ↦ expanded (output ++ rest)
  | some (before, after) ↦ elim (split_pair b'}' after) [
    | none ↦ unterminated
    | some (key, later) ↦ elim (variable (trim key) vars) [
      | none ↦ missing (trim key)
      | some v ↦ expand_on n vars (output ++ before ++ v) later
    ]
  ]
]

-- Each round takes at least four characters, so the length of the text is fuel enough.
unfoldable pub expand_string : Text → List (Text × Text) → Expansion
unfolding expand_on
expand_string input vars = expand_on (suc (length input)) vars [] input

expand_on-Ends :
    (n : ℕ) (vars : List (Text × Text)) (output rest : Text)
    → length rest < n
    → expand_on n vars output rest ≢ out_of_fuel
unfolding expand_on
expand_on-Ends zero vars output rest h = absurd (omega (arith, h))
expand_on-Ends (suc n) vars output rest h = elim (Option-cases (split_pair b'{' rest)) [
  | inl e ↦ ground arith
  | inr (p, e) ↦ elim (Option-cases (split_pair b'}' p.1)) [
    | inl f ↦ ground arith
    | inr (r, f) ↦ elim (Option-cases (variable (trim r.0) vars)) [
      | inl g ↦ ground arith
      | inr (v, g) ↦ ground (
        arith,
        expand_on-Ends n vars (output ++ p.0 ++ v) r.1,
        length-split_pair b'{' rest p e,
        length-split_pair b'}' p.1 r f,
      )
    ]
  ]
]

-- The loop ends: the expansion never runs out of fuel.
pub expand_string-Ends :
    (input : Text) (vars : List (Text × Text)) → expand_string input vars ≢ out_of_fuel
unfolding expand_string
expand_string-Ends input vars = expand_on-Ends (suc (length input)) vars [] input (omega arith)
