-- ===== src/Protocol/Locator/Strategy.antt =====
-- The one strategy by which a valid locator finds its element.
use tab_stride.Prelude.{
  if◌then◌else◌, Bool, true, false, Option, none, some, List, [], ◌∷◌, ◌++◌, is_some, length, ◌≡◌,
  refl, not, ◌&&◌, ◌||◌, map, arith, length-append, ◌∙◌, Bool-cases, ◌+◌, inl, inr,
}
use tab_stride.Protocol.Locator.{
  Text, Locator, is_given, is_left_blank, validate, count_true, strategies,
}
use tab_stride.Text.Trim.{is_blank}

pub data Strategy : Type 0 where
  by_ref by_css by_label by_placeholder by_text by_test_id : Text → Strategy
  by_role : Text → Text → Strategy

-- A strategy is named by a text that is not blank.
abbrev pub chosen : (Text → Strategy) → Option Text → List Strategy
chosen c none = []
chosen c (some t) = if is_blank t then [] else c t ∷ []

-- A role names a strategy together with the accessible name.
abbrev pub chosen_role : Option Text → Option Text → List Strategy
chosen_role (some r) (some n) = if is_blank r then [] else by_role r n ∷ []
chosen_role _ _ = []

abbrev pub spelled : Locator → List Strategy
spelled l =
    chosen by_ref l.ref
    ++ chosen by_css l.css
    ++ chosen_role l.role l.name
    ++ chosen by_label l.label
    ++ chosen by_placeholder l.placeholder
    ++ chosen by_text l.text
    ++ chosen by_test_id l.test_id

abbrev pub is_semantic : Strategy → Bool
is_semantic (by_ref t) = false
is_semantic (by_css t) = false
is_semantic _ = true

pub length-chosen :
    (c : Text → Strategy) (o : Option Text) → length (chosen c o) ≡ (if is_given o then 1 else 0)
length-chosen c none = refl
length-chosen c (some t) = ground arith

length-chosen_role :
    (r n : Option Text)
    → is_some r ≡ is_some n
    → is_left_blank r ≡ false
    → length (chosen_role r n) ≡ (if is_given r then 1 else 0)
length-chosen_role none none h b = refl
length-chosen_role none (some n) h b = absurd (ground arith)
length-chosen_role (some r) none h b = absurd (ground arith)
length-chosen_role (some r) (some n) h b = ground arith

abbrev every : List Strategy → Bool
every [] = true
every (s ∷ ss) = is_semantic s && every ss

every-append : (xs ys : List Strategy) → every (xs ++ ys) ≡ (every xs && every ys)
every-append [] ys = refl
every-append (x ∷ xs) ys = ground (arith, every-append xs ys)

every-chosen :
    (c : Text → Strategy) (o : Option Text)
    → ((t : Text) → is_semantic (c t) ≡ true)
    → every (chosen c o) ≡ true
every-chosen c none h = refl
every-chosen c (some t) h = ground (arith, h t)

every-chosen_role : (r n : Option Text) → every (chosen_role r n) ≡ true
every-chosen_role none n = refl
every-chosen_role (some r) none = refl
every-chosen_role (some r) (some n) = ground arith

singleton : (ss : List Strategy) → length ss ≡ 1 → (s : Strategy) × (ss ≡ s ∷ [])
singleton [] h = absurd (omega (arith, h))
singleton (s ∷ []) h = (s, refl)
singleton (s ∷ t ∷ ss) h = absurd (omega (arith, h))

-- What an accepted locator satisfies.
Accepted-validate :
    (l : Locator)
    → validate l ≡ none
    → (count_true (map is_given (strategies l)) ≡ 1)
      × (is_some l.role ≡ is_some l.name)
      × (is_left_blank l.role ≡ false)
      × ((not (is_some l.exact) || not (is_some l.ref) && not (is_some l.css)) ≡ true)
unfolding validate
Accepted-validate l h = (ground arith, ground arith, ground arith, ground arith)

module _ (a b c d e f g : List Strategy) where
  length-append_seven :
      length (a ++ b ++ c ++ d ++ e ++ f ++ g)
      ≡ length a + (length b + (length c + (length d + (length e + (length f + (length g + 0))))))
  length-append_seven = omega (
    arith,
    length-append (a ++ b ++ c ++ d ++ e ++ f) g,
    length-append (a ++ b ++ c ++ d ++ e) f,
    length-append (a ++ b ++ c ++ d) e,
    length-append (a ++ b ++ c) d,
    length-append (a ++ b) c,
    length-append a b,
  )

  every-append_seven :
      every (a ++ b ++ c ++ d ++ e ++ f ++ g)
      ≡ (every a && (every b && (every c && (every d && (every e && (every f && every g))))))
  every-append_seven = ground (
    arith,
    every-append (a ++ b ++ c ++ d ++ e ++ f) g,
    every-append (a ++ b ++ c ++ d ++ e) f,
    every-append (a ++ b ++ c ++ d) e,
    every-append (a ++ b ++ c) d,
    every-append (a ++ b) c,
    every-append a b,
  )

length-spelled :
    (l : Locator)
    → is_some l.role ≡ is_some l.name
    → is_left_blank l.role ≡ false
    → length (spelled l) ≡ count_true (map is_given (strategies l))
unfolding count_true
length-spelled l h b =
    length-append_seven (chosen by_ref l.ref) (chosen by_css l.css) (chosen_role l.role l.name)
      (chosen by_label l.label) (chosen by_placeholder l.placeholder) (chosen by_text l.text)
      (chosen by_test_id l.test_id)
    ∙ omega (
      arith,
      length-chosen by_ref l.ref,
      length-chosen by_css l.css,
      length-chosen_role l.role l.name h b,
      length-chosen by_label l.label,
      length-chosen by_placeholder l.placeholder,
      length-chosen by_text l.text,
      length-chosen by_test_id l.test_id,
    )

every-chosen_none :
    (c : Text → Strategy) (o : Option Text) → is_some o ≡ false → every (chosen c o) ≡ true
every-chosen_none c none h = refl
every-chosen_none c (some t) h = absurd (ground arith)

every-spelled :
    (l : Locator) → is_some l.ref ≡ false → is_some l.css ≡ false → every (spelled l) ≡ true
every-spelled l r c =
    every-append_seven (chosen by_ref l.ref) (chosen by_css l.css) (chosen_role l.role l.name)
      (chosen by_label l.label) (chosen by_placeholder l.placeholder) (chosen by_text l.text)
      (chosen by_test_id l.test_id)
    ∙ ground (
      arith,
      every-chosen_none by_ref l.ref r,
      every-chosen_none by_css l.css c,
      every-chosen_role l.role l.name,
      every-chosen by_label l.label (λ t. refl),
      every-chosen by_placeholder l.placeholder (λ t. refl),
      every-chosen by_text l.text (λ t. refl),
      every-chosen by_test_id l.test_id (λ t. refl),
    )

every-one :
    (ss : List Strategy) (s : Strategy) → every ss ≡ true → ss ≡ s ∷ [] → is_semantic s ≡ true
every-one ss s h e = ground arith

-- A locator that validates has exactly one strategy that is not blank, and `exact` only with a
-- semantic one.
pub strategy-Accepted :
    (l : Locator)
    → validate l ≡ none
    → (s : Strategy) × (spelled l ≡ s ∷ []) × ((not (is_some l.exact) || is_semantic s) ≡ true)
strategy-Accepted l h =
    let a = Accepted-validate l h in
    let one = singleton (spelled l) (length-spelled l a.1 a.2 ∙ a.0) in
    (
      one.0,
      one.1,
      elim (Bool-cases (is_some l.exact)) [
        | inr n ↦ ground arith
        | inl y ↦ ground (
          arith,
          every-one (spelled l) one.0 (every-spelled l (ground arith) (ground arith)) one.1,
        )
      ],
    )
