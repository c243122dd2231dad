-- ===== src/Client/DebounceLaws.antt =====
-- What a field shows whose backend is asked after a pause.
use oragami.Prelude.{
  ◌≡◌, refl, sym, ◌∙◌, inl, inr, ◌⊎◌, String, Bool, true, false, Option, none, List, [], ◌∷◌, ◌++◌,
  arith, Bool-cases, if◌then◌else◌, ◌==◌, string_eq,
}
use mathlib.Core.Path.{subst}
use oragami.Client.Tasks.{Outcome}
use oragami.Client.Debounce.{Field, empty_field, typed, fires, settles, value}

cons-in-nil : (before after : List String) (text : String) → before ++ (text ∷ after) ≡ [] → ⊥
cons-in-nil [] after text h = cc
cons-in-nil (x ∷ xs) after text h = cc

cons-in-single :
    (before after : List String) (text own : String)
    → before ++ (text ∷ after) ≡ own ∷ []
    → (before ++ after ≡ []) × (text ≡ own)
cons-in-single [] after text own h = (cc, cc)
cons-in-single (x ∷ xs) after text own h = absurd (cons-in-nil xs after text cc)

module _ {A : Type 0} (asks : String → Bool) (answer : String → Outcome A) where
  -- A change while no request is under way, the timer, or the answer to one of the requests.
  pub data Step (f : Field A) : Field A → Type 0 where
    types : (text : String) → f.pending ≡ [] → Step f (typed asks text f)
    expires : Step f (fires asks f)
    answers :
        (before after : List String) (text : String)
        → f.pending ≡ before ++ (text ∷ after)
        → Step f (settles asks (before ++ after) (answer text) f)

  pub data Reach : Field A → Type 0 where
    starts : Reach (empty_field asks)
    goes : (f g : Field A) → Reach f → Step f g → Reach g

  -- What is to be shown for a text.
  abbrev pub expected : String → Option A
  expected text = if asks text then value (answer text) else none

  -- Nothing is under way and the field shows what is expected or waits for its timer, or the one
  -- request is for the text.
  abbrev IsCurrent : Field A → Type 0
  IsCurrent f =
      ((f.pending ≡ [])
        × ((f.is_armed ≡ true) × (asks f.text ≡ true)
            ⊎ (f.is_armed ≡ false) × (f.shown ≡ expected f.text)))
      ⊎ ((f.pending ≡ f.text ∷ []) × (f.is_armed ≡ false) × (asks f.text ≡ true))

  Step-IsCurrent : (f g : Field A) → Step f g → IsCurrent f → IsCurrent g
  unfolding typed fires settles
  Step-IsCurrent f g (types text free) c = elim (Bool-cases (text == f.text)) [
    | inl same ↦
        let still : typed asks text f ≡ f = ground (arith, same) in subst IsCurrent (sym still) c
    | inr new ↦ elim (Bool-cases (asks text)) [
      | inl asked ↦
          let next : typed asks text f ≡ record f { text = text; is_armed = true } =
            ground (arith, new, asked) in
          subst IsCurrent (sym next) (inl (free, inl (refl, asked)))
      | inr unasked ↦
          let next : typed asks text f ≡ record f { text = text; shown = none; is_armed = false } =
            ground (arith, new, unasked) in
          subst IsCurrent (sym next) (inl (free, inr (refl, ground (arith, unasked))))
    ]
  ]
  Step-IsCurrent f g expires (inl (free, inl (armed, asked))) =
      let next : fires asks f
          ≡ record f { is_armed = false; checking = true; pending = f.text ∷ [] } =
        ground (arith, armed, free) in
      subst IsCurrent (sym next) (inr (refl, refl, asked))
  Step-IsCurrent f g expires (inl (free, inr (idle, shows))) =
      let next : fires asks f ≡ f = ground (arith, idle) in
      subst IsCurrent (sym next) (inl (free, inr (idle, shows)))
  Step-IsCurrent f g expires (inr (under, idle, asked)) =
      let next : fires asks f ≡ f = ground (arith, idle) in
      subst IsCurrent (sym next) (inr (under, idle, asked))
  Step-IsCurrent f g (answers before after text under) (inl (free, rest)) =
      absurd (cons-in-nil before after text (sym under ∙ free))
  Step-IsCurrent f g (answers before after text under) (inr (one, idle, asked)) =
      let (none_left, same) = cons-in-single before after text f.text (sym under ∙ one) in
      inl (none_left, inr (idle, ground (arith, same, asked)))

  Reach-IsCurrent : (f : Field A) → asks "" ≡ false → Reach f → IsCurrent f
  Reach-IsCurrent f start starts = inl (refl, inr (refl, ground (arith, start)))
  Reach-IsCurrent _ start (goes f g r s) = Step-IsCurrent f g s (Reach-IsCurrent f start r)

  shows_expected :
      (f : Field A) → IsCurrent f → f.pending ≡ [] → f.is_armed ≡ false → f.shown ≡ expected f.text
  shows_expected f (inl (free, inl (armed, asked))) p q = ground (arith, armed, q)
  shows_expected f (inl (free, inr (idle, shows))) p q = shows
  shows_expected f (inr (one, idle, asked)) p q = absurd (cons-in-nil [] [] f.text (sym one ∙ p))

  -- of a field that does not ask for the empty text, after any sequence of changes that are not made
  -- while a request is under way, expiries of the timer and answers that depend on the text alone:
  -- when nothing is under way and no timer is set, the field shows the answer to its text, or nothing
  -- if the text is not asked for or the request failed.
  pub Reach-Shows :
      (f : Field A)
      → asks "" ≡ false
      → Reach f
      → f.pending ≡ []
      → f.is_armed ≡ false
      → f.shown ≡ expected f.text
  Reach-Shows f start r = shows_expected f (Reach-IsCurrent f start r)
