-- ===== src/Crank/PriceComplete.antt =====
-- `walkForPrice` misses nothing: against a plain description of the numbers in a value.
use oragami.Prelude.{
  String, ◌≡◌, refl, sym, ap, ◌∙◌, ◌⊎◌, inl, inr, Bool, true, false, ◌&&◌, ◌||◌, Option, none, some,
  is_some, if◌then◌else◌, ◌==◌, string_eq, ◌<|>◌, arith, eq_iff,
}
use mathlib.Core.Path.{subst, ap₂}
use oragami.Js.Floats.{Floats}
use oragami.Js.Json.{Json, Items, Fields, has_key, HasDistinctKeys, DistinctItems, DistinctFields}
use oragami.Crank.Price.{is_reserved, walk_for_price, walk_items, walk_key, walk_rest}

is_some-<|> : {A : Type 0} (a b : Option A) → is_some (a <|> b) ≡ (is_some a || is_some b)
is_some-<|> none b = refl
is_some-<|> (some x) b = refl

is_some-chain :
    {A : Type 0} (a b c d e f g : Option A)
    → is_some (a <|> b <|> c <|> d <|> e <|> f <|> g) ≡ (
        is_some a
        || (is_some b || (is_some c || (is_some d || (is_some e || (is_some f || is_some g))))))
is_some-chain a b c d e f g = simp is_some-<|>

-- A test deeper in a disjunction may be made first.
or_swap : (a w r : Bool) → (a || (w || r)) ≡ (w || (a || r))
or_swap true true r = refl
or_swap true false r = refl
or_swap false w r = refl

or_pull2 : (a b w r : Bool) → (a || (b || (w || r))) ≡ (w || (a || (b || r)))
or_pull2 a b w r = ap (◌||◌ a) (or_swap b w r) ∙ or_swap a w (b || r)

or_pull3 : (a b c w r : Bool) → (a || (b || (c || (w || r)))) ≡ (w || (a || (b || (c || r))))
or_pull3 a b c w r = ap (◌||◌ a) (or_pull2 b c w r) ∙ or_swap a w (b || (c || r))

or_pull4 :
    (a b c d w r : Bool)
    → (a || (b || (c || (d || (w || r))))) ≡ (w || (a || (b || (c || (d || r)))))
or_pull4 a b c d w r = ap (◌||◌ a) (or_pull3 b c d w r) ∙ or_swap a w (b || (c || (d || r)))

or_pull5 :
    (a b c d e w r : Bool)
    → (a || (b || (c || (d || (e || (w || r)))))) ≡ (w || (a || (b || (c || (d || (e || r))))))
or_pull5 a b c d e w r =
    ap (◌||◌ a) (or_pull4 b c d e w r) ∙ or_swap a w (b || (c || (d || (e || r))))

or_pull6 :
    (a b c d e f w r : Bool)
    → (a || (b || (c || (d || (e || (f || (w || r)))))))
      ≡ (w || (a || (b || (c || (d || (e || (f || r)))))))
or_pull6 a b c d e f w r =
    ap (◌||◌ a) (or_pull5 b c d e f w r) ∙ or_swap a w (b || (c || (d || (e || (f || r)))))

module _ (fl : Floats) where
  open fl use {Float, is_finite, gt_zero}

  -- Somewhere in the value stands a finite positive number.
  unfoldable mutual
    pub has_price : Json Float → Bool
    has_price (Json.num x) = is_finite x && gt_zero x
    has_price (Json.arr xs) = has_price_items xs
    has_price (Json.obj fs) = has_price_fields fs
    has_price _ = false

    pub has_price_items : Items Float → Bool
    has_price_items Items.nil = false
    has_price_items (Items.cons x xs) = has_price x || has_price_items xs

    pub has_price_fields : Fields Float → Bool
    has_price_fields Fields.end = false
    has_price_fields (Fields.field k v fs) = has_price v || has_price_fields fs

  -- How an object's search splits at its first property.
  abbrev at_key : Fields Float → String → Bool
  at_key fs key = is_some (walk_key fl fs key)

  abbrev found : Fields Float → Bool
  found fs =
      at_key fs "value"
      || (at_key fs "lastPrice"
          || (at_key fs "price"
              || (at_key fs "last"
                  || (at_key fs "close"
                      || (at_key fs "intradaySnapshot" || is_some (walk_rest fl fs))))))

  -- The clauses of the search as equations.
  walk_key_field :
      (k : String) (v : Json Float) (fs : Fields Float) (key : String)
      → walk_key fl (Fields.field k v fs) key
        ≡ (if k == key then walk_for_price fl v else walk_key fl fs key)
  unfolding walk_for_price
  walk_key_field k v fs key = refl

  walk_rest_field :
      (k : String) (v : Json Float) (fs : Fields Float)
      → walk_rest fl (Fields.field k v fs)
        ≡ (if is_reserved k then walk_rest fl fs else walk_for_price fl v <|> walk_rest fl fs)
  unfolding walk_for_price
  walk_rest_field k v fs = refl

  is_some-walk_obj : (fs : Fields Float) → is_some (walk_for_price fl (Json.obj fs)) ≡ found fs
  unfolding walk_for_price
  is_some-walk_obj fs =
      is_some-chain (walk_key fl fs "value") (walk_key fl fs "lastPrice") (walk_key fl fs "price")
        (walk_key fl fs "last") (walk_key fl fs "close") (walk_key fl fs "intradaySnapshot")
        (walk_rest fl fs)

  walk_key_absent :
      (fs : Fields Float) (key : String) → has_key key fs ≡ false → walk_key fl fs key ≡ none
  unfolding walk_for_price
  walk_key_absent Fields.end key h = refl
  walk_key_absent (Fields.field k v fs) key h = ground (arith, walk_key_absent fs key)

  abbrev Splits : Json Float → Fields Float → String → Type 0
  Splits v fs k =
      has_key k fs ≡ false
      → found (Fields.field k v fs) ≡ (is_some (walk_for_price fl v) || found fs)

  -- The key is one of the six, or none of them.
  reserved_cases :
      (k : String)
      → (k ≡ "value")
        ⊎ (k ≡ "lastPrice")
        ⊎ (k ≡ "price")
        ⊎ (k ≡ "last")
        ⊎ (k ≡ "close")
        ⊎ (k ≡ "intradaySnapshot")
        ⊎ (is_reserved k ≡ false)
  reserved_cases k = ground (
    arith,
    eq_iff k "value",
    eq_iff k "lastPrice",
    eq_iff k "price",
    eq_iff k "last",
    eq_iff k "close",
    eq_iff k "intradaySnapshot",
  )

  -- A key outside the six passes all six tests.
  reserved_tests :
      (k : String)
      → is_reserved k ≡ false
      → ((k == "value") ≡ false)
        × ((k == "lastPrice") ≡ false)
        × ((k == "price") ≡ false)
        × ((k == "last") ≡ false)
        × ((k == "close") ≡ false)
        × ((k == "intradaySnapshot") ≡ false)
  reserved_tests k h = ground arith

  found-field_other :
      (k : String) (v : Json Float) (fs : Fields Float)
      → is_reserved k ≡ false
      → found (Fields.field k v fs) ≡ (is_some (walk_for_price fl v) || found fs)
  found-field_other k v fs u =
      let (a, b, c, d, e, f) = reserved_tests k u in
      simp (walk_key_field, walk_rest_field, is_some-<|>, a, b, c, d, e, f)
        (or_pull6 (at_key fs "value") (at_key fs "lastPrice") (at_key fs "price") (at_key fs "last")
          (at_key fs "close") (at_key fs "intradaySnapshot") (is_some (walk_for_price fl v))
          (is_some (walk_rest fl fs)))

  found-field : (k : String) (v : Json Float) (fs : Fields Float) → Splits v fs k
  found-field k v fs = elim (reserved_cases k) [
    | inl e ↦
        subst (Splits v fs) (sym e)
          λ h. simp (walk_key_field, walk_rest_field, walk_key_absent fs "value" h)
    | inr (inl e) ↦ subst (Splits v fs) (sym e) λ h.
        simp (walk_key_field, walk_rest_field, walk_key_absent fs "lastPrice" h)
          (or_swap (at_key fs "value") (is_some (walk_for_price fl v)) (
            at_key fs "price"
            || (at_key fs "last"
                || (at_key fs "close"
                    || (at_key fs "intradaySnapshot" || (is_some (walk_rest fl fs)))))))
    | inr (inr (inl e)) ↦ subst (Splits v fs) (sym e) λ h.
        simp (walk_key_field, walk_rest_field, walk_key_absent fs "price" h)
          (or_pull2 (at_key fs "value") (at_key fs "lastPrice") (is_some (walk_for_price fl v)) (
            at_key fs "last"
            || (at_key fs "close"
                || (at_key fs "intradaySnapshot" || (is_some (walk_rest fl fs))))))
    | inr (inr (inr (inl e))) ↦ subst (Splits v fs) (sym e) λ h.
        simp (walk_key_field, walk_rest_field, walk_key_absent fs "last" h)
          (or_pull3 (at_key fs "value") (at_key fs "lastPrice") (at_key fs "price")
            (is_some (walk_for_price fl v))
            (at_key fs "close" || (at_key fs "intradaySnapshot" || (is_some (walk_rest fl fs)))))
    | inr (inr (inr (inr (inl e)))) ↦ subst (Splits v fs) (sym e) λ h.
        simp (walk_key_field, walk_rest_field, walk_key_absent fs "close" h)
          (or_pull4 (at_key fs "value") (at_key fs "lastPrice") (at_key fs "price")
            (at_key fs "last") (is_some (walk_for_price fl v))
            (at_key fs "intradaySnapshot" || (is_some (walk_rest fl fs))))
    | inr (inr (inr (inr (inr (inl e))))) ↦ subst (Splits v fs) (sym e) λ h.
        simp (walk_key_field, walk_rest_field, walk_key_absent fs "intradaySnapshot" h)
          (or_pull5 (at_key fs "value") (at_key fs "lastPrice") (at_key fs "price")
            (at_key fs "last") (at_key fs "close") (is_some (walk_for_price fl v))
            (is_some (walk_rest fl fs)))
    | inr (inr (inr (inr (inr (inr u))))) ↦ λ h. found-field_other k v fs u
  ]

  mutual
    unfolding walk_for_price has_price HasDistinctKeys

    walk-has_price :
        (v : Json Float) → HasDistinctKeys v → is_some (walk_for_price fl v) ≡ has_price v
    walk-has_price Json.null h = refl
    walk-has_price (Json.bool b) h = refl
    walk-has_price (Json.num x) h = ground arith
    walk-has_price (Json.str s) h = refl
    walk-has_price (Json.arr xs) h = items-has_price xs h
    walk-has_price (Json.obj fs) h = is_some-walk_obj fs ∙ fields-has_price fs h

    items-has_price :
        (xs : Items Float) → DistinctItems xs → is_some (walk_items fl xs) ≡ has_price_items xs
    items-has_price Items.nil h = refl
    items-has_price (Items.cons x xs) h =
        simp (is_some-<|>, walk-has_price x h.0, items-has_price xs h.1)

    fields-has_price : (fs : Fields Float) → DistinctFields fs → found fs ≡ has_price_fields fs
    fields-has_price Fields.end h = refl
    fields-has_price (Fields.field k v fs) h =
        found-field k v fs h.0 ∙ ap₂ ◌||◌ (walk-has_price v h.1) (fields-has_price fs h.2)

  -- In a value whose objects have different keys a price is found exactly when somewhere in the
  -- value stands a finite positive number.
  pub walk_for_price-iff-has_price :
      (v : Json Float) → HasDistinctKeys v → is_some (walk_for_price fl v) ≡ has_price v
  walk_for_price-iff-has_price = walk-has_price
