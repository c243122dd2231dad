-- ===== src/Crank/PriceLaws.antt =====
-- What `walkForPrice` finds, against a plain description of the numbers in a value.
use oragami.Prelude.{
  String, Bool, true, false, Option, none, some, if◌then◌else◌, ◌==◌, string_eq, ◌<|>◌, arith,
}
use oragami.Js.Floats.{Floats, IsPrice}
use oragami.Js.Json.{Json, Items, Fields}
use oragami.Crank.Price.{
  is_reserved, walk_for_price, walk_items, walk_key, walk_rest, extract_price,
}

-- All that an optional price satisfies.
module _ (fl : Floats) where
  open fl use {Float, is_finite, gt_zero}

  abbrev pub OnlyPrice : Option Float → Type 0
  OnlyPrice none = Unit
  OnlyPrice (some x) = IsPrice fl x

  pub or_else-OnlyPrice : (a b : Option Float) → OnlyPrice a → OnlyPrice b → OnlyPrice (a <|> b)
  or_else-OnlyPrice none b h k = k
  or_else-OnlyPrice (some a) b h k = h

  if-OnlyPrice :
      (c : Bool) (a b : Option Float) → OnlyPrice a → OnlyPrice b → OnlyPrice (if c then a else b)
  if-OnlyPrice true a b h k = h
  if-OnlyPrice false a b h k = k

  mutual
    unfolding walk_for_price

    walk-OnlyPrice : (v : Json Float) → OnlyPrice (walk_for_price fl v)
    walk-OnlyPrice Json.null = tt
    walk-OnlyPrice (Json.bool b) = tt
    walk-OnlyPrice (Json.num x) = ground arith
    walk-OnlyPrice (Json.str s) = tt
    walk-OnlyPrice (Json.arr xs) = items-OnlyPrice xs
    walk-OnlyPrice (Json.obj fs) =
        search (or_else-OnlyPrice, key-OnlyPrice fs, rest-OnlyPrice fs) depth 10

    items-OnlyPrice : (xs : Items Float) → OnlyPrice (walk_items fl xs)
    items-OnlyPrice Items.nil = tt
    items-OnlyPrice (Items.cons x xs) =
        or_else-OnlyPrice _ _ (walk-OnlyPrice x) (items-OnlyPrice xs)

    key-OnlyPrice : (fs : Fields Float) (key : String) → OnlyPrice (walk_key fl fs key)
    key-OnlyPrice Fields.end key = tt
    key-OnlyPrice (Fields.field k v fs) key =
        if-OnlyPrice (k == key) _ _ (walk-OnlyPrice v) (key-OnlyPrice fs key)

    rest-OnlyPrice : (fs : Fields Float) → OnlyPrice (walk_rest fl fs)
    rest-OnlyPrice Fields.end = tt
    rest-OnlyPrice (Fields.field k v fs) =
        if-OnlyPrice (is_reserved k) _ _ (rest-OnlyPrice fs)
          (or_else-OnlyPrice _ _ (walk-OnlyPrice v) (rest-OnlyPrice fs))

  -- Whatever SIX answers, a price that is taken from it is a finite positive number.
  pub extract_price-OnlyPrice : (v : Json Float) → OnlyPrice (extract_price fl v)
  unfolding extract_price
  extract_price-OnlyPrice (Json.arr xs) = walk-OnlyPrice (Json.arr xs)
  extract_price-OnlyPrice (Json.obj fs) = walk-OnlyPrice (Json.obj fs)
  extract_price-OnlyPrice _ = tt
