-- ===== src/Crank/Price.antt =====
-- oragami-backend/src/crank/nav-crank.service.ts: `walkForPrice` and `extractPrice`.
use oragami.Prelude.{
  String, Bool, ◌&&◌, ◌||◌, Option, none, some, if◌then◌else◌, ◌==◌, string_eq, ◌<|>◌,
}
use oragami.Js.Floats.{Floats}
use oragami.Js.Json.{Json, Items, Fields}

-- The keys that are looked at before the others.
abbrev pub is_reserved : String → Bool
is_reserved k =
    k == "intradaySnapshot"
    || k == "value"
    || k == "lastPrice"
    || k == "price"
    || k == "last"
    || k == "close"

module _ (fl : Floats) where
  open fl use {Float, is_finite, gt_zero}

  abbrev pub price_of : Float → Option Float
  price_of x = if is_finite x && gt_zero x then some x else none

  unfoldable mutual
    pub walk_for_price : Json Float → Option Float
    walk_for_price (Json.num x) = price_of x
    walk_for_price (Json.arr xs) = walk_items xs
    walk_for_price (Json.obj fs) =
        walk_key fs "value"
        <|> walk_key fs "lastPrice"
        <|> walk_key fs "price"
        <|> walk_key fs "last"
        <|> walk_key fs "close"
        <|> walk_key fs "intradaySnapshot"
        <|> walk_rest fs
    walk_for_price _ = none

    pub walk_items : Items Float → Option Float
    walk_items Items.nil = none
    walk_items (Items.cons x xs) = walk_for_price x <|> walk_items xs

    -- `if (key in obj) …`
    pub walk_key : Fields Float → String → Option Float
    walk_key Fields.end key = none
    walk_key (Fields.field k v fs) key = if k == key then walk_for_price v else walk_key fs key

    -- The loop over `Object.entries`.
    pub walk_rest : Fields Float → Option Float
    walk_rest Fields.end = none
    walk_rest (Fields.field k v fs) =
        if is_reserved k then walk_rest fs else walk_for_price v <|> walk_rest fs

  -- Only an object or an array is searched.
  unfoldable pub extract_price : Json Float → Option Float
  extract_price (Json.arr xs) = walk_for_price (Json.arr xs)
  extract_price (Json.obj fs) = walk_for_price (Json.obj fs)
  extract_price _ = none
