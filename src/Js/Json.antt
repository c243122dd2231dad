-- ===== src/Js/Json.antt =====
-- The values that `JSON.parse` gives. An object is the list of its own properties in the order of
-- `Object.entries`; their keys differ.
use oragami.Prelude.{
  String, Bool, false, ◌≡◌, Option, none, some, ◌||◌, if◌then◌else◌, ◌==◌, string_eq,
}

mutual
  pub data Json (F : Type 0) : Type 0 where
    null : Json F
    bool : Bool → Json F
    num : F → Json F
    str : String → Json F
    arr : Items F → Json F
    obj : Fields F → Json F

  pub data Items (F : Type 0) : Type 0 where
    nil : Items F
    cons : Json F → Items F → Items F

  pub data Fields (F : Type 0) : Type 0 where
    end : Fields F
    field : String → Json F → Fields F → Fields F

module _ {F : Type 0} where
  -- `k in fields`
  abbrev pub has_key : String → Fields F → Bool
  has_key k end = false
  has_key k (field j v fs) = j == k || has_key k fs

  -- `fields[k]`
  abbrev pub get : String → Fields F → Option (Json F)
  get k end = none
  get k (field j v fs) = if j == k then some v else get k fs

-- Every object in the value has different keys.
unfoldable mutual
  pub HasDistinctKeys : {F : Type 0} → Json F → Type 0
  HasDistinctKeys (arr xs) = DistinctItems xs
  HasDistinctKeys (obj fs) = DistinctFields fs
  HasDistinctKeys _ = Unit

  pub DistinctItems : {F : Type 0} → Items F → Type 0
  DistinctItems nil = Unit
  DistinctItems (cons x xs) = HasDistinctKeys x × DistinctItems xs

  pub DistinctFields : {F : Type 0} → Fields F → Type 0
  DistinctFields end = Unit
  DistinctFields (field k v fs) = (has_key k fs ≡ false) × HasDistinctKeys v × DistinctFields fs
