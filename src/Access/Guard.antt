-- ===== src/Access/Guard.antt =====
-- oragami-backend/src/common/guards/admin-api-key.guard.ts: what lets a request through.
use oragami.Prelude.{String, Bool, false, Option, none, some, List, [], ◌∷◌, ◌==◌, string_eq}
use oragami.Six.Service.{truthy}

-- The header `x-admin-api-key`: absent, a text, or several.
pub data Header : Type 0 where
  absent : Header
  one : String → Header
  several : List String → Header

abbrev pub key_of : Header → Option String
key_of absent = none
key_of (one key) = truthy (some key)
key_of (several []) = none
key_of (several (key ∷ keys)) = truthy (some key)

-- `expected` is the setting ADMIN_API_KEY; an UnauthorizedException where it is `false`.
unfoldable pub can_activate : Option String → Header → Bool
can_activate expected header = elim (truthy expected) [
  | none ↦ false
  | some wanted ↦ elim (key_of header) [ none ↦ false | some key ↦ key == wanted ]
]
