-- ===== src/Vault/QueriesLaws.antt =====
-- The sizes of the histories.
use oragami.Prelude.{
  ℕ, ◌≤◌, ◌≡◌, refl, String, Option, List, take, arith, inl, inr, Option-cases, Bool-cases, leb,
}
use oragami.Prelude.Int.{ℤ, pos, negsuc}
use oragami.Prelude.Results.{Result, ok}
use oragami.Js.Number.{Number, nan, neg_inf, pos_inf, int}
use oragami.Six.Service.{truthy}
use oragami.Database.{Db, NavSnapshot}
use oragami.Vault.Queries.{get_nav_history, limit_of, clamp_take, finite_or_hundred}

-- A finite limit is cut to 1 … 500, so the database is asked for so many rows.
abbrev pub Answered : {F : Type 0} → Db F → Result (List (NavSnapshot F)) → Type 0
Answered db answer = (n : ℕ) × ((1 ≤ n) × (n ≤ 500) × (answer ≡ ok (take n db.nav_snapshots)))

clamped : (z : ℤ) → (n : ℕ) × ((1 ≤ n) × (n ≤ 500) × (clamp_take (int z) ≡ int (pos n)))
clamped (negsuc m) = (1, (omega arith, omega arith, ground arith))
clamped (pos m) = elim (Bool-cases (leb 1 m)) [
  | inr low ↦ (1, (omega arith, omega arith, ground (arith, low)))
  | inl low ↦ elim (Bool-cases (leb m 500)) [
    | inr high ↦ (500, (omega arith, omega arith, ground (arith, low, high)))
    | inl high ↦ (m, (ground (arith, low), ground (arith, high), ground (arith, low, high)))
  ]
]

finite-int : (x : Number) → (z : ℤ) × (finite_or_hundred x ≡ int z)
finite-int nan = (pos 100, refl)
finite-int neg_inf = (pos 100, refl)
finite-int pos_inf = (pos 100, refl)
finite-int (int z) = (z, refl)

limit_of-int :
    (parse_int : String → Number) (limit : Option String)
    → (z : ℤ) × (limit_of parse_int limit ≡ int z)
unfolding limit_of
limit_of-int parse_int limit = elim (Option-cases (truthy limit)) [
  | inl e ↦ (pos 100, ground (arith, e))
  | inr (text, e) ↦ let (z, p) = finite-int (parse_int text) in (z, ground (arith, e, p))
]

-- The handler of the history answers every request: with the newest rows, between 1 and 500 of them
-- as far as there are so many.
pub get_nav_history-Answered :
    {F : Type 0} (parse_int : String → Number) (limit : Option String) (db : Db F)
    → Answered db (get_nav_history parse_int limit db)
unfolding get_nav_history
get_nav_history-Answered parse_int limit db =
    let (z, e) = limit_of-int parse_int limit in
    let (n, (low, high, c)) = clamped z in (n, (low, high, rw (e, c) refl))
