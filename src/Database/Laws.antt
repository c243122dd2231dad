-- ===== src/Database/Laws.antt =====
-- Finding rows after writes.
use mathlib.Core.Option
use oragami.Prelude.{
  String, ◌≡◌, true, none, some, List, [], ◌∷◌, arith, if◌then◌else◌, ◌==◌, string_eq, eq_iff,
  Bool-cases, inl, inr,
}
use oragami.Database.Tables.{Institution, find_by_wallet, upsert, update_many}

-- The row of a wallet after an upsert for a wallet.
pub find_by_wallet-upsert :
    (w wallet : String) (f : Institution → Institution) (row : Institution) (is : List Institution)
    → ((i : Institution) → (f i).wallet_address ≡ i.wallet_address)
    → row.wallet_address ≡ wallet
    → find_by_wallet w (upsert wallet f row is) ≡ (
        if wallet == w
        then some (elim (find_by_wallet wallet is) [ none ↦ row | some i ↦ f i ])
        else find_by_wallet w is)
find_by_wallet-upsert w wallet f row [] keep own =
    ground (arith, eq_iff row.wallet_address w, eq_iff wallet w)
find_by_wallet-upsert w wallet f row (i ∷ is) keep own = ground (
  arith,
  keep i,
  eq_iff i.wallet_address wallet,
  eq_iff i.wallet_address w,
  eq_iff (f i).wallet_address w,
  eq_iff wallet w,
  find_by_wallet-upsert w wallet f row is keep own,
)

-- The row of a wallet after a change of all rows of a wallet.
pub find_by_wallet-update_many :
    (w wallet : String) (f : Institution → Institution) (is : List Institution)
    → ((i : Institution) → (f i).wallet_address ≡ i.wallet_address)
    → find_by_wallet w (update_many wallet f is)
      ≡ (if wallet == w then Option.map f (find_by_wallet w is) else find_by_wallet w is)
find_by_wallet-update_many w wallet f [] keep = ground arith
find_by_wallet-update_many w wallet f (i ∷ is) keep = ground (
  arith,
  keep i,
  eq_iff i.wallet_address wallet,
  eq_iff i.wallet_address w,
  eq_iff (f i).wallet_address w,
  eq_iff wallet w,
  find_by_wallet-update_many w wallet f is keep,
)

-- A row that is found by a wallet has that wallet.
pub find_by_wallet-wallet :
    (w : String) (is : List Institution) (i : Institution)
    → find_by_wallet w is ≡ some i
    → i.wallet_address ≡ w
find_by_wallet-wallet w [] i h = ground arith
find_by_wallet-wallet w (j ∷ is) i h = elim (Bool-cases (j.wallet_address == w)) [
  | inl same ↦ ground (arith, eq_iff j.wallet_address w)
  | inr other ↦ find_by_wallet-wallet w is i (ground arith)
]

pub string_same : (s : String) → (s == s) ≡ true
string_same s = ground (arith, eq_iff s s)
