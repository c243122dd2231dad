-- ===== src/Deposits/IndexLaws.antt =====
-- What `index` of oragami-backend/src/deposits/deposits.service.ts leaves in the database.
use oragami.Prelude.{
  ℕ, String, ◌≡◌, ◌≢◌, ◌⊎◌, string_eq, eq_iff, sym, ap, ◌∙◌, inl, inr, refl, true, false, Option,
  some, List, ◌∷◌, arith, Option-cases, ◌otherwise◌,
}
use oragami.TravelRule.Service.{SubmitTravelRuleDto, TravelServices, Submitted, submit, new_row}
use oragami.TravelRule.Laws.{submit-Adds}
use oragami.Prelude.Int.{pos}
use oragami.Prelude.Results.{Error, Result, ok, err}
use oragami.Database.{Db, Institution, Deposit, TravelRule, find_by_wallet}
use oragami.Database.Tables.{deposit_taken, create_deposit}
use oragami.Crank.Service.{VaultAccount}
use oragami.Deposits.Index.{
  IndexDepositDto, Transaction, IndexText, index, confirmed, travel_rule_id,
}

module _ (texts : IndexText) (now : ℕ) (id : String) (transaction : Transaction)
    (vault : Option VaultAccount) (dto : IndexDepositDto) (db db' : Db ℕ) where
  -- Indexing that fails leaves the database as it was.
  pub index_error :
      (e : Error) → index texts now id transaction vault dto db ≡ (err e, db') → db' ≡ db
  unfolding index create_deposit
  index_error e h = ground arith

  -- One deposit was added in front, for the institution of the wallet and with the amounts of the
  -- request, whose signature and nonce no deposit had.
  abbrev pub Indexes : Institution → Deposit → Type 0
  Indexes i d =
      (transaction ≡ confirmed)
      × (find_by_wallet dto.wallet db.institutions ≡ some i)
      × (d.tx_signature ≡ dto.tx_signature)
      × (d.nonce ≡ dto.nonce)
      × (d.institution_id ≡ i.id)
      × (texts.big_int dto.usdc_amount ≡ some d.usdc_amount)
      × (texts.big_int dto.cvault_amount ≡ some d.cvault_amount)
      × (d.travel_rule_id ≡ travel_rule_id texts dto db)
      × (deposit_taken d db.deposits ≡ false)
      × (db'.deposits ≡ d ∷ db.deposits)
      × (db'.travel_rules ≡ db.travel_rules)
      × (db'.institutions ≡ db.institutions)

  -- Indexing that succeeds had a confirmed transaction, and has added one deposit in front, for
  -- the institution of the wallet and with the amounts, the signature, the nonce and the travel
  -- rule of the request; no deposit had that signature or nonce, and institutions and travel
  -- rules stay.
  pub index-Indexes :
      (r : String)
      → index texts now id transaction vault dto db ≡ (ok r, db')
      → (i : Institution) × (d : Deposit) × Indexes i d
  unfolding index create_deposit
  index-Indexes r h = elim (Option-cases (find_by_wallet dto.wallet db.institutions)) [
    | inl f ↦ absurd (ground arith)
    | inr (i, f) ↦ elim (Option-cases (texts.big_int dto.usdc_amount)) [
      | inl u ↦ absurd (ground arith)
      | inr (usdc, u) ↦ elim (Option-cases (texts.big_int dto.cvault_amount)) [
        | inl c ↦ absurd (ground arith)
        | inr (cvault, c) ↦ elim (Option-cases vault) [
          | inl v ↦ absurd (ground arith)
          | inr (vs, v) ↦ (
            i,
            record {
              id = id;
              tx_signature = dto.tx_signature;
              institution_id = i.id;
              usdc_amount = usdc;
              cvault_amount = cvault;
              nav_at_deposit = pos (vs.nav_price_bps otherwise 0);
              nonce = dto.nonce;
              travel_rule_id = travel_rule_id texts dto db;
              timestamp = now;
            },
            ground arith,
          )
        ]
      ]
    ]
  ]

-- What may happen to the database after a request: further requests to index, whether they succeed
-- or not, and all else, none of which touches the deposits.
pub data Later (texts : IndexText) (db : Db ℕ) : Db ℕ → Type 0 where
  at_once : Later texts db db
  indexes :
      (now : ℕ) (id : String) (transaction : Transaction) (vault : Option VaultAccount)
      (dto : IndexDepositDto) (m : Db ℕ)
      → Later texts db m
      → Later texts db (index texts now id transaction vault dto m).1
  others : (m n : Db ℕ) → Later texts db m → n.deposits ≡ m.deposits → Later texts db n

answer-cases :
    (a : Result String × Db ℕ)
    → ((r : String) × (n : Db ℕ) × (a ≡ (ok r, n))) ⊎ ((e : Error) × (n : Db ℕ) × (a ≡ (err e, n)))
answer-cases (ok r, n) = inl (r, n, refl)
answer-cases (err e, n) = inr (e, n, refl)

deposit_taken-index :
    (texts : IndexText) (now : ℕ) (id : String) (transaction : Transaction)
    (vault : Option VaultAccount) (dto : IndexDepositDto) (m : Db ℕ) (e : Deposit)
    → deposit_taken e m.deposits ≡ true
    → deposit_taken e (index texts now id transaction vault dto m).1.deposits ≡ true
deposit_taken-index texts now id transaction vault dto m e h =
    elim (answer-cases (index texts now id transaction vault dto m)) [
      | inl (r, n, p) ↦
          let (i, d, a) = index-Indexes texts now id transaction vault dto m n r p in
          ground (arith, h, p, a.9)
      | inr (r, n, p) ↦
          let same = index_error texts now id transaction vault dto m n r p in
          ground (arith, h, p, same)
    ]

-- A signature or a nonce that is taken stays so.
deposit_taken-Later :
    (texts : IndexText) (db db' : Db ℕ) (e : Deposit)
    → Later texts db db'
    → deposit_taken e db.deposits ≡ true
    → deposit_taken e db'.deposits ≡ true
deposit_taken-Later texts db db' e at_once h = h
deposit_taken-Later texts db db' e (indexes now id transaction vault dto m before) h =
    deposit_taken-index texts now id transaction vault dto m e
      (deposit_taken-Later texts db m e before h)
deposit_taken-Later texts db db' e (others m n before kept) h =
    rw kept (deposit_taken-Later texts db m e before h)

-- A transaction is indexed once: after a deposit was indexed, in any state that further requests to
-- index and changes that leave the deposits lead to, a request with its transaction signature or with
-- its nonce does not succeed, at any time and whatever else it says.
pub index_once :
    (texts : IndexText) (now later : ℕ) (id new_id : String) (transaction again : Transaction)
    (vault seen : Option VaultAccount) (dto other : IndexDepositDto) (db db' m db'' : Db ℕ)
    (r k : String)
    → index texts now id transaction vault dto db ≡ (ok r, db')
    → Later texts db' m
    → (other.tx_signature ≡ dto.tx_signature) ⊎ (other.nonce ≡ dto.nonce)
    → index texts later new_id again seen other m ≢ (ok k, db'')
index_once texts now later id new_id transaction again vault seen dto other db db' m db'' r k first
      between same second =
    let (i, d, a) = index-Indexes texts now id transaction vault dto db db' r first in
    let (j, e, b) = index-Indexes texts later new_id again seen other m db'' k second in
    let newest : deposit_taken e (d ∷ db.deposits) ≡ true = ground (
      arith,
      eq_iff d.tx_signature e.tx_signature,
      eq_iff d.nonce e.nonce,
      same,
      a.2,
      a.3,
      b.2,
      b.3,
    ) in
    let taken : deposit_taken e db'.deposits ≡ true = rw a.9 newest in
    let still = deposit_taken-Later texts db' m e between taken in ground (arith, still, b.8)

-- The newest rule is the one that is linked, where the deposit names its hash.
linked_id :
    (texts : IndexText) (dto : IndexDepositDto) (hash : String) (t : TravelRule)
    (ts : List TravelRule) (db : Db ℕ)
    → dto.travel_rule_nonce_hash ≡ some hash
    → texts.size hash ≡ 64
    → t.nonce_hash ≡ texts.lower hash
    → db.travel_rules ≡ t ∷ ts
    → travel_rule_id texts dto db ≡ some t.id
unfolding travel_rule_id
linked_id texts dto hash t ts db named size same rules =
    ground (arith, eq_iff t.nonce_hash (texts.lower hash))

-- After a submission that succeeded, a deposit that names its nonce hash (64 characters, and
-- lower case for both services alike) is linked to the row of that submission.
pub travel_rule_id-submit :
    (services : TravelServices) (texts : IndexText) (now : ℕ) (id : String) (nonce : List ℕ)
    (rule : SubmitTravelRuleDto) (r : Submitted) (dto : IndexDepositDto) (db db' : Db ℕ)
    → submit services now id nonce rule db ≡ (ok r, db')
    → dto.travel_rule_nonce_hash ≡ some r.nonce_hash
    → texts.size r.nonce_hash ≡ 64
    → texts.lower r.nonce_hash ≡ services.lower r.nonce_hash
    → travel_rule_id texts dto db' ≡ some id
unfolding travel_rule_id new_row
travel_rule_id-submit services texts now id nonce rule r dto db db' done named size lower =
    let (i, amount, a) = submit-Adds services now id nonce rule db db' r done in
    linked_id texts dto r.nonce_hash (new_row services now id nonce rule i amount) db.travel_rules
      db' named size (ap services.lower (sym a.3) ∙ sym lower) (ap (λ d. d.travel_rules) a.6)
