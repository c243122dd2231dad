-- ===== src/TravelRule/Laws.antt =====
-- What `submit` of oragami-backend/src/travel-rule/travel-rule.service.ts leaves in the database,
-- and what `getByNonceHash` and the indexing of a deposit then find.
use oragami.Prelude.{
  ℕ, String, ◌≡◌, refl, sym, inl, inr, false, some, List, ◌∷◌, arith, Option-cases,
}
use oragami.Prelude.Int.{ℤ, pos, ◌≤ℤ◌}
use oragami.Prelude.Results.{Error, Result, ok, err}
use oragami.Database.{Db, Institution, find_by_wallet}
use oragami.Database.Laws.{find_by_wallet-wallet, string_same}
use oragami.Database.Tables.{travel_rule_taken, create_travel_rule}
use oragami.TravelRule.Service.{
  SubmitTravelRuleDto, TravelServices, Submitted, FoundTravelRule, submit, new_row,
  get_by_nonce_hash, find_by_id,
}

module _ (services : TravelServices) (now : ℕ) (id : String) (nonce : List ℕ)
    (dto : SubmitTravelRuleDto) (db db' : Db ℕ) where
  -- A submission that fails leaves the database as it was.
  pub submit_error : (e : Error) → submit services now id nonce dto db ≡ (err e, db') → db' ≡ db
  unfolding submit create_travel_rule
  submit_error e h = ground arith

  -- One row was added, for the amount, of at least 1000 USDC, and for the institution of the wallet,
  -- with a PDA and a hash that no row had.
  abbrev pub Adds : Submitted → Institution → ℤ → Type 0
  Adds r i amount =
      let row = new_row services now id nonce dto i amount in
      (services.big_int dto.usdc_amount ≡ some amount)
      × (pos 1000000000 ≤ℤ amount)
      × (find_by_wallet dto.wallet db.institutions ≡ some i)
      × (r.nonce_hash ≡ services.to_hex (services.sha256 nonce))
      × (r.travel_rule_pda ≡ services.travel_rule_pda dto.wallet (services.sha256 nonce))
      × (travel_rule_taken row db.travel_rules ≡ false)
      × (db' ≡ record db { travel_rules = row ∷ db.travel_rules })

  -- A submission that succeeds has added one row, for the amount of the request, of at least 1000
  -- USDC, and for the institution of the wallet, with a PDA and a hash that no row had; its
  -- answer names that PDA and the hash.
  pub submit-Adds :
      (r : Submitted)
      → submit services now id nonce dto db ≡ (ok r, db')
      → (i : Institution) × (amount : ℤ) × Adds r i amount
  unfolding submit create_travel_rule
  submit-Adds r h = elim (Option-cases (services.big_int dto.usdc_amount)) [
    | inl e ↦ absurd (ground arith)
    | inr (amount, e) ↦ elim (Option-cases (find_by_wallet dto.wallet db.institutions)) [
      | inl f ↦ absurd (ground arith)
      | inr (i, f) ↦ (i, amount, ground arith)
    ]
  ]

  -- What `getByNonceHash` tells of the row that was added.
  abbrev pub Finds : Submitted → Result FoundTravelRule → Type 0
  Finds r (err e) = ⊥
  Finds r (ok f) =
      (f.institution_wallet ≡ dto.wallet)
      × (services.big_int dto.usdc_amount ≡ some f.usdc_amount)
      × (f.pda ≡ r.travel_rule_pda)
      × (f.submitted_at ≡ now)

  found_row :
      (r : Submitted) (i : Institution) (amount : ℤ)
      → Adds r i amount
      → i.wallet_address ≡ dto.wallet
      → find_by_id i.id db.institutions ≡ some i
      → Finds r (get_by_nonce_hash services r.nonce_hash db').0
  unfolding get_by_nonce_hash new_row
  found_row r i amount (parsed, large, known, hash, pda, free, added) wallet owner =
      rw
        (hash, added, string_same (services.lower (services.to_hex (services.sha256 nonce))), owner)
        (wallet, parsed, sym pda, refl)

  -- Where the ids of institutions are distinct, `getByNonceHash` finds the rule of a submission that
  -- succeeded under the hash that the submission answered with: the wallet, the amount, the PDA
  -- and the time are those that were submitted.
  pub get_by_nonce_hash-submit :
      (r : Submitted)
      → submit services now id nonce dto db ≡ (ok r, db')
      → ((i : Institution)
          → find_by_wallet dto.wallet db.institutions ≡ some i
          → find_by_id i.id db.institutions ≡ some i)
      → Finds r (get_by_nonce_hash services r.nonce_hash db').0
  unfolding get_by_nonce_hash new_row
  get_by_nonce_hash-submit r h distinct =
      let (i, amount, added) = submit-Adds r h in
      found_row r i amount added (find_by_wallet-wallet dto.wallet db.institutions i added.2)
        (distinct i added.2)
