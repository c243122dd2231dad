-- ===== src/AssetVault/SetupTwice.antt =====
-- What the setup script leaves when it is run twice.
use oragami.Prelude.{
  ℕ, ◌≡◌, refl, ◌∙◌, inl, inr, String, true, ◌∷◌, arith, string_eq, Option-cases, Bool-cases,
}
use oragami.Prelude.Results.{Result, ok, err, Action, ◌>>=◌, ◌>>◌}
use oragami.AssetVault.Attempt.{Attempt, done, fails}
use oragami.AssetVault.Factory.{World, initialize_factory, issue_credential}
use oragami.AssetVault.Setup.{
  Account, factory_account, vault_account, credential_account, SetupEnv, Devnet, Delivery, exists,
  executed, delivered, ensure, register, demo_credential, registration, deploy, lost, answered,
  unconfirmed, airdrop,
}
use oragami.AssetVault.SetupLaws.{
  Makes, Keeps, initialize-Makes, initialize-Keeps, register_asset-Makes, register_asset-Keeps,
  issue-Makes, issue-Keeps,
}

-- Inversion of a chain that succeeds.
then-eq-ok :
    {S A B : Type 0} (r : Result A × S) (f : A → Action S B) (u : S) (b : B)
    → (elim r.0 [ ok a ↦ f a r.1 | err e ↦ (err e, r.1) ]) ≡ (ok b, u)
    → (a : A) × (t : S) × ((r ≡ (ok a, t)) × (f a t ≡ (ok b, u)))
then-eq-ok (ok a, t) f u b h = (a, t, (refl, h))
then-eq-ok (err e, t) f u b h = cc

pub >>=-eq-ok :
    {S A B : Type 0} (m : Action S A) (f : A → Action S B) (s u : S) (b : B)
    → (m >>= f) s ≡ (ok b, u)
    → (a : A) × (t : S) × ((m s ≡ (ok a, t)) × (f a t ≡ (ok b, u)))
>>=-eq-ok m f s u b h = then-eq-ok (m s) f u b h

-- A transaction that is answered was taken.
executed-eq-ok :
    (m : Attempt World) (s t : Devnet)
    → executed m s ≡ (ok tt, t)
    → (w : World) × ((m ≡ done w) × (t ≡ record s { world = w }))
executed-eq-ok (done w) s t h = (w, (refl, ground arith))
executed-eq-ok (fails e) s t h = cc

pub delivered-eq-ok :
    (d : Delivery) (f : World → Attempt World) (s t : Devnet)
    → delivered d f s ≡ (ok tt, t)
    → (w : World) × ((f s.world ≡ done w) × (t ≡ record s { world = w }))
delivered-eq-ok answered f s t h = executed-eq-ok (f s.world) s t h
delivered-eq-ok lost f s t h = cc
delivered-eq-ok unconfirmed f s t h = cc

-- No account has gone, and the file of the manifest is as it was.
abbrev Grown : Devnet → Devnet → Type 0
Grown s t =
    ((b : Account) → exists b s.world ≡ true → exists b t.world ≡ true) × (t.manifest ≡ s.manifest)

Grown-trans : (s t u : Devnet) → Grown s t → Grown t u → Grown s u
Grown-trans s t u (g, m) (g', m') = (λ b there. g' b (g b there), m' ∙ m)

module _ (env : SetupEnv) where
  ensure-eq-ok :
      (a : Account) (f : World → Attempt World) (s t : Devnet)
      → Makes a f
      → Keeps f
      → ensure env a f s ≡ (ok tt, t)
      → (exists a t.world ≡ true) × Grown s t
  unfolding ensure
  ensure-eq-ok a f s t makes keeps h = elim (Bool-cases (exists a s.world)) [
    | inl there ↦ let same : t ≡ s = ground (arith, there) in rw same (there, ((λ b q. q), refl))
    | inr missing ↦
        let (w, (took, same)) = delivered-eq-ok (env.sent a) f s t (ground (arith, missing)) in
        rw same (makes s.world w took, ((λ b q. keeps b s.world w q took), refl))
  ]

  -- A step whose account is there does nothing.
  ensure-skips :
      (a : Account) (f : World → Attempt World) (s : Devnet)
      → env.reached a ≡ true
      → exists a s.world ≡ true
      → ensure env a f s ≡ (ok tt, s)
  unfolding ensure
  ensure-skips a f s reached there = ground (arith, reached, there)

  register-Makes : (mint ticker : String) → Makes (vault_account mint) (register env mint ticker)
  register-Makes mint ticker w w' h = elim (Option-cases env.fifth_argument) [
    | inl p ↦ absurd (ground (arith, p))
    | inr (b, p) ↦
        register_asset-Makes env.authority (registration env mint ticker b) w w' (ground (arith, p))
  ]

  register-Keeps : (mint ticker : String) → Keeps (register env mint ticker)
  register-Keeps mint ticker b w w' there h = elim (Option-cases env.fifth_argument) [
    | inl p ↦ absurd (ground (arith, p))
    | inr (r, p) ↦
        register_asset-Keeps env.authority (registration env mint ticker r) b w w' there
          (ground (arith, p))
  ]

  airdrop-Grown :
      (mint : String) (amount : ℕ) (s t : Devnet)
      → airdrop env mint amount s ≡ (ok tt, t)
      → Grown s t
  airdrop-Grown mint amount s t h =
      let same : t ≡ record s { minted = (mint, amount) ∷ s.minted } = ground arith in
      rw same ((λ b q. q), refl)

  -- The accounts of a deployment with these mints.
  abbrev pub IsDeployed : String → String → World → Type 0
  IsDeployed gold silver w =
      (exists factory_account w ≡ true)
      × (exists (vault_account gold) w ≡ true)
      × (exists (vault_account silver) w ≡ true)
      × (exists (credential_account env.authority) w ≡ true)

  -- The script from its steps on.
  abbrev pub from_credential : Action Devnet (Unit {0})
  from_credential =
      ensure env (credential_account env.authority)
        (issue_credential env.authority (demo_credential env))

  abbrev pub from_silver : String → String → Action Devnet (Unit {0})
  from_silver gold silver = airdrop env silver 10000000000 >> from_credential

  abbrev pub from_gold : String → String → Action Devnet (Unit {0})
  from_gold gold silver = airdrop env gold 10000000000 >> from_silver gold silver

  abbrev pub from_silver_vault : String → String → Action Devnet (Unit {0})
  from_silver_vault gold silver =
      ensure env (vault_account silver) (register env silver "SILVER\0\0") >> from_gold gold silver

  abbrev pub from_gold_vault : String → String → Action Devnet (Unit {0})
  from_gold_vault gold silver =
      ensure env (vault_account gold) (register env gold "GOLD\0\0\0\0")
      >> from_silver_vault gold silver

  pub deploy-IsDeployed :
      (gold silver : String) (s t : Devnet)
      → deploy env gold silver s ≡ (ok tt, t)
      → IsDeployed gold silver t.world × (t.manifest ≡ s.manifest)
  unfolding deploy
  deploy-IsDeployed gold silver s t h =
      let (_, s1, (h1, k1)) =
        >>=-eq-ok (ensure env factory_account (initialize_factory env.authority 10))
          (λ x. from_gold_vault gold silver) s t tt h in
      let (_, s2, (h2, k2)) =
        >>=-eq-ok (ensure env (vault_account gold) (register env gold "GOLD\0\0\0\0"))
          (λ x. from_silver_vault gold silver) s1 t tt k1 in
      let (_, s3, (h3, k3)) =
        >>=-eq-ok (ensure env (vault_account silver) (register env silver "SILVER\0\0"))
          (λ x. from_gold gold silver) s2 t tt k2 in
      let (_, s4, (h4, k4)) =
        >>=-eq-ok (airdrop env gold 10000000000) (λ x. from_silver gold silver) s3 t tt k3 in
      let (_, s5, (h5, k5)) =
        >>=-eq-ok (airdrop env silver 10000000000) (λ x. from_credential) s4 t tt k4 in
      let (f, g1) =
        ensure-eq-ok factory_account (initialize_factory env.authority 10) s s1
          (initialize-Makes env.authority 10) (initialize-Keeps env.authority 10) h1 in
      let (g, g2) =
        ensure-eq-ok (vault_account gold) (register env gold "GOLD\0\0\0\0") s1 s2
          (register-Makes gold "GOLD\0\0\0\0") (register-Keeps gold "GOLD\0\0\0\0") h2 in
      let (v, g3) =
        ensure-eq-ok (vault_account silver) (register env silver "SILVER\0\0") s2 s3
          (register-Makes silver "SILVER\0\0") (register-Keeps silver "SILVER\0\0") h3 in
      let g4 = airdrop-Grown gold 10000000000 s3 s4 h4 in
      let g5 = airdrop-Grown silver 10000000000 s4 s5 h5 in
      let (c, g6) =
        ensure-eq-ok (credential_account env.authority)
          (issue_credential env.authority (demo_credential env)) s5 t
          (issue-Makes env.authority (demo_credential env))
          (issue-Keeps env.authority (demo_credential env)) k5 in
      let to4 = Grown-trans s3 s4 t g4 (Grown-trans s4 s5 t g5 g6) in
      let to3 = Grown-trans s2 s3 t g3 to4 in
      let to2 = Grown-trans s1 s2 t g2 to3 in
      (
        (to2.0 factory_account f, to3.0 (vault_account gold) g, to4.0 (vault_account silver) v, c),
        (Grown-trans s s1 t g1 to2).1,
      )

  -- The devnet after both airdrops.
  abbrev pub airdropped : String → String → Devnet → Devnet
  airdropped gold silver s = record s {
    minted = (silver, 10000000000) ∷ (gold, 10000000000) ∷ s.minted;
  }

  pub deploy-again :
      (gold silver : String) (s : Devnet)
      → ((a : Account) → env.reached a ≡ true)
      → env.is_minted gold ≡ true
      → env.is_minted silver ≡ true
      → IsDeployed gold silver s.world
      → deploy env gold silver s ≡ (ok tt, airdropped gold silver s)
  unfolding deploy
  deploy-again gold silver s reached minted minted' (f, g, v, c) = ground (
    arith,
    minted,
    minted',
    ensure-skips factory_account (initialize_factory env.authority 10) s (reached factory_account)
        f,
    ensure-skips (vault_account gold) (register env gold "GOLD\0\0\0\0") s
        (reached (vault_account gold)) g,
    ensure-skips (vault_account silver) (register env silver "SILVER\0\0") s
        (reached (vault_account silver)) v,
    ensure-skips (credential_account env.authority)
        (issue_credential env.authority (demo_credential env)) (airdropped gold silver s)
        (reached (credential_account env.authority)) c,
  )
