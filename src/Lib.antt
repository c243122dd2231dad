-- ===== src/Lib.antt =====
-- Oragami: an institutional vault on Solana with a NestJS backend and a web client. This library
-- models the backend's services, the on-chain programs, and the parts of the web client that decide
-- something.
--
-- The NAV crank (oragami-backend/src/crank/nav-crank.service.ts) runs every two minutes: it asks SIX
-- (data/six.service.ts) for the price of gold and of the franc and Solstice (solana/solstice.service.ts)
-- for the price of eUSX, computes a NAV, and after three guards sends it to the on-chain program
-- (oragami-vault/programs/oragami-vault/src/lib.rs), with a snapshot, a yield tick and an audit row.
-- The services of credentials, travel rules and deposits write both to the chain and to the
-- database; the multi-asset vault service has checks of its own.
--
-- Files and the code they model (backend paths from oragami-backend/src):
--   Js: numbers, floating point as an interface with the laws of IEEE 754, JSON values.
--   Database: oragami-backend/prisma/schema.prisma, and the Prisma calls of the services.
--   Encoding: common/encoding.ts, and the byte helpers of the multi-asset vault.
--   Program: the instructions on credentials, `deposit`, redemption, the tradeable tokens, yield and
--     configuration; Backing has them as steps.
--   AssetVault: oragami-vault/programs/multi-asset-vault/src, with its factory and its vaults;
--     Solvency has the changes of one vault as steps, and Forecast compares a deposit with the
--     preflight of the backend, which reads the account of the vault by its own IDL. Setup,
--     SetupTwice and Redeploy are on oragami-vault/scripts/setup-multi-asset-vault.ts.
--   Anchor: solana/anchor.service.ts.
--   Hook: programs/cvault-transfer-hook/programs/cvault-transfer-hook/src/lib.rs.
--   Six, Solstice, Health: data/six.service.ts, solana/solstice.service.ts, health.
--   Vault: vault/vault.service.ts and vault/vault.controller.ts.
--   Crank: crank/nav-crank.service.ts, and `postReserveAttestation` of vault/vault.service.ts.
--   Credentials, Deposits, TravelRule, MultiAsset: the services of those names.
--   Access: common/guards, the routes of the controllers, and of oragami-frontend shared/api/index.ts
--     and middleware.ts.
--   Client: of oragami-frontend services, features/vault/VaultPanel.tsx, features/wallet and
--     the dialogs of app/app/vaults/page.tsx.
--   Onboard: oragami-frontend/app/onboard, the pages that connect a wallet, register
--     it and poll for its credential.
--   Research: of oragami-frontend lib/tinyfish.ts, lib/embeddings.ts, lib/mongodb.ts and
--     app/api/research/route.ts.
--   Frontend: oragami-frontend/hooks/use-toast.ts.
--   Tests: the theorems at concrete inputs, and runs of the definitions.
--
-- State is passed explicitly: `Backend` holds the memory of the services that a run touches, the
-- database and the log of the transactions that were answered; `Store` the database and the
-- credential accounts. A method that may throw is an `Action`. What the network, the database, the
-- files and the clock answer is an argument, a throw being `none`. Strings are opaque but for
-- equality and what an encoding needs. A `bigint` is an integer without bound; a `u64` of the program
-- keeps its checked bound, 2^64. All recursion is structural, so that no fuel is used.
--
-- A `Task` of the web client answers or throws, and leaves the list of the calls that it has made; an
-- instruction of the program answers with the next `Market` or with none.
--
-- Not modelled: wiring, logging, the building of transactions by web3.js and Anchor, mandates and
-- attestations of the program oragami-vault, and the rendering of the web client. Of the
-- calls between programs the token program is an interface, and the derivation of addresses a
-- parameter.
pub mod Prelude
pub mod Js
pub mod Database
pub mod Encoding
pub mod Program
pub mod Hook
pub mod Anchor
pub mod AssetVault
pub mod Six
pub mod Solstice
pub mod Health
pub mod Crank
pub mod Client
pub mod Credentials
pub mod TravelRule
pub mod Deposits
pub mod MultiAsset
pub mod Frontend
pub mod Vault
pub mod Access
pub mod Research
pub mod Onboard
pub mod Tests
