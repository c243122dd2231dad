-- ===== src/Solstice/Api.antt =====
-- oragami-backend/src/solana/solstice.service.ts: the Instructions API of Solstice, by `fetch` and,
-- where the network fails, by curl. What both answer to a request during one call is a `SolsticeApi`.
use oragami.Prelude.{
  ℕ, String, Bool, ◌||◌, Option, none, some, List, [], ◌∷◌, if◌then◌else◌, ◌==◌, nat_eq, string_eq,
}
use oragami.Prelude.Int.{ℤ, pos, leb_ℤ, ltb_ℤ}
use oragami.Prelude.Results.{Error, bad_request, thrown, Result, ok, err}
use oragami.Client.Tasks.{Outcome, returned, raised}
use oragami.Six.Service.{truthy}

pub data RequestType : Type 0 where
  request_mint confirm_mint cancel_mint : RequestType
  request_redeem confirm_redeem cancel_redeem : RequestType
  lock unlock withdraw : RequestType

pub data CollateralKind : Type 0 where
  usdc usdt : CollateralKind

-- The fields of `data` that the service sets; an empty text counts as missing.
pub record SolsticeInstructionRequest : Type 0 where
  pub type_ : RequestType
  pub user : String
  pub amount : Option ℤ
  pub collateral : Option CollateralKind
  pub usx_account : Option String
  pub eusx_account : Option String
  pub payer : Option String

-- Keys and data are bytes here.
pub record AccountEntry : Type 0 where
  pub pubkey : List ℕ
  pub is_signer : Bool
  pub is_writable : Bool

pub record RawInstruction : Type 0 where
  pub program_id : List ℕ
  pub accounts : List AccountEntry
  pub data_ : List ℕ

pub record AccountMeta : Type 0 where
  pub pubkey : String
  pub is_signer : Bool
  pub is_writable : Bool

pub record SolanaInstruction : Type 0 where
  pub program_id : String
  pub keys : List AccountMeta
  pub data_ : List ℕ

-- A body that was parsed: `none` where `instruction` or a part of it is missing.
abbrev pub Body : Type 0
Body = Option RawInstruction

-- `failed` where `fetch` throws, or reading the text or the JSON of its response, with the message.
pub data ApiResponse : Type 0 where
  failed : String → ApiResponse
  not_ok : ApiResponse
  is_ok : Body → ApiResponse

pub record SolsticeApi : Type 0 where
  pub fetch : SolsticeInstructionRequest → ApiResponse
  -- what curl writes, without white space at its end, as code units
  pub curl : SolsticeInstructionRequest → Outcome (List ℕ)
  pub includes : String → String → Bool
  -- `Number` of the status that curl writes, unless it is not finite
  pub to_number : List ℕ → Option ℤ
  pub parse : List ℕ → Option Body
  -- `Failed to fetch Solstice instruction: …`
  pub refusal_text : RequestType → String
  -- `new PublicKey(Buffer.from(bytes))`
  pub public_key : List ℕ → Option String

-- The text around its last line feed.
unfoldable pub cut_last : List ℕ → Option (List ℕ × List ℕ)
cut_last [] = none
cut_last (c ∷ cs) = elim (cut_last cs) [
  | some (body, status) ↦ some (c ∷ body, status)
  | none ↦ if c == b'\n' then some ([], cs) else none
]

abbrev body_and_status : List ℕ → List ℕ × List ℕ
body_and_status text = elim (cut_last text) [ none ↦ ([], text) | some parts ↦ parts ]

module _ (api : SolsticeApi) where
  abbrev refusal : RequestType → Error
  refusal t = bad_request (api.refusal_text t)

  -- Every failure ends in the same BadRequestException.
  unfoldable pub fetch_instruction_from_api_via_curl : SolsticeInstructionRequest → Result Body
  unfolding cut_last
  fetch_instruction_from_api_via_curl request = elim (api.curl request) [
    | raised e ↦ err (refusal request.type_)
    | returned out ↦
        let (body, status_text) = body_and_status out in
        elim (api.to_number status_text) [
          | none ↦ err (refusal request.type_)
          | some status ↦
              if ltb_ℤ status (pos 200) || leb_ℤ (pos 300) status
              then err (refusal request.type_)
              else elim (api.parse body) [
                | none ↦ err (refusal request.type_)
                | some answer ↦ ok answer
              ]
        ]
  ]

  abbrev is_network_fetch_failure : String → Bool
  is_network_fetch_failure message =
      api.includes message "fetch failed"
      || api.includes message "ETIMEDOUT"
      || api.includes message "ENOTFOUND"
      || api.includes message "ECONNRESET"
      || api.includes message "EAI_AGAIN"

  -- The `catch`, which looks at the message first.
  abbrev recover : SolsticeInstructionRequest → String → Result Body
  recover request message =
      if is_network_fetch_failure message
      then fetch_instruction_from_api_via_curl request
      else err (refusal request.type_)

  unfoldable pub fetch_instruction_from_api : SolsticeInstructionRequest → Result Body
  unfolding fetch_instruction_from_api_via_curl
  fetch_instruction_from_api request = elim (api.fetch request) [
    | failed message ↦ recover request message
    | not_ok ↦ recover request (api.refusal_text request.type_)
    | is_ok body ↦ ok body
  ]

  meta_of : AccountEntry → Option AccountMeta
  meta_of a = elim (api.public_key a.pubkey) [
    | none ↦ none
    | some key ↦
        some (record { pubkey = key; is_signer = a.is_signer; is_writable = a.is_writable })
  ]

  metas : List AccountEntry → Option (List AccountMeta)
  unfolding meta_of
  metas [] = some []
  metas (a ∷ as_) = elim (meta_of a) [
    | none ↦ none
    | some m ↦ elim (metas as_) [ none ↦ none | some ms ↦ some (m ∷ ms) ]
  ]

  -- `none` where it throws: a part is missing, or a key has too many bytes.
  unfoldable pub to_solana_instruction : Body → Option SolanaInstruction
  unfolding metas
  to_solana_instruction none = none
  to_solana_instruction (some raw) = elim (api.public_key raw.program_id) [
    | none ↦ none
    | some program_id ↦ elim (metas raw.accounts) [
      | none ↦ none
      | some keys ↦ some (record { program_id = program_id; keys = keys; data_ = raw.data_ })
    ]
  ]

  unfoldable pub build : SolsticeInstructionRequest → Result SolanaInstruction
  unfolding fetch_instruction_from_api to_solana_instruction
  build request = elim (fetch_instruction_from_api request) [
    | err e ↦ err e
    | ok body ↦ elim (to_solana_instruction body) [
      | none ↦ err (thrown "malformed Solstice instruction")
      | some i ↦ ok i
    ]
  ]

abbrev pub mint_request : String → ℤ → CollateralKind → Option String → SolsticeInstructionRequest
mint_request user amount collateral payer = record {
  type_ = request_mint;
  user = user;
  amount = some amount;
  collateral = some collateral;
  usx_account = none;
  eusx_account = none;
  payer = truthy payer;
}

abbrev pub confirm_request :
    String → CollateralKind → Option String → Option String → SolsticeInstructionRequest
confirm_request user collateral usx_account payer = record {
  type_ = confirm_mint;
  user = user;
  amount = none;
  collateral = some collateral;
  usx_account = truthy usx_account;
  eusx_account = none;
  payer = truthy payer;
}

abbrev pub lock_request :
    String → ℤ → Option String → Option String → Option String → SolsticeInstructionRequest
lock_request user amount usx_account eusx_account payer = record {
  type_ = lock;
  user = user;
  amount = some amount;
  collateral = none;
  usx_account = truthy usx_account;
  eusx_account = truthy eusx_account;
  payer = truthy payer;
}
