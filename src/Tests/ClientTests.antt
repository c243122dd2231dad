-- ===== src/Tests/ClientTests.antt =====
-- The theorems on the web client and on the calls of the Solstice API, at concrete answers.
use oragami.Prelude.{◌≡◌, refl, true, false, none, some, length, List, [], ◌∷◌, string_eq}
use oragami.Prelude.Int.{pos}
use oragami.Prelude.Results.{ok}
use oragami.Js.Fractions.{Fraction, fractions, whole}
use oragami.Js.Number.{nan}
use oragami.Js.Json.{Json, Fields}
use oragami.Encoding.Codes.{utf8}
use oragami.Research.Lines.{Bytes, Decoder, concat, decoded, split, pop, take_lines, read_lines}
use oragami.Research.Events.{
  Agent, body, done, line_events, all_events, events_of_response, stream_tiny_fish_research,
}
use oragami.Research.EventsLaws.{events_of_response-concat}
use oragami.Research.Lead.{Texts, contacts_of, parse_contacts, parse_lead_from_result}
use oragami.Research.Leads.{Mongo, LeadDb, get_db, save_lead}
use oragami.Research.Route.{Server, consume, finish, respond, post}
use oragami.Solstice.Api.{
  RawInstruction, SolanaInstruction, SolsticeApi, failed, build, fetch_instruction_from_api,
  fetch_instruction_from_api_via_curl, cut_last, to_solana_instruction,
}
use oragami.Solstice.Yield.{SolsticeChain, mint_usx, send_instructions}
use oragami.Client.Tasks.{returned, raised}
use oragami.Client.Risk.{
  RiskApi, RiskCheckResponse, analyzed, is_ok, check_vault_compliance, check_wallet_risk, assessed,
}
use oragami.Client.Vault.{Chain, deposit_to_vault}
use oragami.Client.Panel.{Tab, PanelEnv, idle, handle_deposit, raw_amount, cvault_out}
use oragami.Client.PanelLaws.{DepositRun, handle_deposit-DepositRun}

abbrev chain : Chain
chain = record {
  program = returned tt;
  pda = λ seeds. "pda";
  token_program = "token";
  bn = λ x. returned (pos 2000000);
  nonce = "nonce";
  token_account = λ mint owner. returned "account";
  fetch_account = λ address. raised none;
  rpc = λ i. returned "tx";
}

abbrev score : RiskCheckResponse Fraction
score = analyzed (record {
  address = "bank";
  risk_score = some (whole 3);
  risk_level = "low";
  reasoning = "";
  has_sanctioned_assets = false;
  helius_assets_checked = true;
  from_cache = false;
  checked_at = "";
})

abbrev risk_api : RiskApi Fraction
risk_api = record {
  fetched = λ address. is_ok (returned score);
  type_error = "TypeError";
  high = λ s. "High risk score";
}

abbrev panel : PanelEnv Fraction
panel = record {
  api = risk_api;
  chain = chain;
  has_phantom = true;
  is_public_key = λ text. true;
  usdc_mint = "usdc";
  nav_price_bps = whole 10000;
  parse_float = λ text. some (whole 2);
  parse_int = λ text. nan;
  show = λ n. "2000000";
  float_of = λ n. whole 2000000;
  uuid = "id";
}

abbrev tab : Tab
tab = record {
  connected = true;
  public_key = some "bank";
  amount = "2";
  compliance = idle;
  is_submitting = false;
  result = none;
  estimated_cvault = none;
  updates = 0;
}

handle_deposit-DepositRun_example :
    DepositRun fractions panel tab (handle_deposit fractions panel tab [])
handle_deposit-DepositRun_example = handle_deposit-DepositRun fractions panel tab

-- The deposit goes through, and the page reloads once although the indexing throws.
deposit-confirmed : (handle_deposit fractions panel tab []).0.updates ≡ 1
unfolding handle_deposit check_vault_compliance check_wallet_risk assessed deposit_to_vault
    raw_amount cvault_out
deposit-confirmed = refl

-- `data:{}` and `data:` again, cut in the middle of a line.
abbrev chunks : List Bytes
chunks = (100 ∷ 97 ∷ []) ∷ (116 ∷ 97 ∷ 58 ∷ 123 ∷ 125 ∷ 10 ∷ 100 ∷ []) ∷ []

-- Every line holds the value of a research that is complete.
abbrev result : Json Fraction
result =
    Json.obj
      (Fields.field "type" (Json.str "COMPLETE") (Fields.field "name" (Json.str "Bank") Fields.end))

-- Every byte is a character.
abbrev ascii : Decoder
ascii = record {
  decode = λ before value. value;
  decode_nil = λ before. refl;
  decode_append = λ before xs ys. refl;
}

abbrev agent : Agent Fraction
agent = record {
  starts_with = λ text start. false;
  append = λ a b. b;
  fetch = λ url goal steps key. body chunks done;
  decoder = ascii;
  trim = λ text. text;
  parse = λ text. some result;
  to_upper = λ text. text;
  code_units = utf8;
  is_true = λ x. true;
}

events_of_response-concat_example :
    events_of_response agent (body chunks done)
    ≡ events_of_response agent (body (concat chunks ∷ []) done)
events_of_response-concat_example = events_of_response-concat agent chunks done

abbrev texts : Texts Fraction
texts = record {
  without_suffix = λ domain. domain;
  show = λ v. "value";
  stringify = λ v. "{}";
  split_commas = λ text. [];
  base_goal = λ domain. "goal";
  type_error = "TypeError";
}

abbrev mongo : Mongo Fraction
mongo = record {
  uri = "mongodb://";
  connect = returned tt;
  now = "now";
  embed_lead = λ lead. returned [];
  embed_query = λ query. returned [];
  insert_id = returned "id";
  newest = λ n leads. returned leads;
  vector_search = λ v candidates n leads. returned [];
  text_search = λ query n leads. returned leads;
  object_id = λ id. returned id;
}

abbrev server : Server Fraction
server = record {
  agent = agent;
  texts = texts;
  mongo = mongo;
  api_key = some "key";
  starting = λ domain. "Starting";
  https = λ domain. domain;
  uuid = "uuid";
  iso_now = "now";
}

abbrev no_leads : LeadDb Fraction
no_leads = record { connected = false; leads = [] }

-- The lead is stored.
lead-stored : length (post server (some "bank.com") none no_leads).1.leads ≡ 1
unfolding post respond stream_tiny_fish_research events_of_response all_events line_events
    read_lines decoded take_lines split pop consume finish parse_lead_from_result parse_contacts
    contacts_of save_lead get_db utf8
lead-stored = refl

abbrev instruction : RawInstruction
instruction = record { program_id = []; accounts = []; data_ = [] }

-- `fetch` fails for the network, and curl answers "{}" and 200.
abbrev solstice_api : SolsticeApi
solstice_api = record {
  fetch = λ request. failed "fetch failed";
  curl = λ request. returned (123 ∷ 125 ∷ 10 ∷ 50 ∷ 48 ∷ 48 ∷ []);
  includes = λ text part. true;
  to_number = λ text. some (pos 200);
  parse = λ text. some (some instruction);
  refusal_text = λ t. "Failed to fetch Solstice instruction";
  public_key = λ bytes. some "key";
}

abbrev solana : SolanaInstruction
solana = record { program_id = "key"; keys = []; data_ = [] }

abbrev solstice_chain : SolsticeChain
solstice_chain = record {
  api = solstice_api;
  authority = "authority";
  mints = record { usx = "usx"; eusx = "eusx" };
  ata_instruction = λ mint. some solana;
  blockhash = some "hash";
  serialize = λ hash is. some "raw";
  send_raw = λ raw. some "sig";
  confirm = λ sig. some tt;
}

mint-confirmed : (mint_usx solstice_chain (pos 1000000) []).0 ≡ ok "sig"
unfolding mint_usx build fetch_instruction_from_api fetch_instruction_from_api_via_curl cut_last
    to_solana_instruction send_instructions
mint-confirmed = refl
