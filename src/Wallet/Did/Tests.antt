-- ===== src/Wallet/Did/Tests.antt =====
-- services/didService.ts: runs with an agent that has one identity.
use did_wallet_thesis.Common.{
  ◌≡◌, refl, String, Bool, true, false, none, some, [], ◌∷◌, sym, ap, ok_inj, Result, ok, throw,
  if◌then◌else◌,
}
use did_wallet_thesis.Wallet.Did.{
  Identifier, DidInfo, VeramoAgent, Curve, DidService, get_or_create_identity, initialize,
  found_or_created, derive_ethereum_address, last_part, take_last, drop_chars, AgentKey,
  RegisterAnswer, refused, update_registered_profile, get_did, ownership_message, RegisterRequest,
}
use did_wallet_thesis.Wallet.Did.Laws.{get_or_create_identity_again}
use did_wallet_thesis.Common.Text.{to_lower}

abbrev key : AgentKey
key = record { kid = "k"; key_type = "Secp256k1"; public_key_hex = "04" }

abbrev identifier : Identifier
identifier = record {
  did = "did:ethr:sepolia:0xab";
  provider = "did:ethr:sepolia";
  alias = some "wallet-identity";
  keys = key ∷ [];
}

abbrev agent : VeramoAgent
agent = record {
  Database = Bool;
  initialize_agent = λ secret db. (ok tt, db);
  did_manager_find = λ alias db. ok (if db then identifier ∷ [] else []);
  did_manager_create = λ provider alias db. (ok identifier, true);
  did_manager_get = λ did db. ok identifier;
  key_manager_sign = λ kid message db. ok message;
}

abbrev curve : Curve
curve = record {
  get_address = λ raw. ok raw;
  compute_public_key = λ raw. ok raw;
  keccak_of = λ key. "1234567890123456789012345678901234567890123456789012345678901234";
}

abbrev fresh : DidService agent
fresh = record { initialized = false; database = false }

abbrev info : DidInfo
info = record {
  did = "did:ethr:sepolia:0xab";
  ethereum_address = "0x5678901234567890123456789012345678901234";
  provider = "did:ethr:sepolia";
  alias = some "wallet-identity";
  keys = key ∷ [];
}

first_call : (get_or_create_identity agent curve (some "k") fresh).0 ≡ ok info
unfolding get_or_create_identity initialize found_or_created derive_ethereum_address last_part
    take_last drop_chars
first_call = refl

finds_created :
    (provider alias : String) (db : Bool) (id : Identifier)
    → (agent.did_manager_create provider alias db).0 ≡ ok id
    → agent.did_manager_find alias (agent.did_manager_create provider alias db).1 ≡ ok (id ∷ [])
finds_created provider alias db id h =
    ap (λ (i : Identifier). ok (i ∷ [])) (sym (ok_inj identifier id h))

get_or_create_identity_again_example :
    let svc = (get_or_create_identity agent curve (some "k") fresh).1 in
    get_or_create_identity agent curve none svc ≡ (ok info, svc)
get_or_create_identity_again_example =
    get_or_create_identity_again agent curve (finds_created) (some "k") none fresh info first_call

abbrev service : RegisterRequest → Result String RegisterAnswer
service request =
    ok (refused (record { status = 400; errors = some ("" ∷ "Bad name" ∷ []); message = none }))

profile_refused :
    (update_registered_profile agent curve service
      (some "k")
      "did:ethr:sepolia:0xab"
      "0xAB"
      "Ana"
      "a@b.ro"
      7
      fresh).0
    ≡ throw "Bad name"
unfolding update_registered_profile get_did initialize derive_ethereum_address last_part take_last
    drop_chars ownership_message to_lower
profile_refused = refl
