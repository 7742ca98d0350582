-- ===== src/Admin/Auth/Tests.antt =====
-- core/auth: runs with a concrete wallet, server and JSON text.
use did_wallet_thesis.Common.{
  ℕ, String, ◌≡◌, refl, true, false, Option, none, some, [], ◌∷◌, arith, ok, throw, ◌==◌, ◌⊎◌,
  if◌then◌else◌,
}
use did_wallet_thesis.Common.Text.{to_lower}
use did_wallet_thesis.Admin.ApiError.{ApiError, error_of, extract_api_error, ethers_error_message}
use did_wallet_thesis.Admin.ApiError.Laws.{extract_api_error_listed}
use did_wallet_thesis.Admin.Signer.{
  InjectedWallet, SignerState, connect, sign_message, accounts_changed, chain_changed, disconnect,
}
use did_wallet_thesis.Admin.Signer.Laws.{ReportsAccount, connect_expected}
use did_wallet_thesis.Admin.Navigation.{HierarchyNode}
use did_wallet_thesis.Admin.Auth.Model.{AuthSession, idle, AuthServer, SessionJson, Client}
use did_wallet_thesis.Admin.Auth.{provider_event, login, reload, is_authenticated}
use did_wallet_thesis.Admin.Auth.Session.{
  DatesValid, IsConsistent, Reached, loaded, later, logged_in, Reached-IsConsistent,
}
use did_wallet_thesis.Admin.Auth.Login.{
  Opened, Failed, login_lem, provider_event_lem, is_authenticated-reload,
}

-- A wallet whose signers are the accounts themselves.
abbrev wallet : InjectedWallet String
wallet = record {
  request = λ _. ok ("0xAB" ∷ []);
  get_signer = λ account. ok account;
  get_address = λ s. ok s;
  sign_message = λ s message. ok message;
}

abbrev server : AuthServer
server = record {
  challenge = λ did. ok "nonce";
  verify = λ did nonce signature.
      if signature == nonce
      then ok (record {
        token = "t";
        scope = "Ministry";
        accreditation_id = none;
        expires_at = some 100;
      })
      else throw (error_of "bad signature");
}

abbrev write_dated : Option ℕ → AuthSession → Option AuthSession
write_dated none s = none
write_dated (some t) s = some s

written_lem : (s item : AuthSession) → write_dated s.expires_at s ≡ some item → some item ≡ some s
written_lem s item h = ground arith

dated_lem : (s : AuthSession) (t : ℕ) → s.expires_at ≡ some t → write_dated s.expires_at s ≡ some s
dated_lem s t h = ground arith

abbrev json : SessionJson
json = record {
  Json = AuthSession;
  write = λ s. write_dated s.expires_at s;
  read = λ s. some s;
  read-write = λ s item h. written_lem s item h;
  write_valid = λ s t h. (s, dated_lem s t h);
}

abbrev no_signer : SignerState String
no_signer = record { signer = none; has_signer = false; address = none; wallet_available = true }

abbrev fresh : Client String AuthSession
fresh = record {
  session = none;
  state = idle;
  error = none;
  signer = no_signer;
  navigation = record { member_state = none; ministry = none };
  session_item = none;
  legacy_item = none;
  signer_item = none;
  route = "/";
}

server_dates : DatesValid server
server_dates did nonce signature r h = ground arith

first_load : Reached json (reload json true (some wallet) 5 fresh)
first_load = loaded (some wallet) 5 fresh

after_login :
    Reached json (login json true (some wallet) server (reload json true (some wallet) 5 fresh)).1
after_login =
    later (reload json true (some wallet) 5 fresh)
      (login json true (some wallet) server (reload json true (some wallet) 5 fresh)).1 first_load
      (logged_in (some wallet) server (reload json true (some wallet) 5 fresh) server_dates)

logged_in_now : is_authenticated 99 (login json true (some wallet) server fresh).1 ≡ true
unfolding is_authenticated login to_lower connect sign_message
logged_in_now = refl

Reached-IsConsistent_example :
    IsConsistent json
      (login json true (some wallet) server (reload json true (some wallet) 5 fresh)).1
Reached-IsConsistent_example =
    Reached-IsConsistent json
      (login json true (some wallet) server (reload json true (some wallet) 5 fresh)).1 after_login

login_lem_example :
    let (result, st') = login json true (some wallet) server fresh in
    ((result ≡ ok tt) × Opened json (some wallet) server fresh st')
    ⊎ ((e : ApiError) × (result ≡ throw e) × Failed json e fresh st')
login_lem_example = login_lem json (some wallet) server fresh server_dates

is_authenticated-reload_example :
    is_authenticated 7 (
      reload json true
        (some wallet)
        7
        (login json true (some wallet) server (reload json true (some wallet) 5 fresh)).1)
    ≡ is_authenticated 7
        (login json true (some wallet) server (reload json true (some wallet) 5 fresh)).1
is_authenticated-reload_example =
    is_authenticated-reload json (some wallet) 7
      (login json true (some wallet) server (reload json true (some wallet) 5 fresh)).1
      (Reached-IsConsistent json
        (login json true (some wallet) server (reload json true (some wallet) 5 fresh)).1
        after_login)

abbrev current : AuthSession
current = record {
  token = "t";
  did = "did:ethr:sepolia:0xab";
  eth_address = "0xAB";
  scope = "Ministry";
  accreditation_id = none;
  expires_at = some 100;
}

abbrev open_client : Client String AuthSession
open_client = record fresh { session = some current; session_item = some current }

provider_event_lem_example :
    ((provider_event json true (some wallet) chain_changed open_client).session ≡ some current)
    × ((provider_event json true (some wallet) disconnect open_client).session ≡ none)
    × ((provider_event json true (some wallet) (accounts_changed []) open_client).session ≡ none)
    × ((provider_event json true (some wallet) (accounts_changed ("0xab" ∷ [])) open_client).session
        ≡ (if to_lower "0xab" == to_lower "0xAB" then some current else none))
provider_event_lem_example =
    provider_event_lem json (some wallet) current "0xab" [] open_client refl refl

wallet_faithful : ReportsAccount wallet
wallet_faithful account s a given known = ground arith

connect_expected_example :
    (to_lower "0xAB" ≡ to_lower "0xab")
    × ((connect (some wallet) true (some "0xab") no_signer).1.has_signer ≡ true)
    × ((connect (some wallet) true (some "0xab") no_signer).1.address ≡ some "0xAB")
connect_expected_example =
    connect_expected wallet wallet_faithful true "0xab" "0xAB" no_signer refl
      (unfold connect to_lower in refl)

abbrev listed_error : ApiError
listed_error = record {
  code = some "BAD";
  errors = some (some [] ∷ some ("Name is required" ∷ []) ∷ []);
  body_message = some "One or more validation errors occurred.";
  message = none;
}

extract_api_error_listed_example : extract_api_error listed_error "Failed" ≡ "Name is required"
extract_api_error_listed_example =
    extract_api_error_listed listed_error "Failed" (some [] ∷ []) [] "Name is required" []
      (unfold ethers_error_message in refl) refl (tt, tt)

abbrev node : HierarchyNode
node = record { did = "did:ethr:sepolia:0xab"; label = "Romania"; accreditation_id = "0x01" }
