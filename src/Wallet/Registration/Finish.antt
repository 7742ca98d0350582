-- ===== src/Wallet/Registration/Finish.antt =====
-- screens/RegistrationWizardScreen.tsx: ensureIdentityCreated and handleFinish, on the wizard, the
-- device, the DID service and the identity service. A handler reads the state of the wizard that was
-- rendered when it was called.
use Prim.Native.String
use did_wallet_thesis.Common.{
  ℕ, String, Bool, not, ◌&&◌, Option, none, some, List, Result, ok, throw, run_then, first,
  if◌then◌else◌, truthy, get_or,
}
use did_wallet_thesis.Common.Trim.{trim}
use did_wallet_thesis.Wallet.Pin.{Argon2Options, setup_pin}
use did_wallet_thesis.Wallet.Account.{
  DeviceStorage, ProfileCipher, ProfileJson, Device, create_wallet, get_secret_key,
  save_wallet_profile, complete_wallet_setup,
}
use did_wallet_thesis.Wallet.Did.{
  VeramoAgent, Curve, DidService, DidInfo, AgentKey, RegisterRequest, get_or_create_identity,
  ownership_message,
}
use did_wallet_thesis.Wallet.Registration.{
  AccountType, personal, university, enterprise, RegistrationState, Wizard, is_personal, filled,
  set_identity,
}
use did_wallet_thesis.Wallet.Registration.Events.{request_started, finish_ended}

-- types/wallet.ts
pub record WalletProfileBase : Type 0 where
  pub did : String
  pub wallet_address : String
  pub country : String
  pub county : String
  pub city : String
  pub address : String
  pub email : String

pub data WalletProfile : Type 0 where
  personal_profile : WalletProfileBase → String → String → String → WalletProfile
  university_profile : WalletProfileBase → String → String → WalletProfile
  enterprise_profile : WalletProfileBase → String → String → String → WalletProfile

pub record CreatedIdentity : Type 0 where
  pub did : String
  pub wallet_address : String

-- What the platform hands to one run of a handler: random texts and bytes, and the time in seconds.
pub record Inputs : Type 0 where
  pub uuid1 : String
  pub uuid2 : String
  pub iv : String
  pub salt : List ℕ
  pub timestamp : ℕ

abbrev pub account_type_text : AccountType → String
account_type_text personal = "personal"
account_type_text university = "university"
account_type_text enterprise = "enterprise"

abbrev pub display_name : AccountType → RegistrationState → String
display_name personal st = String.◌++◌ st.first_name (String.◌++◌ " " st.last_name)
display_name _ st = st.legal_name

abbrev pub key_field : (AgentKey → String) → Option AgentKey → Option String
key_field field none = none
key_field field (some key) = some (field key)

abbrev pub base_of : Wizard → CreatedIdentity → WalletProfileBase
base_of w identity = record {
  did = identity.did;
  wallet_address = identity.wallet_address;
  country = w.state.country;
  county = w.state.county;
  city = w.state.city;
  address = w.state.address;
  email = trim w.state.email;
}

unfoldable pub profile_for :
    AccountType → WalletProfileBase → String → RegistrationState → Result String WalletProfile
unfolding trim
profile_for personal base id st =
    ok (personal_profile base (trim st.first_name) (trim st.last_name) st.birth_date)
profile_for university base id st =
    if not (filled id)
    then throw "Missing institution accreditation. Please complete the accreditation step first."
    else ok (university_profile base (trim st.legal_name) id)
profile_for enterprise base id st =
    if not (filled id)
    then throw "Missing enterprise accreditation. Please complete the approval step first."
    else ok (enterprise_profile base (trim st.legal_name) (trim st.fiscal_code) id)

unfoldable pub profile_of : Wizard → CreatedIdentity → Result String WalletProfile
unfolding profile_for
profile_of w identity = profile_for w.account_type (base_of w identity) w.accreditation_id w.state

-- What the handlers work on; `Server` is the state of the identity service.
pub record App (storage : DeviceStorage) (agent : VeramoAgent) (Server : Type 0) : Type 0 where
  pub wizard : Wizard
  pub device : Device storage
  pub did_service : DidService agent
  pub server : Server

module _ (storage : DeviceStorage) (cipher : ProfileCipher) (json : ProfileJson WalletProfile)
    (dev : Bool) (argon2 : String → String → Argon2Options → String) (agent : VeramoAgent)
    (curve : Curve) {Server : Type 0} (register : RegisterRequest → Server → Server) where
  abbrev pub register_request : Wizard → DidInfo → ℕ → Option String → RegisterRequest
  register_request w info timestamp signature = record {
    did = info.did;
    controller_address = info.ethereum_address;
    display_name = display_name w.account_type w.state;
    email = trim w.state.email;
    account_type = account_type_text w.account_type;
    timestamp = timestamp;
    signature = signature;
    public_key_hex = key_field (λ (key : AgentKey). key.public_key_hex) (first info.keys);
    key_type = key_field (λ (key : AgentKey). key.key_type) (first info.keys);
  }

  -- The request that the identity service gets; every error on the way is swallowed.
  unfoldable pub register_identity :
      Wizard → DidInfo → ℕ → App storage agent Server → App storage agent Server
  unfolding ownership_message
  register_identity w info timestamp app =
      let kid = key_field (λ (key : AgentKey). key.kid) (first info.keys) in
      let message = ownership_message info.ethereum_address timestamp in
      if truthy kid
      then (elim (agent.key_manager_sign (get_or kid "") message app.did_service.database) [
        | throw e ↦ app
        | ok signature ↦ record app {
          server = register (register_request w info timestamp (some signature)) app.server;
        }
      ])
      else (record app { server = register (register_request w info timestamp none) app.server })

  unfoldable pub create_identity :
      Wizard
      → Inputs
      → App storage agent Server
      → Result String CreatedIdentity × App storage agent Server
  unfolding create_wallet get_secret_key get_or_create_identity register_identity set_identity
  create_identity w inputs app =
      let device = (create_wallet storage cipher json inputs.uuid1 inputs.uuid2 app.device).1 in
      let (outcome, svc) =
        get_or_create_identity agent curve (get_secret_key storage cipher json device)
          app.did_service in
      let app1 = record app { device = device; did_service = svc } in
      elim outcome [
        | throw e ↦ (throw e, app1)
        | ok info ↦ (
          ok (record { did = info.did; wallet_address = info.ethereum_address }),
          register_identity w info inputs.timestamp
              (record app1 { wizard = set_identity info.did info.ethereum_address app1.wizard }),
        )
      ]

  unfoldable pub ensure_identity_created :
      Wizard
      → Inputs
      → App storage agent Server
      → Result String CreatedIdentity × App storage agent Server
  unfolding create_identity
  ensure_identity_created w inputs app =
      if filled w.did && filled w.wallet_address
      then (ok (record { did = w.did; wallet_address = w.wallet_address }), app)
      else create_identity w inputs app

  abbrev with_device :
      {B : Type 0} → B × Device storage → App storage agent Server → B × App storage agent Server
  with_device (outcome, device) app = (outcome, record app { device = device })

  -- The PIN, the profile and the flags, in this order.
  unfoldable pub commit_device :
      Wizard → CreatedIdentity → Inputs → Device storage → Result String (Unit {0}) × Device storage
  unfolding setup_pin profile_of save_wallet_profile complete_wallet_setup
  commit_device w identity inputs d =
      let (configured, secure_items) =
        setup_pin storage.secure dev argon2 w.state.pin inputs.salt d.secure_items in
      run_then (configured, record d { secure_items = secure_items })
        (λ done d1.
          run_then (profile_of w identity, d1)
            (λ profile d2.
              run_then (save_wallet_profile storage cipher json inputs.iv profile d2)
                (λ saved d3. complete_wallet_setup storage cipher json d3)))

  unfoldable pub finish :
      Wizard
      → Inputs
      → App storage agent Server
      → Result String (Unit {0}) × App storage agent Server
  unfolding ensure_identity_created commit_device
  finish w inputs app =
      if is_personal w.account_type && not (filled w.state.birth_date)
      then (throw "Date of birth is required for personal accounts.", app)
      else run_then (ensure_identity_created w inputs app)
          (λ identity app1. with_device (commit_device w identity inputs app1.device) app1)

  unfoldable pub handle_finish : Inputs → App storage agent Server → App storage agent Server
  unfolding finish request_started finish_ended
  handle_finish inputs app =
      let (outcome, app1) =
        finish app.wizard inputs (record app { wizard = request_started app.wizard }) in
      record app1 { wizard = finish_ended outcome app1.wizard }
