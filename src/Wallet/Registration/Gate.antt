-- ===== src/Wallet/Registration/Gate.antt =====
-- screens/RegistrationWizardScreen.tsx: the handlers of the gating step, whole. The registry's contract,
-- ethers and the accreditation service are parameters.
use Prim.Native.String
use did_wallet_thesis.Common.{
  ℕ, String, Bool, true, false, not, ◌&&◌, Option, none, some, ◌==◌, Result, ok, throw,
  if◌then◌else◌, truthy, get_or,
}
use did_wallet_thesis.Common.Text.{to_lower}
use did_wallet_thesis.Common.Trim.{trim}
use did_wallet_thesis.Wallet.Pin.{Argon2Options}
use did_wallet_thesis.Wallet.Account.{
  DeviceStorage, ProfileCipher, ProfileJson, create_wallet, get_secret_key,
}
use did_wallet_thesis.Wallet.Did.{
  VeramoAgent, Curve, DidInfo, RegisterRequest, get_or_create_identity,
}
use did_wallet_thesis.Wallet.Lookup.{
  RegistryContract, find_active_institution_accreditation, find_active_enterprise_accreditation,
}
use did_wallet_thesis.Wallet.Registration.{
  RegistrationState, Wizard, filled, set_identity, normalized, is_enterprise,
}
use did_wallet_thesis.Wallet.Registration.Events.{
  RegistrationStatus, request_started, check_ended, submit_ended, poll_started, poll_ended,
  restored_answered,
}
use did_wallet_thesis.Wallet.Registration.Finish.{
  WalletProfile, CreatedIdentity, Inputs, App, ensure_identity_created,
}

-- `fetch` throws, or the response is not ok and has a text, or it has data.
pub data Reply (A : Type 0) : Type 0 where
  replied : A → Reply A
  refused_with : String → Reply A

abbrev pub data_of : {A : Type 0} → Result String (Reply A) → Result String A
data_of (throw e) = throw e
data_of (ok (replied a)) = ok a
data_of (ok (refused_with text)) =
    throw (if filled text then text else "Registration request failed.")

pub record EnterpriseRequest : Type 0 where
  pub legal_name : String
  pub fiscal_code : String
  pub country : String
  pub county : String
  pub city : String
  pub address : String
  pub wallet_address : String

pub record AccreditationService : Type 0 where
  pub submit : EnterpriseRequest → Result String (Reply String)
  pub status : String → Result String (Reply RegistrationStatus)

abbrev pub enterprise_request_key : String
enterprise_request_key = "enterprise_request_id"

abbrev pub request_of : RegistrationState → String → EnterpriseRequest
request_of st wallet_address = record {
  legal_name = trim st.legal_name;
  fiscal_code = trim st.fiscal_code;
  country = st.country;
  county = st.county;
  city = st.city;
  address = st.address;
  wallet_address = wallet_address;
}

-- The search for the address, unless the identity of the agent cannot be made.
abbrev pub looked_up :
    RegistryContract String → Result String DidInfo → ℕ → String → Result String (Option String)
looked_up contract (throw e) now address = throw e
looked_up contract (ok info) now address =
    find_active_institution_accreditation contract now address

module _ (storage : DeviceStorage) (cipher : ProfileCipher) (json : ProfileJson WalletProfile)
    (agent : VeramoAgent) (curve : Curve) {Server : Type 0} where
  abbrev pub set_wizard : (Wizard → Wizard) → App storage agent Server → App storage agent Server
  set_wizard f app = record app { wizard = f app.wizard }

  abbrev pub put_request : String → App storage agent Server → App storage agent Server
  put_request id app = record app {
    device = record app.device {
      async_items = storage.async.set_item enterprise_request_key id app.device.async_items;
    };
  }

  abbrev pub remove_request : App storage agent Server → App storage agent Server
  remove_request app = record app {
    device = record app.device {
      async_items = storage.async.delete_item enterprise_request_key app.device.async_items;
    };
  }

  module _ (contract : RegistryContract String) (wallet_of : String → Result String String) where
    -- With the address of the key that was typed.
    unfoldable pub check_address :
        String → Inputs → ℕ → App storage agent Server → App storage agent Server
    unfolding to_lower create_wallet get_secret_key get_or_create_identity set_identity check_ended
        find_active_institution_accreditation
    check_address address inputs now app =
        let did = String.◌++◌ "did:ethr:sepolia:" (to_lower address) in
        let device = (create_wallet storage cipher json inputs.uuid1 inputs.uuid2 app.device).1 in
        let (made, svc) =
          get_or_create_identity agent curve (get_secret_key storage cipher json device)
            app.did_service in
        record app {
          device = device;
          did_service = svc;
          wizard =
              check_ended (looked_up contract made now address)
                (set_identity did address app.wizard);
        }

    -- `wallet_of` is the address of `new ethers.Wallet(key)`, or the error that it throws.
    unfoldable pub handle_check_university_accreditation :
        Inputs → ℕ → App storage agent Server → App storage agent Server
    unfolding trim normalized request_started check_address check_ended
    handle_check_university_accreditation inputs now app =
        if not (truthy app.wizard.derived_address)
        then (set_wizard
            (λ (w : Wizard). record w { error = some "Enter your institution private key first." })
            app)
        else elim (wallet_of (normalized (trim app.wizard.university_private_key))) [
          | throw e ↦ set_wizard (λ (w : Wizard). check_ended (throw e) (request_started w)) app
          | ok address ↦ check_address address inputs now (set_wizard request_started app)
        ]

  module _ (dev : Bool) (argon2 : String → String → Argon2Options → String)
      (register : RegisterRequest → Server → Server) (service : AccreditationService)
      (contract : RegistryContract String) where
    abbrev pub ensure :
        Wizard
        → Inputs
        → App storage agent Server
        → Result String CreatedIdentity × App storage agent Server
    ensure w inputs app =
        ensure_identity_created storage cipher json dev argon2 agent curve register w inputs app

    unfoldable pub submitted :
        Result String String → App storage agent Server → App storage agent Server
    unfolding submit_ended
    submitted (throw e) app = set_wizard (submit_ended (throw e)) app
    submitted (ok id) app = put_request id (set_wizard (submit_ended (ok id)) app)

    abbrev pub submit_for : Wizard → Result String CreatedIdentity → Result String String
    submit_for w (throw e) = throw e
    submit_for w (ok identity) =
        data_of (service.submit (request_of w.state identity.wallet_address))

    unfoldable pub handle_submit_enterprise_request :
        Inputs → App storage agent Server → App storage agent Server
    unfolding ensure_identity_created request_started submitted
    handle_submit_enterprise_request inputs app =
        let (made, app1) = ensure app.wizard inputs (set_wizard request_started app) in
        submitted (submit_for app.wizard made) app1

    -- The search that an approval without an identifier needs, which never throws.
    abbrev pub approval_search : ℕ → Result String CreatedIdentity → Option String
    approval_search now (throw e) = none
    approval_search now (ok identity) =
        find_active_enterprise_accreditation contract now identity.wallet_address

    abbrev pub status_for :
        String → Result String CreatedIdentity → Result String RegistrationStatus
    status_for id (throw e) = throw e
    status_for id (ok identity) = data_of (service.status id)

    abbrev pub is_approved : Result String RegistrationStatus → Option String → Bool
    is_approved (throw e) searched = false
    is_approved (ok reply) searched =
        reply.status == "Approved"
        && (if truthy reply.accreditation_id then true else truthy searched)

    unfoldable pub handle_poll_enterprise_approval :
        Inputs → ℕ → App storage agent Server → App storage agent Server
    unfolding ensure_identity_created poll_started poll_ended find_active_enterprise_accreditation
    handle_poll_enterprise_approval inputs now app =
        if not (truthy app.wizard.enterprise_request_id)
        then app
        else let (made, app1) = ensure app.wizard inputs (set_wizard poll_started app) in
          let answer = status_for (get_or app.wizard.enterprise_request_id "") made in
          let searched = approval_search now made in
          let app2 = set_wizard (poll_ended answer searched) app1 in
          if is_approved answer searched then remove_request app2 else app2

    -- The effect of mounting: a request that was stored is taken up and asked for once.
    abbrev pub restored :
        Result String RegistrationStatus → App storage agent Server → App storage agent Server
    restored (throw e) app = app
    restored (ok reply) app =
        if reply.status == "Approved" && truthy reply.accreditation_id
        then remove_request (set_wizard (restored_answered reply) app)
        else app

    unfoldable pub restore_request : App storage agent Server → App storage agent Server
    unfolding restored_answered
    restore_request app =
        let saved = storage.async.get_item enterprise_request_key app.device.async_items in
        let id = get_or saved "" in
        if not (is_enterprise app.wizard.account_type)
        then app
        else if not (truthy saved)
        then app
        else restored (data_of (service.status id))
            (set_wizard (λ (w : Wizard). record w { enterprise_request_id = some id }) app)
