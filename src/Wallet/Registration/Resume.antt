-- ===== src/Wallet/Registration/Resume.antt =====
-- screens/RegistrationWizardScreen.tsx: a registration request outlives the wizard that made it.
use did_wallet_thesis.Common.{
  String, Bool, true, false, some, ◌==◌, Result, ok, throw, truthy, ◌≡◌, refl, arith, Bool-cases,
  inl, inr, ap, ◌∙◌,
}
use did_wallet_thesis.Wallet.Pin.{Argon2Options}
use did_wallet_thesis.Wallet.Account.{DeviceStorage, ProfileCipher, ProfileJson}
use did_wallet_thesis.Wallet.Did.{VeramoAgent, Curve, RegisterRequest}
use did_wallet_thesis.Wallet.Lookup.{RegistryContract}
use did_wallet_thesis.Wallet.Registration.{Wizard, filled, enterprise, is_enterprise, mount, go}
use did_wallet_thesis.Wallet.Registration.Events.{
  RegistrationStatus, request_started, submit_ended, restored_answered, accredited,
}
use did_wallet_thesis.Wallet.Registration.Finish.{WalletProfile, CreatedIdentity, Inputs, App}
use did_wallet_thesis.Wallet.Registration.Gate.{
  replied, enterprise_request_key, data_of, AccreditationService, request_of, ensure, submitted,
  put_request, set_wizard, restored, handle_submit_enterprise_request, restore_request,
}

module _ (storage : DeviceStorage) (cipher : ProfileCipher) (json : ProfileJson WalletProfile)
    (agent : VeramoAgent) (curve : Curve) {Server : Type 0} where
  module _ (dev : Bool) (argon2 : String → String → Argon2Options → String)
      (register : RegisterRequest → Server → Server) (service : AccreditationService)
      (contract : RegistryContract String) where
    abbrev reopened : App storage agent Server → App storage agent Server
    reopened app = record app { wizard = mount enterprise app.wizard }

    abbrev restore : App storage agent Server → App storage agent Server
    restore app =
        restore_request storage cipher json agent curve dev argon2 register service contract app

    abbrev submit : Inputs → App storage agent Server → App storage agent Server
    submit inputs app =
        handle_submit_enterprise_request storage cipher json agent curve dev argon2 register service
          contract inputs app

    restored_id :
        (answer : Result String RegistrationStatus) (app : App storage agent Server)
        → (restored storage cipher json agent curve dev argon2 register service contract answer
            app).wizard.enterprise_request_id
          ≡ app.wizard.enterprise_request_id
    unfolding restored_answered accredited go
    restored_id (throw e) app = refl
    restored_id (ok reply) app = elim (Bool-cases (reply.status == "Approved")) [
      | inr waiting ↦ rw waiting refl
      | inl approved ↦ elim (Bool-cases (truthy reply.accreditation_id)) [
        | inl found ↦ rw (approved, found) refl
        | inr missing ↦ rw (approved, missing) refl
      ]
    ]

    restore-saved :
        (app : App storage agent Server) (id : String)
        → is_enterprise app.wizard.account_type ≡ true
        → storage.async.get_item enterprise_request_key app.device.async_items ≡ some id
        → (id == "") ≡ false
        → (restore app).wizard.enterprise_request_id ≡ some id
    unfolding restore_request
    restore-saved app id organisation saved present =
        rw (restore_request, organisation, saved, present)
          (restored_id (data_of (service.status id)) (
            set_wizard storage cipher json agent curve
              (λ (w : Wizard). record w { enterprise_request_id = some id }) app))

    submit-put_request :
        (inputs : Inputs) (app app1 : App storage agent Server) (identity : CreatedIdentity)
        (id : String)
        → ensure storage cipher json agent curve dev argon2 register service contract app.wizard
            inputs
            (set_wizard storage cipher json agent curve request_started app)
          ≡ (ok identity, app1)
        → service.submit (request_of app.wizard.state identity.wallet_address) ≡ ok (replied id)
        → submit inputs app
          ≡ put_request storage cipher json agent curve id
              (set_wizard storage cipher json agent curve (submit_ended (ok id)) app1)
    unfolding handle_submit_enterprise_request submitted
    submit-put_request inputs app app1 identity id made taken =
        rw (handle_submit_enterprise_request, made, taken) refl

    -- A registration request that the accreditation service took is not lost: when the wizard is opened
    -- anew for an enterprise, on the same device, it has the identifier that the service answered.
    pub restore_request-handle_submit_enterprise_request :
        (inputs : Inputs) (app app1 : App storage agent Server) (identity : CreatedIdentity)
        (id : String)
        → ensure storage cipher json agent curve dev argon2 register service contract app.wizard
            inputs
            (set_wizard storage cipher json agent curve request_started app)
          ≡ (ok identity, app1)
        → service.submit (request_of app.wizard.state identity.wallet_address) ≡ ok (replied id)
        → filled id ≡ true
        → (restore (reopened (submit inputs app))).wizard.enterprise_request_id ≡ some id
    unfolding mount
    restore_request-handle_submit_enterprise_request inputs app app1 identity id made taken
          present =
        let kept =
          put_request storage cipher json agent curve id
            (set_wizard storage cipher json agent curve (submit_ended (ok id)) app1) in
        ap (λ (a : App storage agent Server). (restore (reopened a)).wizard.enterprise_request_id)
          (submit-put_request inputs app app1 identity id made taken)
        ∙ restore-saved (reopened kept) id refl
            (storage.async.get-set enterprise_request_key enterprise_request_key id
              app1.device.async_items)
            (ground arith)
