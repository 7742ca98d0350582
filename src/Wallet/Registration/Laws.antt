-- ===== src/Wallet/Registration/Laws.antt =====
-- screens/RegistrationWizardScreen.tsx: the gating step.
use Prim.Native.String
use did_wallet_thesis.Common.{
  ℕ, String, true, false, Option, none, some, Result, ok, throw, truthy, ◌≡◌, refl, arith,
  Bool-cases, Result-cases, inl, inr, ap, sym, is_thrown, ◌∙◌,
}
use mathlib.Core.Bool.{true≢false}
use did_wallet_thesis.Common.Text.{to_lower}
use did_wallet_thesis.Common.Trim.{trim}
use did_wallet_thesis.Wallet.Account.{
  DeviceStorage, ProfileCipher, ProfileJson, create_wallet, get_secret_key,
}
use did_wallet_thesis.Wallet.Did.{VeramoAgent, Curve, DidInfo, get_or_create_identity}
use did_wallet_thesis.Wallet.Lookup.{RegistryContract, find_active_institution_accreditation}
use did_wallet_thesis.Wallet.Registration.{Wizard, set_identity, normalized, go}
use did_wallet_thesis.Wallet.Registration.Events.{
  request_started, check_ended, step_number, accredited,
}
use did_wallet_thesis.Wallet.Registration.Finish.{WalletProfile, Inputs, App}
use did_wallet_thesis.Wallet.Registration.Gate.{
  looked_up, check_address, handle_check_university_accreditation,
}

check_ended-accredited :
    (outcome : Result String (Option String)) (w : Wizard)
    → (step_number w.step ≡ 3 → ⊥)
    → step_number (check_ended outcome w).step ≡ 3
    → outcome ≡ ok (some (check_ended outcome w).accreditation_id)
unfolding check_ended accredited go
check_ended-accredited (throw e) w before h = absurd (before h)
check_ended-accredited (ok none) w before h = absurd (before h)
check_ended-accredited (ok (some id)) w before h = elim (Bool-cases (truthy (some id))) [
  | inl found ↦ rw found refl
  | inr empty ↦ absurd (ground arith)
]

check_ended-wallet_address :
    (outcome : Result String (Option String)) (w : Wizard)
    → (check_ended outcome w).wallet_address ≡ w.wallet_address
unfolding check_ended accredited go
check_ended-wallet_address (throw e) w = refl
check_ended-wallet_address (ok id) w = elim (Bool-cases (truthy id)) [
  | inl found ↦ rw found refl
  | inr missing ↦ rw missing refl
]

looked_up-found :
    (contract : RegistryContract String) (made : Result String DidInfo) (now : ℕ)
    (address id : String)
    → looked_up contract made now address ≡ ok (some id)
    → find_active_institution_accreditation contract now address ≡ ok (some id)
looked_up-found contract (throw e) now address id h = absurd (true≢false (ap is_thrown h))
looked_up-found contract (ok info) now address id h = h

module _ (storage : DeviceStorage) (cipher : ProfileCipher) (json : ProfileJson WalletProfile)
    (agent : VeramoAgent) (curve : Curve) {Server : Type 0} where
  module _ (contract : RegistryContract String) (wallet_of : String → Result String String) where
    abbrev identified : String → App storage agent Server → Wizard
    identified address app =
        set_identity (String.◌++◌ "did:ethr:sepolia:" (to_lower address)) address
          (request_started app.wizard)

    abbrev made_for : Inputs → App storage agent Server → Result String DidInfo
    made_for inputs app =
        (get_or_create_identity agent curve
          (get_secret_key storage cipher json
            (create_wallet storage cipher json inputs.uuid1 inputs.uuid2 app.device).1)
          app.did_service).0

    abbrev check : Inputs → ℕ → App storage agent Server → App storage agent Server
    check inputs now app =
        handle_check_university_accreditation storage cipher json agent curve contract wallet_of
          inputs now app

    check-address :
        (address : String) (inputs : Inputs) (now : ℕ) (app : App storage agent Server)
        → truthy app.wizard.derived_address ≡ true
        → wallet_of (normalized (trim app.wizard.university_private_key)) ≡ ok address
        → ((check inputs now app).wizard
            ≡ check_ended
                (looked_up contract (made_for inputs app) now address)
                (identified address app))
          × ((check inputs now app).device
              ≡ (create_wallet storage cipher json inputs.uuid1 inputs.uuid2 app.device).1)
    unfolding handle_check_university_accreditation check_address
    check-address address inputs now app derived known =
        rw (handle_check_university_accreditation, derived, known) (refl, refl)

    check-missing :
        (inputs : Inputs) (now : ℕ) (app : App storage agent Server)
        → truthy app.wizard.derived_address ≡ false
        → (check inputs now app).wizard.step ≡ app.wizard.step
    unfolding handle_check_university_accreditation
    check-missing inputs now app missing = rw (handle_check_university_accreditation, missing) refl

    check-refused :
        (e : String) (inputs : Inputs) (now : ℕ) (app : App storage agent Server)
        → truthy app.wizard.derived_address ≡ true
        → wallet_of (normalized (trim app.wizard.university_private_key)) ≡ throw e
        → (check inputs now app).wizard.step ≡ app.wizard.step
    unfolding handle_check_university_accreditation
    check-refused e inputs now app derived refused =
        rw (handle_check_university_accreditation, derived, refused) refl

    -- A university that comes to the PIN by the check of its key has an accreditation that the search
    -- found for the address of that key, and that address is the wallet's; the device holds what
    -- `createWallet` leaves on it, in which the key that was typed has no part.
    pub handle_check_university_accreditation_lem :
        (inputs : Inputs) (now : ℕ) (app : App storage agent Server)
        → (step_number app.wizard.step ≡ 3 → ⊥)
        → let app' =
            handle_check_university_accreditation storage cipher json agent curve contract wallet_of
              inputs now app in
          step_number app'.wizard.step ≡ 3
          → (address : String) × (wallet_of (normalized (trim app.wizard.university_private_key))
              ≡ ok address)
            × (find_active_institution_accreditation contract now address
                ≡ ok (some app'.wizard.accreditation_id))
            × (app'.wizard.wallet_address ≡ address)
            × (app'.device
                ≡ (create_wallet storage cipher json inputs.uuid1 inputs.uuid2 app.device).1)
    handle_check_university_accreditation_lem inputs now app before h =
        elim (Bool-cases (truthy app.wizard.derived_address)) [
          | inr missing ↦
              absurd (before (sym (ap step_number (check-missing inputs now app missing)) ∙ h))
          | inl derived ↦
              elim (Result-cases
                (wallet_of (normalized (trim app.wizard.university_private_key)))) [
                  | inr (e, refused) ↦ absurd (
                      before
                        (sym (ap step_number (check-refused e inputs now app derived refused)) ∙ h))
                  | inl (address, known) ↦
                      let (w', d') = check-address address inputs now app derived known in
                      let outcome = looked_up contract (made_for inputs app) now address in
                      let at_pin = sym (ap (λ (w : Wizard). step_number w.step) w') ∙ h in
                      (
                        address,
                        known,
                        looked_up-found contract (made_for inputs app) now address _ (
                            check_ended-accredited outcome (identified address app)
                              (unfold set_identity request_started in before) at_pin
                            ∙ ap (λ (w : Wizard). ok (some w.accreditation_id)) (sym w')),
                        ap (λ (w : Wizard). w.wallet_address) w'
                            ∙ check_ended-wallet_address outcome (identified address app)
                            ∙ (unfold set_identity in refl),
                        d',
                      )
                ]
        ]
