-- ===== src/Wallet/Registration/Complete.antt =====
-- screens/RegistrationWizardScreen.tsx: handleFinish, from the consents on.
use did_wallet_thesis.Common.{
  ℕ, ◌≡◌, refl, ap, ◌∙◌, String, Bool, true, false, not, ◌&&◌, Option, some, List, ◌∷◌, ◌==◌,
  Result, ok, run_then_ok, arith, is_some,
}
use did_wallet_thesis.Common.Text.{has_char}
use did_wallet_thesis.Wallet.Pin.{Argon2Options, setup_pin, verify_pin, derive_pin_hash, to_hex}
use did_wallet_thesis.Wallet.Pin.Setup.{setup_pin-IsConfigured, setup_pin_status}
use did_wallet_thesis.Wallet.Account.{
  DeviceStorage, ProfileCipher, ProfileJson, Device, get_secret_key, get_wallet_profile,
  save_wallet_profile, complete_wallet_setup, has_wallet, is_session_active,
}
use did_wallet_thesis.Wallet.Account.Laws.{
  get_wallet_profile-save_wallet_profile, has_wallet-complete_wallet_setup,
}
use did_wallet_thesis.Wallet.Did.{VeramoAgent, Curve, RegisterRequest}
use did_wallet_thesis.Wallet.Registration.{Wizard, EuCountry, is_personal, filled}
use did_wallet_thesis.Wallet.Registration.Events.{step_number, Reached}
use did_wallet_thesis.Wallet.Registration.Reach.{Reached-IsSound}
use did_wallet_thesis.Wallet.Registration.Finish.{
  WalletProfile, CreatedIdentity, Inputs, App, profile_of, ensure_identity_created, commit_device,
  finish,
}
use did_wallet_thesis.Wallet.Registration.Pieces.{
  sound-is_six_digits, profile_of-accredited, verify_pin-flags, flags, pinned,
  get_secret_key-pinned, saved_lem, completed_lem, after_save,
}

module _ (storage : DeviceStorage) (cipher : ProfileCipher) (json : ProfileJson WalletProfile)
    (dev : Bool) (argon2 : String → String → Argon2Options → String) where
  open storage use {secure}

  module _ (agent : VeramoAgent) (curve : Curve) {Server : Type 0}
      (register : RegisterRequest → Server → Server) where
    abbrev commit :
        Wizard
        → CreatedIdentity
        → Inputs
        → Device storage
        → Result String (Unit {0}) × Device storage
    commit w identity inputs d =
        commit_device storage cipher json dev argon2 agent curve register w identity inputs d

    commit_device-steps :
        (w : Wizard) (identity : CreatedIdentity) (inputs : Inputs) (profile : WalletProfile)
        (d : Device storage)
        → (setup_pin secure dev argon2 w.state.pin inputs.salt d.secure_items).0 ≡ ok tt
        → profile_of w identity ≡ ok profile
        → (save_wallet_profile storage cipher json inputs.iv profile
            (pinned storage cipher json dev argon2 w inputs d)).0
          ≡ ok tt
        → commit w identity inputs d
          ≡ complete_wallet_setup storage cipher json
              (after_save storage cipher json dev argon2 w inputs profile d)
    unfolding commit_device pinned
    commit_device-steps w identity inputs profile d configured built saved =
        run_then_ok _ tt _ configured ∙ run_then_ok _ profile _ built ∙ run_then_ok _ tt _ saved

    finish-commit :
        (w : Wizard) (identity : CreatedIdentity) (inputs : Inputs)
        (app app1 : App storage agent Server)
        → (is_personal w.account_type && not (filled w.state.birth_date)) ≡ false
        → ensure_identity_created storage cipher json dev argon2 agent curve register w inputs app
          ≡ (ok identity, app1)
        → let (outcome, app') =
            finish storage cipher json dev argon2 agent curve register w inputs app in
          (outcome ≡ (commit w identity inputs app1.device).0)
          × (app'.device ≡ (commit w identity inputs app1.device).1)
    unfolding finish
    finish-commit w identity inputs app app1 dated created =
        rw (finish, dated, created) (refl, refl)

    -- Whatever led the wizard to the consents, handing in the form there completes the registration, if
    -- the birth date of a person is there and the identity can be created, which leaves the key of the
    -- wallet on the device: the code throws nothing, the profile that it builds reads back, the device has
    -- a wallet with an active session, and the PIN that was confirmed is accepted at any time. It is
    -- assumed that the generator returns a byte, argon2 a hash, that no encrypted text and no nonce has
    -- a dot, that the text of a profile decrypts and that the profile is read as it was written.
    pub finish_lem :
        (countries : List EuCountry) (compute_address : String → Option String) (w : Wizard)
        (identity : CreatedIdentity) (uuid1 uuid2 iv : String) (b : ℕ) (buf : List ℕ)
        (timestamp : ℕ) (app app1 : App storage agent Server) (secret_key : String) (now at : ℕ)
        → Reached countries compute_address w
        → step_number w.step ≡ 5
        → (is_personal w.account_type && not (filled w.state.birth_date)) ≡ false
        → let inputs : Inputs = record {
          uuid1 = uuid1;
          uuid2 = uuid2;
          iv = iv;
          salt = b ∷ buf;
          timestamp = timestamp;
        } in
          ensure_identity_created storage cipher json dev argon2 agent curve register w inputs app
            ≡ (ok identity, app1)
          → get_secret_key storage cipher json app1.device ≡ some secret_key
          → (secret_key == "") ≡ false
          → (derive_pin_hash secure dev argon2 w.state.pin (to_hex (b ∷ buf)) == "") ≡ false
          → has_char b'.' iv ≡ false
          → ((key text : String) → has_char b'.' (cipher.encrypt key iv text) ≡ false)
          → ((key : String) (profile : WalletProfile)
              → cipher.decrypt key iv (cipher.encrypt key iv (json.write profile))
                ≡ some (json.write profile))
          → ((profile : WalletProfile)
              → profile_of w identity ≡ ok profile
              → json.read (json.write profile) ≡ some profile)
          → let (outcome, app') =
              finish storage cipher json dev argon2 agent curve register w inputs app in
            (outcome ≡ ok tt)
            × ((profile : WalletProfile) × (profile_of w identity ≡ ok profile)
                × (get_wallet_profile storage cipher json app'.device ≡ some profile))
            × (has_wallet storage cipher json app'.device ≡ true)
            × (is_session_active storage cipher json app'.device ≡ true)
            × ((verify_pin secure dev argon2 w.state.pin now at app'.device.secure_items).0
                ≡ ok true)
    unfolding pinned
    finish_lem countries compute_address w identity uuid1 uuid2 iv b buf timestamp app app1
          secret_key now at reached here dated created held full hashed no_dot no_dots decrypts
          parses =
        let inputs : Inputs = record {
          uuid1 = uuid1;
          uuid2 = uuid2;
          iv = iv;
          salt = b ∷ buf;
          timestamp = timestamp;
        } in
        let sound = Reached-IsSound countries compute_address w reached in
        let d = app1.device in
        let six = sound-is_six_digits countries w here sound in
        let (configured, unlocked, _, _, _) =
          setup_pin_status secure dev argon2 w.state.pin (b ∷ buf) now d.secure_items six in
        let c =
          setup_pin-IsConfigured secure dev argon2 w.state.pin b buf d.secure_items six hashed in
        let (profile, built) =
          profile_of-accredited w identity (sound.has_accreditation (ground arith)) in
        let held1 = get_secret_key-pinned storage cipher json dev argon2 w inputs d six ∙ held in
        let (saved, kept) =
          saved_lem storage cipher json dev argon2 iv secret_key profile
            (pinned storage cipher json dev argon2 w inputs d) held1 full in
        let readable =
          get_wallet_profile-save_wallet_profile storage cipher json iv secret_key profile
            (pinned storage cipher json dev argon2 w inputs d) held1 full no_dot (no_dots _ _)
            (decrypts _ profile) (parses profile built) in
        let d3 = after_save storage cipher json dev argon2 w inputs profile d in
        let (done, flagged, readable') =
          completed_lem storage cipher json dev argon2 profile d3 readable in
        let (wallet, active) = has_wallet-complete_wallet_setup storage cipher json d3 in
        let steps = commit_device-steps w identity inputs profile d configured built saved in
        let (outcome, left) = finish-commit w identity inputs app app1 dated created in
        let left' = left ∙ ap (λ (x : Result String (Unit {0}) × Device storage). x.1) steps in
        (
          outcome ∙ ap (λ (x : Result String (Unit {0}) × Device storage). x.0) steps ∙ done,
          (profile, built, ap (get_wallet_profile storage cipher json) left' ∙ readable'),
          ap (has_wallet storage cipher json) left' ∙ wallet ∙ ap is_some readable,
          ap (is_session_active storage cipher json) left' ∙ active ∙ rw readable refl,
          ap (λ (items : secure.Store). (verify_pin secure dev argon2 w.state.pin now at items).0)
                (ap (λ (x : Device storage). x.secure_items) left'
                  ∙ flagged
                  ∙ ap (flags secure dev argon2) kept)
              ∙ verify_pin-flags secure dev argon2 (to_hex (b ∷ buf)) _ w.state.pin now at _ c
                  unlocked refl,
        )
