-- ===== src/Wallet/Editing/Laws.antt =====
-- screens/EditPersonalProfileScreen.tsx: what a save leaves behind, on every way through it.
use did_wallet_thesis.Common.{
  ℕ, String, true, false, none, some, Result, ok, throw, ◌==◌, ◌≡◌, refl, ap, ◌∙◌, ◌⊎◌, inl, inr,
  Result-cases,
}
use did_wallet_thesis.Common.Text.{has_char}
use did_wallet_thesis.Common.Trim.{trim}
use did_wallet_thesis.Wallet.Account.{
  DeviceStorage, ProfileCipher, ProfileJson, Device, get_secret_key, get_wallet_profile,
  save_wallet_profile, update_wallet_profile,
}
use did_wallet_thesis.Wallet.Account.Laws.{get_wallet_profile-save_wallet_profile}
use did_wallet_thesis.Wallet.Did.{
  VeramoAgent, Curve, RegisterRequest, RegisterAnswer, update_registered_profile,
}
use did_wallet_thesis.Wallet.Registration.Finish.{WalletProfile}
use did_wallet_thesis.Wallet.Editing.{
  PersonalWalletProfile, Editor, patch_of, clean_name, validation, commit, saved, save,
}

module _ (storage : DeviceStorage) (cipher : ProfileCipher) (json : ProfileJson WalletProfile)
    (agent : VeramoAgent) (curve : Curve) where
  updated_lem :
      (iv secret_key : String) (existing : WalletProfile) (patch : WalletProfile → WalletProfile)
      (d : Device storage)
      → get_wallet_profile storage cipher json d ≡ some existing
      → get_secret_key storage cipher json d ≡ some secret_key
      → (secret_key == "") ≡ false
      → ((update_wallet_profile storage cipher json iv patch d).0 ≡ ok tt)
        × ((update_wallet_profile storage cipher json iv patch d).1
            ≡ (save_wallet_profile storage cipher json iv (patch existing) d).1)
  unfolding update_wallet_profile save_wallet_profile
  updated_lem iv secret_key existing patch d readable held full =
      rw (update_wallet_profile, readable, save_wallet_profile, held, full) (refl, refl)

  abbrev edit : Editor storage agent → WalletProfile → WalletProfile
  edit st = patch_of storage cipher json agent curve st

  -- How the identity service took the change.
  abbrev pub registered :
      (RegisterRequest → Result String RegisterAnswer)
      → ℕ
      → PersonalWalletProfile
      → Editor storage agent
      → Result String (Unit {0})
  registered post timestamp p st =
      (update_registered_profile agent curve post (get_secret_key storage cipher json st.device)
        p.base.did p.base.wallet_address (clean_name storage cipher json agent curve st)
        (trim st.email) timestamp st.did_service).0

  abbrev committed :
      (RegisterRequest → Result String RegisterAnswer)
      → String
      → ℕ
      → PersonalWalletProfile
      → Editor storage agent
      → Result String (Unit {0}) × Editor storage agent
  committed post iv timestamp p st =
      commit storage cipher json agent curve post iv timestamp p (record st { saving = true })

  save-committed :
      (post : RegisterRequest → Result String RegisterAnswer) (iv : String) (timestamp : ℕ)
      (p : PersonalWalletProfile) (st : Editor storage agent)
      → validation st.first_name st.last_name st.email ≡ none
      → st.profile ≡ some p
      → save storage cipher json agent curve post iv timestamp st
        ≡ saved storage cipher json agent curve
            (committed post iv timestamp p st).0
            (committed post iv timestamp p st).1
  unfolding save
  save-committed post iv timestamp p st valid here = rw (save, valid, here) refl

  committed-refused :
      (post : RegisterRequest → Result String RegisterAnswer) (iv : String) (timestamp : ℕ)
      (p : PersonalWalletProfile) (st : Editor storage agent) (e : String)
      → registered post timestamp p st ≡ throw e
      → ((committed post iv timestamp p st).0 ≡ throw e)
        × ((committed post iv timestamp p st).1.device ≡ st.device)
        × ((committed post iv timestamp p st).1.went_back ≡ st.went_back)
  unfolding commit
  committed-refused post iv timestamp p st e refused = rw (commit, refused) (refl, refl, refl)

  committed-accepted :
      (post : RegisterRequest → Result String RegisterAnswer) (iv : String) (timestamp : ℕ)
      (p : PersonalWalletProfile) (st : Editor storage agent)
      → registered post timestamp p st ≡ ok tt
      → let (outcome, device) = update_wallet_profile storage cipher json iv (edit st) st.device in
        ((committed post iv timestamp p st).0 ≡ outcome)
        × ((committed post iv timestamp p st).1.device ≡ device)
  unfolding commit
  committed-accepted post iv timestamp p st accepted = rw (commit, accepted) (refl, refl)

  abbrev save_of : Result String (Unit {0}) → Editor storage agent → Editor storage agent
  save_of outcome st = saved storage cipher json agent curve outcome st

  -- Saving valid changes is all or nothing on the device: if the identity service does not take them, the
  -- screen stays with that error and the device is as it was; if it does, the screen is left, and the
  -- profile that is read from the device is the one before with the new names, e-mail and birth date. It
  -- is assumed that the profile and the key can be read, that neither the nonce nor the encrypted text
  -- has a dot, and that the new profile decrypts and parses.
  pub save_lem :
      (post : RegisterRequest → Result String RegisterAnswer) (iv : String) (timestamp : ℕ)
      (p : PersonalWalletProfile) (existing : WalletProfile) (secret_key : String)
      (st : Editor storage agent)
      → validation st.first_name st.last_name st.email ≡ none
      → st.profile ≡ some p
      → get_wallet_profile storage cipher json st.device ≡ some existing
      → get_secret_key storage cipher json st.device ≡ some secret_key
      → (secret_key == "") ≡ false
      → has_char b'.' iv ≡ false
      → let changed = patch_of storage cipher json agent curve st existing in
        let key = cipher.derive_profile_key secret_key in
        let ct = cipher.encrypt key iv (json.write changed) in
        has_char b'.' ct ≡ false
        → cipher.decrypt key iv ct ≡ some (json.write changed)
        → json.read (json.write changed) ≡ some changed
        → let st' = save storage cipher json agent curve post iv timestamp st in
          ((e : String) × (registered post timestamp p st ≡ throw e)
            × (st'.alert ≡ some ("Could not save changes", e))
            × (st'.went_back ≡ st.went_back)
            × (st'.device ≡ st.device))
          ⊎ ((registered post timestamp p st ≡ ok tt)
              × (st'.went_back ≡ true)
              × (get_wallet_profile storage cipher json st'.device ≡ some changed))
  save_lem post iv timestamp p existing secret_key st valid here readable held full no_dot no_dot'
        decrypts parses =
      let e0 = save-committed post iv timestamp p st valid here in
      let st1 = (committed post iv timestamp p st).1 in
      elim (Result-cases (registered post timestamp p st)) [
        | inr (e, refused) ↦
            let (outcome, device, back) = committed-refused post iv timestamp p st e refused in
            let e1 = e0 ∙ ap (λ (o : Result String (Unit {0})). save_of o st1) outcome in
            inl (
              e,
              refused,
              ap (λ (x : Editor storage agent). x.alert) e1,
              ap (λ (x : Editor storage agent). x.went_back) e1 ∙ back,
              ap (λ (x : Editor storage agent). x.device) e1 ∙ device,
            )
        | inl (done, accepted) ↦
            let (outcome, device) = committed-accepted post iv timestamp p st accepted in
            let (written, new) =
              updated_lem iv secret_key existing (edit st) st.device readable held full in
            let e1 =
              e0 ∙ ap (λ (o : Result String (Unit {0})). save_of o st1) (outcome ∙ written) in
            inr (
              accepted,
              ap (λ (x : Editor storage agent). x.went_back) e1,
              ap (get_wallet_profile storage cipher json)
                    (ap (λ (x : Editor storage agent). x.device) e1 ∙ device ∙ new)
                  ∙ get_wallet_profile-save_wallet_profile storage cipher json iv secret_key
                      (edit st existing) st.device held full no_dot no_dot' decrypts parses,
            )
      ]
