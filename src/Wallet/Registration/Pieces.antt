-- ===== src/Wallet/Registration/Pieces.antt =====
-- screens/RegistrationWizardScreen.tsx: the pieces of handleFinish, each from a sound wizard.
use did_wallet_thesis.Common.{
  ℕ, ◌≡◌, refl, ◌∙◌, String, Bool, true, false, some, List, ◌==◌, ok, arith,
}
use did_wallet_thesis.Common.Trim.{trim}
use did_wallet_thesis.Wallet.Storage.{KeyValueStore}
use did_wallet_thesis.Wallet.Pin.{
  Argon2Options, setup_pin, verify_pin, derive_pin_hash, get_status, is_six_digits,
}
use did_wallet_thesis.Wallet.Pin.View.{IsConfigured}
use did_wallet_thesis.Wallet.Pin.Verify.{verify_pin_correct}
use did_wallet_thesis.Wallet.Account.{
  DeviceStorage, ProfileCipher, ProfileJson, Device, get_secret_key, get_wallet_profile,
  save_wallet_profile, complete_wallet_setup,
}
use did_wallet_thesis.Wallet.Account.Laws.{get_wallet_profile-flags}
use did_wallet_thesis.Wallet.Registration.{
  AccountType, personal, university, enterprise, RegistrationState, Wizard, EuCountry, is_personal,
  filled,
}
use did_wallet_thesis.Wallet.Registration.Events.{step_number}
use did_wallet_thesis.Wallet.Registration.Sound.{IsSound}
use did_wallet_thesis.Wallet.Registration.Finish.{
  WalletProfile, WalletProfileBase, personal_profile, university_profile, enterprise_profile,
  base_of, profile_for, CreatedIdentity, Inputs, profile_of,
}

-- At the consents the PIN can be set up, and a profile can be built.
pub sound-is_six_digits :
    (countries : List EuCountry) (w : Wizard)
    → step_number w.step ≡ 5
    → IsSound countries w
    → is_six_digits w.state.pin ≡ true
unfolding is_six_digits
sound-is_six_digits countries w here p = rw (p.complete (ground arith), p.pin_typed.digits) refl

profile_for-accredited :
    (type : AccountType) (base : WalletProfileBase) (id : String) (st : RegistrationState)
    → (is_personal type ≡ false → filled id ≡ true)
    → (profile : WalletProfile) × (profile_for type base id st ≡ ok profile)
unfolding profile_for
profile_for-accredited personal base id st present =
    (personal_profile base (trim st.first_name) (trim st.last_name) st.birth_date, refl)
profile_for-accredited university base id st present =
    (university_profile base (trim st.legal_name) id, rw (present refl) refl)
profile_for-accredited enterprise base id st present =
    (enterprise_profile base (trim st.legal_name) (trim st.fiscal_code) id, rw (present refl) refl)

pub profile_of-accredited :
    (w : Wizard) (identity : CreatedIdentity)
    → (is_personal w.account_type ≡ false → filled w.accreditation_id ≡ true)
    → (profile : WalletProfile) × (profile_of w identity ≡ ok profile)
unfolding profile_of
profile_of-accredited w identity present =
    profile_for-accredited w.account_type (base_of w identity) w.accreditation_id w.state present

module _ (kv : KeyValueStore) (dev : Bool) (argon2 : String → String → Argon2Options → String) where
  open kv use {Store, get_item, set_item, get-set}

  abbrev pub flags : Store → Store
  flags s = set_item "wallet.sessionActive" "true" (set_item "wallet.created" "true" s)

  pub verify_pin-flags :
      (salt_hex hash pin : String) (now at : ℕ) (s : Store)
      → IsConfigured kv salt_hex hash s
      → (get_status kv now s).is_locked ≡ false
      → derive_pin_hash kv dev argon2 pin salt_hex ≡ hash
      → (verify_pin kv dev argon2 pin now at (flags s)).0 ≡ ok true
  verify_pin-flags salt_hex hash pin now at s c unlocked e =
      (verify_pin_correct kv dev argon2 salt_hex hash pin now at now (flags s)
        (record {
          stored_salt = simp (get-set) c.stored_salt;
          salt_ne_empty = c.salt_ne_empty;
          stored_hash = simp (get-set) c.stored_hash;
          hash_ne_empty = c.hash_ne_empty;
          stored_algo = simp (get-set) c.stored_algo;
        })
        (unfold get_status in simp (get-set) unlocked) e).0

module _ (storage : DeviceStorage) (cipher : ProfileCipher) (json : ProfileJson WalletProfile)
    (dev : Bool) (argon2 : String → String → Argon2Options → String) where
  open storage use {secure}

  unfoldable pub pinned : Wizard → Inputs → Device storage → Device storage
  pinned w inputs d = record d {
    secure_items = (setup_pin secure dev argon2 w.state.pin inputs.salt d.secure_items).1;
  }

  pub get_secret_key-pinned :
      (w : Wizard) (inputs : Inputs) (d : Device storage)
      → is_six_digits w.state.pin ≡ true
      → get_secret_key storage cipher json (pinned w inputs d)
        ≡ get_secret_key storage cipher json d
  unfolding get_secret_key pinned setup_pin
  get_secret_key-pinned w inputs d six =
      rw (setup_pin, six) (simp (secure.get-set, secure.get-delete) refl)

  pub saved_lem :
      (iv secret_key : String) (profile : WalletProfile) (d : Device storage)
      → get_secret_key storage cipher json d ≡ some secret_key
      → (secret_key == "") ≡ false
      → ((save_wallet_profile storage cipher json iv profile d).0 ≡ ok tt)
        × ((save_wallet_profile storage cipher json iv profile d).1.secure_items ≡ d.secure_items)
  unfolding save_wallet_profile
  saved_lem iv secret_key profile d held full = rw (save_wallet_profile, held, full) (refl, refl)

  pub completed_lem :
      (profile : WalletProfile) (d : Device storage)
      → get_wallet_profile storage cipher json d ≡ some profile
      → ((complete_wallet_setup storage cipher json d).0 ≡ ok tt)
        × ((complete_wallet_setup storage cipher json d).1.secure_items
            ≡ flags secure dev argon2 d.secure_items)
        × (get_wallet_profile storage cipher json (complete_wallet_setup storage cipher json d).1
            ≡ some profile)
  unfolding complete_wallet_setup
  completed_lem profile d readable =
      rw (complete_wallet_setup, readable)
        (refl, refl, get_wallet_profile-flags storage cipher json d ∙ readable)

  abbrev pub after_save : Wizard → Inputs → WalletProfile → Device storage → Device storage
  after_save w inputs profile d =
      (save_wallet_profile storage cipher json inputs.iv profile (pinned w inputs d)).1
