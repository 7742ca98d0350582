-- ===== src/Wallet/Account/Tests.antt =====
-- services/authService.ts and context/AuthContext.tsx: runs on concrete stores.
use did_wallet_thesis.Common.{
  ◌≡◌, refl, String, true, false, Option, none, some, ◌==◌, if◌then◌else◌,
}
use did_wallet_thesis.Common.Text.{has_char}
use did_wallet_thesis.Wallet.Storage.{function_store, empty_store}
use did_wallet_thesis.Wallet.Account.{
  DeviceStorage, ProfileCipher, ProfileJson, Device, get_secret_key, get_wallet_profile,
  save_wallet_profile, has_wallet, plaintext_of, clear_session, decrypt_profile,
}
use did_wallet_thesis.Wallet.Account.Laws.{get_wallet_profile-save_wallet_profile}
use did_wallet_thesis.Wallet.Account.Lock.{
  AuthContext, on_authenticated, app_state_changed, background, loading, handle, is_authenticated,
  Reached, initial, after, background_locks,
}

abbrev storage : DeviceStorage
storage = record {
  secure = function_store;
  async = function_store;
  cleared = empty_store;
  get-cleared = λ key. refl;
}

-- A stand-in that decrypts only under the nonce `iv`.
abbrev cipher : ProfileCipher
cipher = record {
  derive_profile_key = λ secret. secret;
  encrypt = λ key iv plaintext. plaintext;
  decrypt = λ key iv text. if iv == "iv" then some text else none;
}

-- Profiles that are their own text.
abbrev json : ProfileJson String
json = record { write = λ profile. profile; read = λ text. some text }

abbrev device : Option String → Option String → Device storage
device secret raw = record {
  secure_items = λ key. if key == "wallet.secretKey" then secret else none;
  async_items = λ key. if key == "wallet.profile" then raw else none;
}

get_wallet_profile-save_wallet_profile_example :
    get_wallet_profile storage cipher json
      (save_wallet_profile storage cipher json "iv" "{}" (device (some "k") none)).1
    ≡ some "{}"
get_wallet_profile-save_wallet_profile_example =
    get_wallet_profile-save_wallet_profile storage cipher json "iv" "k" "{}"
      (device (some "k") none) (unfold get_secret_key in refl) refl (unfold has_char in refl)
      (unfold has_char in refl) refl refl

-- A profile that an older version stored as plain text, with a `.` in it, cannot be read.
plain_profile_lost :
    (get_wallet_profile storage cipher json (device (some "k") (some "{a@b.c}")) ≡ none)
    × (has_wallet storage cipher json (device (some "k") (some "{a@b.c}")) ≡ false)
unfolding get_wallet_profile plaintext_of get_secret_key has_char decrypt_profile has_wallet
plain_profile_lost = (refl, refl)

abbrev first_state : AuthContext storage
first_state = record {
  state = loading;
  wallet_exists = false;
  device = device (some "k") (some "{}");
}

unlocked :
    Reached storage cipher json true (handle storage cipher json true on_authenticated first_state)
unlocked = after on_authenticated first_state (initial (device (some "k") (some "{}")))

background_locks_example :
    let st = handle storage cipher json true on_authenticated first_state in
    let st' = handle storage cipher json true (app_state_changed background) st in
    (is_authenticated st'.state ≡ false)
    × (st'.wallet_exists ≡ st.wallet_exists)
    × (st'.device ≡ (
        if is_authenticated st.state
        then clear_session storage cipher json st.device
        else st.device))
background_locks_example =
    background_locks storage cipher json true
      (handle storage cipher json true on_authenticated first_state) unlocked
