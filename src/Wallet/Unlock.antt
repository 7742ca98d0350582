-- ===== src/Wallet/Unlock.antt =====
-- screens/UnlockSplashScreen.tsx and the lock of screens/WalletScreen.tsx: unlocking by the platform's
-- biometric check or by the PIN. The platform's answers are arguments, and so are the readings of the
-- clock: `now` when the PIN is checked, `at` when a failure is recorded, `later` for the message.
pub mod Laws
pub mod Cleared
pub mod WalletLock
mod Tests
use Prim.Native.String
use Prim.Native.String.{count}
use did_wallet_thesis.Common.{
  ℕ, ◌+◌, ◌-◌, ◌/◌, String, Bool, true, false, not, ◌&&◌, Option, none, some, Result, ok, throw,
  ◌==◌, eqb, ltb, if◌then◌else◌, truthy, get_or, List, includes,
}
use did_wallet_thesis.Common.Decimal.{print}
use did_wallet_thesis.Common.Trim.{drop_last}
use did_wallet_thesis.Wallet.Keypad.{Key, erase, key_text, press_key}
use did_wallet_thesis.Wallet.Storage.{KeyValueStore}
use did_wallet_thesis.Wallet.Pin.{
  Argon2Options, PinStatus, get_status, verify_pin, clear_pin, number_text,
}
use did_wallet_thesis.Wallet.Account.{
  DeviceStorage, ProfileCipher, ProfileJson, Device, set_session_active,
}

pub record BiometricResult : Type 0 where
  pub success : Bool
  pub error : Option String

-- expo-local-authentication; the kinds of a check by their names.
pub record LocalAuthentication : Type 0 where
  pub has_hardware : Result String Bool
  pub is_enrolled : Result String Bool
  pub authenticate : Result String BiometricResult
  pub supported_types : Result String (List String)

pub record UnlockSplash (storage : DeviceStorage) : Type 0 where
  pub loading : Bool
  pub error : Option String
  pub show_pin_fallback : Bool
  pub pin : String
  pub biometric_label : String
  pub device : Device storage
  pub authenticated : Bool

abbrev pub or_text : String → String → String
or_text s d = if s == "" then d else s

-- `Math.ceil((lockedUntil - Date.now()) / 1000)`, where `null` is 0 and NaN stays NaN; a lock that has
-- run out in between would show 0 here, and a number below it in the source.
abbrev pub remaining_seconds : Option (Option ℕ) → ℕ → Option ℕ
remaining_seconds none now = some 0
remaining_seconds (some none) now = none
remaining_seconds (some (some until)) now = some ((until - now + 999) / 1000)

abbrev pub locked_message : Option (Option ℕ) → ℕ → String
locked_message until now =
    String.◌++◌ "Too many attempts. Try again in "
      (String.◌++◌ (number_text (remaining_seconds until now)) "s.")

abbrev pub both : Result String Bool → Result String Bool → Result String Bool
both (throw e) enrolled = throw e
both (ok hardware) (throw e) = throw e
both (ok hardware) (ok enrolled) = ok (hardware && enrolled)

module _ {A : Type 0} (storage : DeviceStorage) (cipher : ProfileCipher)
    (json : ProfileJson A) where
  unfoldable pub label_of : Result String (List String) → String
  label_of (throw e) = "device passcode"
  label_of (ok types) =
      if includes types "FACIAL_RECOGNITION"
      then "Face ID"
      else if includes types "FINGERPRINT"
      then "Touch ID"
      else elim types [ List.[] ↦ "device passcode" | List.◌∷◌ t ts ↦ "biometrics" ]

  unfoldable pub detect_biometric_label :
      LocalAuthentication → UnlockSplash storage → UnlockSplash storage
  unfolding label_of
  detect_biometric_label platform st = record st {
    biometric_label = label_of platform.supported_types;
  }

  abbrev pub admit : UnlockSplash storage → UnlockSplash storage
  admit st = record st {
    device = set_session_active storage cipher json st.device;
    authenticated = true;
    loading = false;
  }

  abbrev pub is_cancelled : Option String → Bool
  is_cancelled none = true
  is_cancelled (some e) =
      if e == "" then true else if e == "user_cancel" then true else e == "system_cancel"

  unfoldable pub biometric_ended :
      Result String BiometricResult → UnlockSplash storage → UnlockSplash storage
  unfolding set_session_active
  biometric_ended (throw e) st = record st {
    error = some (or_text e "Failed to unlock wallet");
    loading = false;
  }
  biometric_ended (ok result) st =
      if result.success
      then admit st
      else if is_cancelled result.error
      then record st { loading = false }
      else record st { error = some "Biometric check did not complete."; loading = false }

  unfoldable pub handle_unlock : LocalAuthentication → UnlockSplash storage → UnlockSplash storage
  unfolding biometric_ended
  handle_unlock platform st =
      let begun = record st { loading = true; error = none } in
      if st.loading then st else elim (both platform.has_hardware platform.is_enrolled) [
        | throw e ↦ record begun {
          error = some (or_text e "Failed to unlock wallet");
          loading = false;
        }
        | ok available ↦
            if available
            then biometric_ended platform.authenticate begun
            else record begun { show_pin_fallback = true; loading = false }
      ]

module _ {A : Type 0} (storage : DeviceStorage) (cipher : ProfileCipher) (json : ProfileJson A)
    (dev : Bool) (argon2 : String → String → Argon2Options → String) where
  open storage use {secure}

  -- `pin` after a key: `pin.slice(0, -1)`, the digit appended, or as it is when it is full.
  unfoldable pub next_pin : Key → String → String
  unfolding press_key
  next_pin key pin = get_or (press_key key pin) pin

  abbrev pub wrong_pin_message : PinStatus → String
  wrong_pin_message status =
      if status.offer_wipe
      then "Too many wrong PINs. Consider wiping and re-registering."
      else "Incorrect PIN. Try again."

  -- What follows `verifyPin`, whose writes are in the device already.
  unfoldable pub verified : Result String Bool → ℕ → UnlockSplash storage → UnlockSplash storage
  unfolding get_status clear_pin set_session_active
  verified (ok true) later st = admit storage cipher json st
  verified (ok false) later st = record st {
    error = some (wrong_pin_message (get_status secure later st.device.secure_items));
    pin = "";
    loading = false;
  }
  verified (throw e) later st =
      if e == "PIN_ALGO_MISMATCH"
      then (record st {
        device = record st.device { secure_items = clear_pin secure st.device.secure_items };
        error = some "Security upgrade required. Please re-register your PIN.";
        pin = "";
        loading = false;
      })
      else (record st { error = some (or_text e "PIN check failed."); pin = ""; loading = false })

  unfoldable pub check_pin : String → ℕ → ℕ → ℕ → UnlockSplash storage → UnlockSplash storage
  unfolding get_status verify_pin verified
  check_pin next now at later st =
      let status = get_status secure now st.device.secure_items in
      let (outcome, items) = verify_pin secure dev argon2 next now at st.device.secure_items in
      if status.is_locked
      then (record st {
        error = some (locked_message status.locked_until now);
        pin = "";
        loading = false;
      })
      else verified outcome later
          (record st { device = record st.device { secure_items = items }; error = none })

  unfoldable pub handle_pin_digit : Key → ℕ → ℕ → ℕ → UnlockSplash storage → UnlockSplash storage
  unfolding next_pin check_pin
  handle_pin_digit key now at later st =
      let next = next_pin key st.pin in
      if st.loading
      then st
      else if eqb (count next) 6
      then check_pin next now at later (record st { pin = next })
      else record st { pin = next }
