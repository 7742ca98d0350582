-- ===== src/Wallet/Unlock/Tests.antt =====
-- screens/UnlockSplashScreen.tsx: runs on small stores.
use Prim.Native.String
use Prim.Native.String.{count}
use did_wallet_thesis.Common.{
  ◌≡◌, refl, String, true, false, ◌&&◌, ◌||◌, Option, none, some, [], ◌∷◌, ok, eqb, ◌==◌,
  if◌then◌else◌,
}
use did_wallet_thesis.Common.Decimal.{parse_int}
use did_wallet_thesis.Wallet.Keypad.{key_6, key_1, erase, key_text, press_key}
use did_wallet_thesis.Wallet.Storage.{function_store, empty_store}
use did_wallet_thesis.Wallet.Pin.{Argon2Options, get_status, verify_pin}
use did_wallet_thesis.Wallet.Account.{DeviceStorage, ProfileCipher, ProfileJson}
use did_wallet_thesis.Wallet.Unlock.{UnlockSplash, next_pin, handle_pin_digit}
use did_wallet_thesis.Wallet.Unlock.WalletLock.{
  LockScreen, pin_mode, pin_checked, press_lock_digit, press_lock_digit_lem,
}
use did_wallet_thesis.Wallet.Unlock.Laws.{is_accepted, handle_pin_digit_lem}
use did_wallet_thesis.Wallet.Unlock.Cleared.{press_all, mismatch_locks_out}

abbrev storage : DeviceStorage
storage = record {
  secure = function_store;
  async = function_store;
  cleared = empty_store;
  get-cleared = λ key. refl;
}

abbrev cipher : ProfileCipher
cipher = record {
  derive_profile_key = λ secret. secret;
  encrypt = λ key iv plaintext. plaintext;
  decrypt = λ key iv text. some text;
}

abbrev json : ProfileJson String
json = record { write = λ profile. profile; read = λ text. some text }

abbrev join : String → String → Argon2Options → String
join pin salt options = String.◌++◌ pin salt

abbrev items : String → String → Option String
items algo key =
    if key == "pin.hash"
    then some "123456aa"
    else if key == "pin.salt"
    then some "aa"
    else if key == "pin.algo"
    then some algo
    else none

abbrev splash : String → UnlockSplash storage
splash algo = record {
  loading = false;
  error = none;
  show_pin_fallback = true;
  pin = "12345";
  biometric_label = "Face ID";
  device = record { secure_items = items algo; async_items = empty_store };
  authenticated = false;
}

handle_pin_digit_lem_example :
    (handle_pin_digit storage cipher json true join key_6 5 6 7 (splash "argon2id")).authenticated
    ≡ ((true
          && eqb (count (next_pin storage cipher json true join key_6 "12345")) 6
          && is_accepted
              (verify_pin function_store true join
                (next_pin storage cipher json true join key_6 "12345")
                5
                6
                (items "argon2id")).0)
        || false)
handle_pin_digit_lem_example =
    handle_pin_digit_lem storage cipher json true join key_6 5 6 7 (splash "argon2id")

sixth_digit : next_pin storage cipher json true join key_6 "12345" ≡ "123456"
unfolding next_pin press_key
sixth_digit = refl

accepted : (verify_pin function_store true join "123456" 5 6 (items "argon2id")).0 ≡ ok true
unfolding verify_pin get_status parse_int
accepted = refl

abbrev locked_out : UnlockSplash storage
locked_out =
    press_all storage cipher json true join ((key_1, 8, 8, 8) ∷ (erase, 9, 9, 9) ∷ [])
      (handle_pin_digit storage cipher json true join key_6 5 6 7 (splash "sha256"))

mismatch_locks_out_example :
    (locked_out.device.secure_items "pin.hash" ≡ none) × (locked_out.authenticated ≡ false)
unfolding next_pin press_key verify_pin get_status parse_int
mismatch_locks_out_example =
    mismatch_locks_out storage cipher json true join key_6 5 6 7
      ((key_1, 8, 8, 8) ∷ (erase, 9, 9, 9) ∷ []) (splash "sha256") refl refl refl

-- The lock before the wallet, with five digits in.
abbrev lock : LockScreen (String → Option String)
lock = record {
  mode = pin_mode;
  pin = "12345";
  error = none;
  locked = false;
  unlocked = false;
  items = items "argon2id";
}

press_lock_digit_lem_example :
    (press_lock_digit function_store true join key_6 5 6 7 lock).unlocked ≡ (
      (true
        && eqb (count (String.◌++◌ "12345" (key_text key_6))) 6
        && is_accepted
            (verify_pin function_store true join
              (String.◌++◌ "12345" (key_text key_6))
              5
              6
              (items "argon2id")).0)
      || false)
press_lock_digit_lem_example = press_lock_digit_lem function_store true join key_6 5 6 7 lock

opened : (press_lock_digit function_store true join key_6 5 6 7 lock).unlocked ≡ true
unfolding press_lock_digit pin_checked verify_pin get_status parse_int
opened = refl
