-- ===== src/Wallet/Unlock/WalletLock.antt =====
-- screens/WalletScreen.tsx: the lock before the wallet. The time that the lock was set for is in the
-- state, and its end is an event.
use Prim.Native.String
use Prim.Native.String.{count}
use did_wallet_thesis.Common.{
  ℕ, String, Bool, true, false, not, ◌&&◌, Option, none, some, Result, ok, throw, ◌==◌, eqb, ltb,
  ◌≡◌, refl, ◌||◌, Bool-cases, inl, inr, if◌then◌else◌,
}
use did_wallet_thesis.Common.Trim.{drop_last}
use did_wallet_thesis.Wallet.Keypad.{Key, key_text, erase}
use did_wallet_thesis.Wallet.Storage.{KeyValueStore}
use did_wallet_thesis.Wallet.Pin.{Argon2Options, PinStatus, get_status, verify_pin, clear_pin}
use did_wallet_thesis.Wallet.Unlock.Laws.{is_accepted}
use did_wallet_thesis.Wallet.Unlock.{LocalAuthentication, both, locked_message}

pub data Mode : Type 0 where
  checking biometric pin_mode : Mode

pub record LockScreen (Store : Type 0) : Type 0 where
  pub mode : Mode
  pub pin : String
  pub error : Option String
  pub locked : Bool
  pub unlocked : Bool
  pub items : Store

module _ (kv : KeyValueStore) (dev : Bool) (argon2 : String → String → Argon2Options → String) where
  open kv use {Store}

  -- A rejected promise of `tryBiometric` is not caught and leaves the error empty.
  unfoldable pub try_biometric : LocalAuthentication → LockScreen Store → LockScreen Store
  try_biometric platform st = elim platform.authenticate [
    | throw e ↦ record st { error = none }
    | ok result ↦
        if result.success
        then record st { error = none; unlocked = true }
        else record st { error = some "Authentication failed. Try again." }
  ]

  unfoldable pub detect : LocalAuthentication → LockScreen Store → LockScreen Store
  unfolding try_biometric
  detect platform st = elim (both platform.has_hardware platform.is_enrolled) [
    | throw e ↦ record st { mode = pin_mode }
    | ok available ↦
        if available
        then try_biometric platform (record st { mode = biometric })
        else record st { mode = pin_mode }
  ]

  abbrev pub refused_by : PinStatus → ℕ → LockScreen Store → LockScreen Store
  refused_by status later st =
      if status.is_locked
      then (record st {
        locked = true;
        error = some (locked_message status.locked_until later);
        pin = "";
      })
      else (record st { error = some "Incorrect PIN. Try again."; pin = "" })

  -- What follows `verifyPin`, whose writes are in the store already.
  unfoldable pub pin_checked : Result String Bool → ℕ → LockScreen Store → LockScreen Store
  unfolding get_status clear_pin
  pin_checked (ok true) later st = record st { unlocked = true }
  pin_checked (ok false) later st = refused_by (get_status kv later st.items) later st
  pin_checked (throw e) later st =
      if e == "PIN_ALGO_MISMATCH"
      then (record st {
        items = clear_pin kv st.items;
        error = some "Security upgrade required. Please re-register your PIN.";
        pin = "";
      })
      else record st { error = some e; pin = "" }

  unfoldable pub press_lock_digit : Key → ℕ → ℕ → ℕ → LockScreen Store → LockScreen Store
  unfolding verify_pin pin_checked
  press_lock_digit key now at later st =
      let next = String.◌++◌ st.pin (key_text key) in
      let (outcome, items) = verify_pin kv dev argon2 next now at st.items in
      if st.locked
      then st
      else if eqb (count next) 6
      then pin_checked outcome later (record st { pin = next; error = none; items = items })
      else record st { pin = next; error = none }

  unfoldable pub press_back : LockScreen Store → LockScreen Store
  unfolding drop_last
  press_back st = record st { pin = drop_last st.pin }

  -- The keys, the digits only while the PIN is not full.
  unfoldable pub press_lock_key : Key → ℕ → ℕ → ℕ → LockScreen Store → LockScreen Store
  unfolding press_lock_digit press_back
  press_lock_key erase now at later st = press_back st
  press_lock_key key now at later st =
      if ltb (count st.pin) 6 then press_lock_digit key now at later st else st

  -- The timer of a lock.
  unfoldable pub lock_ended : LockScreen Store → LockScreen Store
  lock_ended st = record st { locked = false; pin = ""; error = none }

  pin_checked-unlocked :
      (outcome : Result String Bool) (later : ℕ) (st : LockScreen Store)
      → (pin_checked outcome later st).unlocked ≡ (is_accepted outcome || st.unlocked)
  unfolding pin_checked
  pin_checked-unlocked (ok true) later st = refl
  pin_checked-unlocked (ok false) later st =
      elim (Bool-cases (get_status kv later st.items).is_locked) [
        | inl locked ↦ rw locked refl
        | inr open_again ↦ rw open_again refl
      ]
  pin_checked-unlocked (throw e) later st = elim (Bool-cases (e == "PIN_ALGO_MISMATCH")) [
    | inl mismatch ↦ rw mismatch refl
    | inr other ↦ rw other refl
  ]

  -- A digit opens the wallet exactly if it completes six digits that `verifyPin` accepts then, while no
  -- lock is shown, or it was open before.
  pub press_lock_digit_lem :
      (key : Key) (now at later : ℕ) (st : LockScreen Store)
      → let next = String.◌++◌ st.pin (key_text key) in
        (press_lock_digit key now at later st).unlocked ≡ (
          (not st.locked
            && eqb (count next) 6
            && is_accepted (verify_pin kv dev argon2 next now at st.items).0)
          || st.unlocked)
  unfolding press_lock_digit
  press_lock_digit_lem key now at later st =
      let next = String.◌++◌ st.pin (key_text key) in
      let (outcome, items) = verify_pin kv dev argon2 next now at st.items in
      elim (Bool-cases st.locked) [
        | inl locked ↦ rw (press_lock_digit, locked) refl
        | inr free ↦ elim (Bool-cases (eqb (count next) 6)) [
          | inr fewer ↦ rw (press_lock_digit, free, fewer) refl
          | inl six ↦
              rw (press_lock_digit, free, six)
                (pin_checked-unlocked outcome later
                  (record st { pin = next; error = none; items = items; locked = false }))
        ]
      ]
