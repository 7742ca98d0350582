-- ===== src/Wallet/Unlock/Laws.antt =====
-- screens/UnlockSplashScreen.tsx: who gets in, and what a cleared PIN means.
use Prim.Native.String.{count}
use did_wallet_thesis.Common.{
  ℕ, ◌≡◌, refl, sym, ap, ◌∙◌, String, Bool, true, false, not, ◌&&◌, ◌||◌, none, Result, ok, throw,
  ◌==◌, eqb, arith, Bool-cases, inl, inr,
}
use mathlib.Core.Bool.{true≢false}
use did_wallet_thesis.Wallet.Keypad.{Key}
use did_wallet_thesis.Wallet.Pin.{Argon2Options, get_status, verify_pin}
use did_wallet_thesis.Wallet.Account.{DeviceStorage, ProfileCipher, ProfileJson}
use did_wallet_thesis.Wallet.Unlock.{UnlockSplash, next_pin, verified, check_pin, handle_pin_digit}

abbrev pub is_accepted : Result String Bool → Bool
is_accepted (ok b) = b
is_accepted (throw e) = false

module _ {A : Type 0} (storage : DeviceStorage) (cipher : ProfileCipher) (json : ProfileJson A)
    (dev : Bool) (argon2 : String → String → Argon2Options → String) where
  open storage use {secure}

  verified-authenticated :
      (outcome : Result String Bool) (later : ℕ) (st : UnlockSplash storage)
      → (verified storage cipher json dev argon2 outcome later st).authenticated
        ≡ (is_accepted outcome || st.authenticated)
  unfolding verified
  verified-authenticated (ok true) later st = refl
  verified-authenticated (ok false) later st = refl
  verified-authenticated (throw e) later st = elim (Bool-cases (e == "PIN_ALGO_MISMATCH")) [
    | inl mismatch ↦ rw mismatch refl
    | inr other ↦ rw other refl
  ]

  abbrev pub accepted_now : String → ℕ → ℕ → UnlockSplash storage → Bool
  accepted_now pin now at st =
      is_accepted (verify_pin secure dev argon2 pin now at st.device.secure_items).0

  pub check_pin-verified :
      (next : String) (now at later : ℕ) (st : UnlockSplash storage)
      → (get_status secure now st.device.secure_items).is_locked ≡ false
      → let (outcome, items) = verify_pin secure dev argon2 next now at st.device.secure_items in
        check_pin storage cipher json dev argon2 next now at later st
        ≡ verified storage cipher json dev argon2 outcome later
            (record st { device = record st.device { secure_items = items }; error = none })
  unfolding check_pin
  check_pin-verified next now at later st unlocked = rw (check_pin, unlocked) refl

  pub check_pin-locked :
      (next : String) (now at later : ℕ) (st : UnlockSplash storage)
      → (get_status secure now st.device.secure_items).is_locked ≡ true
      → ((check_pin storage cipher json dev argon2 next now at later st).authenticated
          ≡ st.authenticated)
        × ((check_pin storage cipher json dev argon2 next now at later st).device ≡ st.device)
        × (accepted_now next now at st ≡ false)
  unfolding check_pin verify_pin
  check_pin-locked next now at later st locked = rw (check_pin, locked) (refl, refl, refl)

  pub check_pin-authenticated :
      (next : String) (now at later : ℕ) (st : UnlockSplash storage)
      → (check_pin storage cipher json dev argon2 next now at later st).authenticated
        ≡ (accepted_now next now at st || st.authenticated)
  check_pin-authenticated next now at later st =
      elim (Bool-cases (get_status secure now st.device.secure_items).is_locked) [
        | inl locked ↦
            let (same, _, refused) = check_pin-locked next now at later st locked in
            rw (same, refused) refl
        | inr unlocked ↦
            let (outcome, items) =
              verify_pin secure dev argon2 next now at st.device.secure_items in
            ap (λ (x : UnlockSplash storage). x.authenticated)
              (check_pin-verified next now at later st unlocked)
            ∙ verified-authenticated outcome later
                (record st { device = record st.device { secure_items = items }; error = none })
      ]

  abbrev pub press_digit : Key → ℕ → ℕ → ℕ → UnlockSplash storage → UnlockSplash storage
  press_digit key now at later st =
      handle_pin_digit storage cipher json dev argon2 key now at later st

  abbrev pub next_of : Key → UnlockSplash storage → String
  next_of key st = next_pin storage cipher json dev argon2 key st.pin

  pub press_digit-check_pin :
      (key : Key) (now at later : ℕ) (st : UnlockSplash storage)
      → st.loading ≡ false
      → eqb (count (next_of key st)) 6 ≡ true
      → press_digit key now at later st
        ≡ check_pin storage cipher json dev argon2
            (next_of key st)
            now
            at
            later
            (record st { pin = next_of key st })
  unfolding handle_pin_digit
  press_digit-check_pin key now at later st idle six = rw (handle_pin_digit, idle, six) refl

  pub press_digit-kept :
      (key : Key) (now at later : ℕ) (st : UnlockSplash storage)
      → (not st.loading && eqb (count (next_of key st)) 6) ≡ false
      → ((press_digit key now at later st).authenticated ≡ st.authenticated)
        × ((press_digit key now at later st).device ≡ st.device)
  unfolding handle_pin_digit
  press_digit-kept key now at later st h = elim (Bool-cases st.loading) [
    | inl busy ↦ rw (handle_pin_digit, busy) (refl, refl)
    | inr idle ↦ elim (Bool-cases (eqb (count (next_of key st)) 6)) [
      | inl six ↦ absurd (true≢false (sym (rw (idle, six) refl) ∙ h))
      | inr fewer ↦ rw (handle_pin_digit, idle, fewer) (refl, refl)
    ]
  ]

  -- A key lets the user in exactly if it completes six digits that `verifyPin` accepts then, on a screen
  -- that is not busy; no other key does.
  pub handle_pin_digit_lem :
      (key : Key) (now at later : ℕ) (st : UnlockSplash storage)
      → let next = next_pin storage cipher json dev argon2 key st.pin in
        (handle_pin_digit storage cipher json dev argon2 key now at later st).authenticated ≡ (
          (not st.loading
            && eqb (count next) 6
            && is_accepted (verify_pin secure dev argon2 next now at st.device.secure_items).0)
          || st.authenticated)
  handle_pin_digit_lem key now at later st =
      elim (Bool-cases (not st.loading && eqb (count (next_of key st)) 6)) [
        | inr kept ↦ rw kept ((press_digit-kept key now at later st kept).0)
        | inl tried ↦
            let idle : st.loading ≡ false = ground arith in
            let six : eqb (count (next_of key st)) 6 ≡ true = ground arith in
            ap (λ (x : UnlockSplash storage). x.authenticated)
              (press_digit-check_pin key now at later st idle six)
            ∙ check_pin-authenticated (next_of key st) now at later
                (record st { pin = next_of key st })
            ∙ rw tried refl
      ]
