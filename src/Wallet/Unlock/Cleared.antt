-- ===== src/Wallet/Unlock/Cleared.antt =====
-- screens/UnlockSplashScreen.tsx: a PIN that is cleared is not replaced.
use Prim.Native.String.{count}
use did_wallet_thesis.Common.{
  ℕ, ◌≡◌, refl, ap, ◌∙◌, String, Bool, true, false, not, ◌&&◌, none, List, [], ◌∷◌, Result, ok,
  throw, ◌==◌, eqb, arith, Bool-cases, inl, inr,
}
use did_wallet_thesis.Wallet.Keypad.{Key}
use did_wallet_thesis.Wallet.Pin.{Argon2Options, get_status, verify_pin, clear_pin}
use did_wallet_thesis.Wallet.Account.{
  DeviceStorage, ProfileCipher, ProfileJson, Device, set_session_active,
}
use did_wallet_thesis.Wallet.Unlock.{UnlockSplash, next_pin, verified, check_pin, handle_pin_digit}
use did_wallet_thesis.Wallet.Unlock.Laws.{
  is_accepted, check_pin-verified, check_pin-locked, check_pin-authenticated, press_digit-check_pin,
  press_digit-kept,
}

module _ {A : Type 0} (storage : DeviceStorage) (cipher : ProfileCipher) (json : ProfileJson A)
    (dev : Bool) (argon2 : String → String → Argon2Options → String) where
  open storage use {secure}

  abbrev next_of : Key → UnlockSplash storage → String
  next_of key st = next_pin storage cipher json dev argon2 key st.pin

  abbrev press_digit : Key → ℕ → ℕ → ℕ → UnlockSplash storage → UnlockSplash storage
  press_digit key now at later st =
      handle_pin_digit storage cipher json dev argon2 key now at later st

  unset-refused :
      (pin : String) (now at : ℕ) (s : secure.Store)
      → secure.get_item "pin.hash" s ≡ none
      → ((verify_pin secure dev argon2 pin now at s).1 ≡ s)
        × (is_accepted (verify_pin secure dev argon2 pin now at s).0 ≡ false)
  unfolding verify_pin
  unset-refused pin now at s unset = ground arith

  abbrev IsUnset : UnlockSplash storage → Type 0
  IsUnset st = secure.get_item "pin.hash" st.device.secure_items ≡ none

  verified-IsUnset :
      (outcome : Result String Bool) (later : ℕ) (st : UnlockSplash storage)
      → IsUnset st
      → IsUnset (verified storage cipher json dev argon2 outcome later st)
  unfolding verified clear_pin set_session_active
  verified-IsUnset (ok true) later st unset = simp (secure.get-set) unset
  verified-IsUnset (ok false) later st unset = unset
  verified-IsUnset (throw e) later st unset = elim (Bool-cases (e == "PIN_ALGO_MISMATCH")) [
    | inl mismatch ↦ rw mismatch (simp (secure.get-delete) refl)
    | inr other ↦ rw other unset
  ]

  check_pin-IsUnset :
      (next : String) (now at later : ℕ) (st : UnlockSplash storage)
      → IsUnset st
      → IsUnset (check_pin storage cipher json dev argon2 next now at later st)
  check_pin-IsUnset next now at later st unset =
      elim (Bool-cases (get_status secure now st.device.secure_items).is_locked) [
        | inl locked ↦
            let (_, same, _) =
              check_pin-locked storage cipher json dev argon2 next now at later st locked in
            ap (λ (d : Device storage). secure.get_item "pin.hash" d.secure_items) same ∙ unset
        | inr unlocked ↦
            let (outcome, items) =
              verify_pin secure dev argon2 next now at st.device.secure_items in
            let (same, _) = unset-refused next now at st.device.secure_items unset in
            ap (λ (x : UnlockSplash storage). secure.get_item "pin.hash" x.device.secure_items)
              (check_pin-verified storage cipher json dev argon2 next now at later st unlocked)
            ∙ verified-IsUnset outcome later
                (record st { device = record st.device { secure_items = items }; error = none })
                (ap (secure.get_item "pin.hash") same ∙ unset)
      ]

  press_digit-IsUnset :
      (key : Key) (now at later : ℕ) (st : UnlockSplash storage)
      → IsUnset st
      → ((press_digit key now at later st).authenticated ≡ st.authenticated)
        × IsUnset (press_digit key now at later st)
  press_digit-IsUnset key now at later st unset =
      let next = next_of key st in
      elim (Bool-cases (not st.loading && eqb (count next) 6)) [
        | inr kept ↦
            let (same, device) =
              press_digit-kept storage cipher json dev argon2 key now at later st kept in
            (
              same,
              ap (λ (d : Device storage). secure.get_item "pin.hash" d.secure_items) device ∙ unset,
            )
        | inl tried ↦
            let e =
              press_digit-check_pin storage cipher json dev argon2 key now at later st
                (ground arith) (ground arith) in
            let (_, refused) = unset-refused next now at st.device.secure_items unset in
            (
              ap (λ (x : UnlockSplash storage). x.authenticated) e
                  ∙ check_pin-authenticated storage cipher json dev argon2 next now at later
                      (record st { pin = next })
                  ∙ rw refused refl,
              ap (λ (x : UnlockSplash storage). secure.get_item "pin.hash" x.device.secure_items) e
                  ∙ check_pin-IsUnset next now at later (record st { pin = next }) unset,
            )
      ]

  abbrev pub press_all : List (Key × ℕ × ℕ × ℕ) → UnlockSplash storage → UnlockSplash storage
  press_all [] st = st
  press_all ((key, now, at, later) ∷ rest) st = press_all rest (press_digit key now at later st)

  press_all-IsUnset :
      (keys : List (Key × ℕ × ℕ × ℕ)) (st : UnlockSplash storage)
      → IsUnset st
      → ((press_all keys st).authenticated ≡ st.authenticated) × IsUnset (press_all keys st)
  press_all-IsUnset [] st unset = (refl, unset)
  press_all-IsUnset ((key, now, at, later) ∷ rest) st unset =
      let (same, unset') = press_digit-IsUnset key now at later st unset in
      let (still, gone) = press_all-IsUnset rest (press_digit key now at later st) unset' in
      (still ∙ same, gone)

  check_pin-mismatch :
      (next : String) (now at later : ℕ) (st : UnlockSplash storage)
      → (get_status secure now st.device.secure_items).is_locked ≡ false
      → (verify_pin secure dev argon2 next now at st.device.secure_items).0
        ≡ throw "PIN_ALGO_MISMATCH"
      → IsUnset (check_pin storage cipher json dev argon2 next now at later st)
  unfolding verified clear_pin
  check_pin-mismatch next now at later st unlocked mismatch =
      ap (λ (x : UnlockSplash storage). secure.get_item "pin.hash" x.device.secure_items)
        (check_pin-verified storage cipher json dev argon2 next now at later st unlocked)
      ∙ rw (verified, mismatch) (simp (secure.get-delete) refl)

  -- When a PIN of six digits meets a hash of another algorithm, the stored hash of the PIN is deleted, and
  -- from then on it stays so and no keys, however many and whenever, let the user in.
  pub mismatch_locks_out :
      (key : Key) (now at later : ℕ) (keys : List (Key × ℕ × ℕ × ℕ)) (st : UnlockSplash storage)
      → let next = next_pin storage cipher json dev argon2 key st.pin in
        let end =
          press_all keys (handle_pin_digit storage cipher json dev argon2 key now at later st) in
        (not st.loading && eqb (count next) 6) ≡ true
        → (get_status secure now st.device.secure_items).is_locked ≡ false
        → (verify_pin secure dev argon2 next now at st.device.secure_items).0
          ≡ throw "PIN_ALGO_MISMATCH"
        → (secure.get_item "pin.hash" end.device.secure_items ≡ none)
          × (end.authenticated ≡ st.authenticated)
  mismatch_locks_out key now at later keys st tried unlocked mismatch =
      let next = next_of key st in
      let e =
        press_digit-check_pin storage cipher json dev argon2 key now at later st (ground arith)
          (ground arith) in
      let (same, gone) = press_all-IsUnset keys (press_digit key now at later st) (
        ap (λ (x : UnlockSplash storage). secure.get_item "pin.hash" x.device.secure_items) e
        ∙ check_pin-mismatch next now at later (record st { pin = next }) unlocked mismatch) in
      (
        gone,
        same
            ∙ ap (λ (x : UnlockSplash storage). x.authenticated) e
            ∙ check_pin-authenticated storage cipher json dev argon2 next now at later
                (record st { pin = next })
            ∙ rw mismatch refl,
      )
