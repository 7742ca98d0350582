-- ===== src/Wallet/Pin/Setup.antt =====
-- services/pinService.ts: a PIN that was set up verifies, and a PIN that is cleared is gone.
use did_wallet_thesis.Common.{
  ℕ, ◌≡◌, refl, String, Bool, true, false, some, List, ◌∷◌, ◌==◌, ok, ◌/◌,
}
use did_wallet_thesis.Common.Text.{nth, cons_append_ne_empty}
use did_wallet_thesis.Wallet.Storage.{KeyValueStore}
use did_wallet_thesis.Wallet.Pin.{
  Argon2Options, get_status, setup_pin, verify_pin, derive_pin_hash, clear_pin, has_pin, to_hex,
  hex_digit, is_six_digits, alg_mismatch,
}
use did_wallet_thesis.Wallet.Pin.View.{IsConfigured, zero_text}
use did_wallet_thesis.Wallet.Pin.Verify.{verify_pin_correct}

-- The salt of at least one byte is not the empty text.
to_hex_ne_empty : (b : ℕ) (buf : List ℕ) → (to_hex (b ∷ buf) == "") ≡ false
unfolding to_hex hex_digit
to_hex_ne_empty b buf = cons_append_ne_empty (nth "0123456789abcdef" (b / 16)) "" _

module _ (kv : KeyValueStore) (dev : Bool) (argon2 : String → String → Argon2Options → String) where
  open kv use {Store, get_item, set_item, delete_item, get-set, get-delete}

  -- What `setupPin` leaves in the store for a PIN of six digits.
  pub setup_pin-IsConfigured :
      (pin : String) (b : ℕ) (buf : List ℕ) (s : Store)
      → is_six_digits pin ≡ true
      → (derive_pin_hash kv dev argon2 pin (to_hex (b ∷ buf)) == "") ≡ false
      → IsConfigured kv
          (to_hex (b ∷ buf))
          (derive_pin_hash kv dev argon2 pin (to_hex (b ∷ buf)))
          (setup_pin kv dev argon2 pin (b ∷ buf) s).1
  unfolding setup_pin
  setup_pin-IsConfigured pin b buf s six ne = rw six (record {
    stored_salt = simp (get-set, get-delete);
    salt_ne_empty = to_hex_ne_empty b buf;
    stored_hash = simp (get-set, get-delete);
    hash_ne_empty = ne;
    stored_algo = simp (get-set, get-delete);
  })

  pub setup_pin_status :
      (pin : String) (bytes : List ℕ) (now : ℕ) (s : Store)
      → is_six_digits pin ≡ true
      → let (result, s') = setup_pin kv dev argon2 pin bytes s in
        (result ≡ ok tt)
        × ((get_status kv now s').is_locked ≡ false)
        × ((get_status kv now s').failures ≡ some 0)
        × (has_pin kv s' ≡ true)
        × (alg_mismatch kv s' ≡ false)
  unfolding setup_pin get_status alg_mismatch
  setup_pin_status pin bytes now s six =
      simp (six, get-set, get-delete, zero_text) (refl, refl, refl, refl, refl)

  -- Whatever the store held before, a PIN of six digits that is set up is accepted afterwards, at
  -- any time; it is assumed that the generator returned at least one byte and argon2 a hash.
  pub verify_pin-setup_pin :
      (pin : String) (b : ℕ) (buf : List ℕ) (now at : ℕ) (s : Store)
      → is_six_digits pin ≡ true
      → (derive_pin_hash kv dev argon2 pin (to_hex (b ∷ buf)) == "") ≡ false
      → let (done, s') = setup_pin kv dev argon2 pin (b ∷ buf) s in
        (done ≡ ok tt) × ((verify_pin kv dev argon2 pin now at s').0 ≡ ok true)
  verify_pin-setup_pin pin b buf now at s six ne =
      let (done, unlocked, _, _, _) = setup_pin_status pin (b ∷ buf) now s six in
      let c = setup_pin-IsConfigured pin b buf s six ne in
      let (accepted, _, _) =
        verify_pin_correct kv dev argon2 (to_hex (b ∷ buf))
          (derive_pin_hash kv dev argon2 pin (to_hex (b ∷ buf))) pin now at now
          (setup_pin kv dev argon2 pin (b ∷ buf) s).1 c unlocked refl in
      (done, accepted)

module _ (kv : KeyValueStore) where
  open kv use {Store, get-delete}

  -- After `clearPin` there is no PIN, no count of failures and no cooldown, and no algorithm that
  -- could mismatch.
  pub clear_pin_status :
      (now : ℕ) (s : Store)
      → let status = get_status kv now (clear_pin kv s) in
        (status.has_pin ≡ false)
        × (status.failures ≡ some 0)
        × (status.is_locked ≡ false)
        × (alg_mismatch kv (clear_pin kv s) ≡ false)
  unfolding clear_pin get_status alg_mismatch
  clear_pin_status now s = simp (get-delete, zero_text) (refl, refl, refl, refl)
