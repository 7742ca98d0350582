-- ===== src/Wallet/Pin/Verify.antt =====
-- services/pinService.ts: what `verifyPin` returns, what it leaves in the store, and the cooldown.
use did_wallet_thesis.Common.{
  ℕ, ◌+◌, ◌≤◌, ◌<◌, ◌≡◌, refl, ◌≢◌, String, Bool, true, false, some, arith, ltb, leb, ◌==◌,
  if◌then◌else◌, ok, throw, eq_iff, Option-cases, inl, inr, ◌&&◌, ◌∙◌,
}
use did_wallet_thesis.Wallet.Storage.{KeyValueStore}
use did_wallet_thesis.Wallet.Pin.{
  Argon2Options, get_status, verify_pin, derive_pin_hash, record_failure, cooldown_ms,
}
use did_wallet_thesis.Wallet.Pin.View.{
  IsConfigured, status-reset, failures-record_failure, locked-record_failure,
  record_failure-IsConfigured,
}

module _ (kv : KeyValueStore) (dev : Bool) (argon2 : String → String → Argon2Options → String) where
  open kv use {Store, get_item, set_item, delete_item}

  -- With a PIN configured and no cooldown, `verifyPin` compares the hashes.
  verify_pin_unlocked :
      (salt_hex hash pin : String) (now at : ℕ) (s : Store)
      → IsConfigured kv salt_hex hash s
      → (get_status kv now s).is_locked ≡ false
      → verify_pin kv dev argon2 pin now at s ≡ (
          if derive_pin_hash kv dev argon2 pin salt_hex == hash
          then (ok true, delete_item "pin.lockedUntil" (set_item "pin.failures" "0" s))
          else (ok false, record_failure kv (get_status kv now s) at s))
  unfolding verify_pin
  verify_pin_unlocked salt_hex hash pin now at s c u =
      ground (arith, c.stored_salt, c.stored_hash, c.stored_algo)

  -- `verifyPin` returns true only when no cooldown holds, and the hash that argon2 derives from the
  -- PIN and the stored salt is the stored hash.
  pub verify_pin_sound :
      (pin : String) (now at : ℕ) (s : Store)
      → (verify_pin kv dev argon2 pin now at s).0 ≡ ok true
      → (salt_hex : String) × (hash : String) × ((get_status kv now s).is_locked ≡ false)
        × (get_item "pin.salt" s ≡ some salt_hex)
        × (get_item "pin.hash" s ≡ some hash)
        × (derive_pin_hash kv dev argon2 pin salt_hex ≡ hash)
  unfolding verify_pin
  verify_pin_sound pin now at s h = elim (Option-cases (get_item "pin.salt" s)) [
    | inl unset ↦ absurd (ground arith)
    | inr (salt_hex, e) ↦ elim (Option-cases (get_item "pin.hash" s)) [
      | inl unset ↦ absurd (ground arith)
      | inr (hash, f) ↦
          let same = eq_iff (derive_pin_hash kv dev argon2 pin salt_hex) hash in
          (salt_hex, hash, ground arith, e, f, ground (arith, same))
    ]
  ]

  -- With a PIN configured and no cooldown, `verifyPin` returns true exactly for a PIN whose derived
  -- hash is the stored one; it then sets the count of failures to zero and lifts the cooldown.
  pub verify_pin_correct :
      (salt_hex hash pin : String) (now at later : ℕ) (s : Store)
      → IsConfigured kv salt_hex hash s
      → (get_status kv now s).is_locked ≡ false
      → derive_pin_hash kv dev argon2 pin salt_hex ≡ hash
      → let (result, s') = verify_pin kv dev argon2 pin now at s in
        (result ≡ ok true)
        × ((get_status kv later s').failures ≡ some 0)
        × ((get_status kv later s').is_locked ≡ false)
  verify_pin_correct salt_hex hash pin now at later s c u e =
      let same = (eq_iff (derive_pin_hash kv dev argon2 pin salt_hex) hash).1 e in
      let (zero_failures, unlocked, _) = status-reset kv later s in
      rw (verify_pin_unlocked salt_hex hash pin now at s c u, same) (refl, zero_failures, unlocked)

  wrong_pin :
      (salt_hex hash pin : String) (now at : ℕ) (s : Store)
      → IsConfigured kv salt_hex hash s
      → (get_status kv now s).is_locked ≡ false
      → derive_pin_hash kv dev argon2 pin salt_hex ≢ hash
      → verify_pin kv dev argon2 pin now at s
        ≡ (ok false, record_failure kv (get_status kv now s) at s)
  wrong_pin salt_hex hash pin now at s c u ne = ground (
    arith,
    verify_pin_unlocked salt_hex hash pin now at s c u,
    eq_iff (derive_pin_hash kv dev argon2 pin salt_hex) hash,
  )

  -- With a PIN configured, no cooldown and `n` failures so far, a wrong PIN returns false and raises
  -- the count to `n + 1`; the PIN stays configured, and a cooldown holds afterwards exactly when
  -- `n + 1` is 5 to 9, less than 30 seconds have passed, or an older one still holds.
  pub verify_pin_wrong :
      (salt_hex hash pin : String) (now at later n : ℕ) (s : Store)
      → IsConfigured kv salt_hex hash s
      → (get_status kv now s).is_locked ≡ false
      → (get_status kv now s).failures ≡ some n
      → derive_pin_hash kv dev argon2 pin salt_hex ≢ hash
      → let (result, s') = verify_pin kv dev argon2 pin now at s in
        (result ≡ ok false)
        × IsConfigured kv salt_hex hash s'
        × ((get_status kv later s').failures ≡ some (n + 1))
        × ((get_status kv later s').is_locked ≡ (
            if leb 5 (n + 1) && ltb (n + 1) 10
            then ltb later (at + cooldown_ms)
            else (get_status kv later s).is_locked))
  verify_pin_wrong salt_hex hash pin now at later n s c u e ne =
      let status = get_status kv now s in
      rw (wrong_pin salt_hex hash pin now at s c u ne) (
        refl,
        record_failure-IsConfigured kv salt_hex hash status at s c,
        ground (arith, failures-record_failure kv status at later s),
        ground (arith, locked-record_failure kv status at later s),
      )

  -- While a cooldown holds, `verifyPin` throws whatever the PIN is, and writes nothing.
  pub verify_pin_locked :
      (pin : String) (now at : ℕ) (s : Store)
      → (get_status kv now s).is_locked ≡ true
      → verify_pin kv dev argon2 pin now at s
        ≡ (throw "PIN is temporarily locked. Try again later.", s)
  unfolding verify_pin
  verify_pin_locked pin now at s h = rw h

  -- After the fifth to ninth wrong PIN in a row, recorded at time `at`, every PIN is refused for 30
  -- seconds, the right one too: `verifyPin` throws and leaves the store as it is.
  pub cooldown_refuses :
      (salt_hex hash wrong pin : String) (now at later written n : ℕ) (s : Store)
      → IsConfigured kv salt_hex hash s
      → (get_status kv now s).is_locked ≡ false
      → (get_status kv now s).failures ≡ some n
      → derive_pin_hash kv dev argon2 wrong salt_hex ≢ hash
      → 4 ≤ n
      → n < 9
      → later < at + cooldown_ms
      → let (_, s') = verify_pin kv dev argon2 wrong now at s in
        verify_pin kv dev argon2 pin later written s'
        ≡ (throw "PIN is temporarily locked. Try again later.", s')
  cooldown_refuses salt_hex hash wrong pin now at later written n s c u e ne lo hi early =
      let (_, _, _, locked) = verify_pin_wrong salt_hex hash wrong now at later n s c u e ne in
      verify_pin_locked pin later written (verify_pin kv dev argon2 wrong now at s).1
        (locked ∙ ground arith)
