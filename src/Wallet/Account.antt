-- ===== src/Wallet/Account.antt =====
-- services/authService.ts: the wallet's key, its profile and its session on the device. The cipher, the
-- key derivation and the JSON text of a profile are parameters, and so is the profile itself, whose
-- fields are not read here but for its type.
pub mod Laws
pub mod Lock
mod Tests
use did_wallet_thesis.Common.{
  ℕ, ◌≡◌, String, Bool, true, false, Option, none, some, List, [], ◌∷◌, Result, ok, throw, ◌==◌,
  if◌then◌else◌, truthy, get_or, not, eqb, is_some,
}
use Prim.Native.Char.{code}
use Prim.Native.String
use Prim.Native.String.{[], ◌∷◌}
use did_wallet_thesis.Common.Text.{has_char, take_chars}
use did_wallet_thesis.Wallet.Storage.{KeyValueStore}

-- SecureStore and AsyncStorage, the latter with `clear`, which leaves no item.
pub record DeviceStorage : Type 1 where
  pub secure : KeyValueStore
  pub async : KeyValueStore
  pub cleared : async.Store
  pub get-cleared : (key : String) → async.get_item key cleared ≡ none

-- AES-256-GCM under the key derived from the secret key, bytes as base64: `encrypt` takes the key, the
-- nonce and the text, and `decrypt` throws for a text that it did not make.
pub record ProfileCipher : Type 0 where
  pub derive_profile_key : String → String
  pub encrypt : String → String → String → String
  pub decrypt : String → String → String → Option String

pub record ProfileJson (A : Type 0) : Type 0 where
  pub write : A → String
  pub read : String → Option A

pub record Device (storage : DeviceStorage) : Type 0 where
  pub secure_items : storage.secure.Store
  pub async_items : storage.async.Store

-- The parts of a text before and behind its first `.`, the second up to the next one.
unfoldable pub before_dot : String → String
before_dot [] = []
before_dot (c ∷ s) = let rest = before_dot s in if eqb (code c) b'.' then [] else c ∷ rest

unfoldable pub after_dot : String → String
unfolding before_dot
after_dot [] = []
after_dot (c ∷ s) = let rest = after_dot s in if eqb (code c) b'.' then before_dot s else rest

unfoldable pub encrypt_profile : ProfileCipher → String → String → String → String
encrypt_profile cipher iv plaintext secret_key =
    String.◌++◌ iv
      (String.◌++◌ "." (cipher.encrypt (cipher.derive_profile_key secret_key) iv plaintext))

unfoldable pub decrypt_profile : ProfileCipher → String → String → Option String
unfolding before_dot after_dot
decrypt_profile cipher blob secret_key =
    cipher.decrypt (cipher.derive_profile_key secret_key) (before_dot blob) (after_dot blob)

module _ {A : Type 0} (storage : DeviceStorage) (cipher : ProfileCipher)
    (json : ProfileJson A) where
  abbrev pub get_secure : String → Device storage → Option String
  get_secure key d = storage.secure.get_item key d.secure_items

  abbrev pub set_secure : String → String → Device storage → Device storage
  set_secure key value d = record d {
    secure_items = storage.secure.set_item key value d.secure_items;
  }

  abbrev pub delete_secure : String → Device storage → Device storage
  delete_secure key d = record d { secure_items = storage.secure.delete_item key d.secure_items }

  abbrev delete_all : List String → Device storage → Device storage
  delete_all [] d = d
  delete_all (key ∷ keys) d = delete_all keys (delete_secure key d)

  -- The keys of `KEYS` and `PIN_KEYS`; the database of the credentials is not part of this state.
  unfoldable pub reset_development_data :
      Bool → Device storage → Result String (Unit {0}) × Device storage
  reset_development_data dev d =
      if not dev then (throw "Wallet reset is only available in development builds.", d) else (
        ok tt,
        record (delete_all
            ("wallet.secretKey" ∷ "wallet.created" ∷ "wallet.sessionActive" ∷ "wallet.profile"
              ∷ "pin.algo" ∷ "pin.salt" ∷ "pin.hash" ∷ "pin.failures" ∷ "pin.lockedUntil" ∷ [])
            d) { async_items = storage.cleared },
      )

  unfoldable pub get_secret_key : Device storage → Option String
  get_secret_key d = get_secure "wallet.secretKey" d

  -- The two UUIDs without their dashes are parameters of the call.
  unfoldable pub create_wallet : String → String → Device storage → String × Device storage
  create_wallet uuid1 uuid2 d =
      let existing = get_secure "wallet.secretKey" d in
      let secret_key = take_chars 64 (String.◌++◌ uuid1 uuid2) in
      if truthy existing
      then (get_or existing "", d)
      else (secret_key, set_secure "wallet.secretKey" secret_key d)

  unfoldable pub plaintext_of : String → String → Option String
  unfolding decrypt_profile
  plaintext_of raw secret_key =
      if has_char b'.' raw then decrypt_profile cipher raw secret_key else some raw

  unfoldable pub get_wallet_profile : Device storage → Option A
  unfolding get_secret_key plaintext_of
  get_wallet_profile d =
      let raw = storage.async.get_item "wallet.profile" d.async_items in
      if not (truthy raw)
      then none
      else if not (truthy (get_secret_key d))
      then none
      else elim (plaintext_of (get_or raw "") (get_or (get_secret_key d) "")) [
        | none ↦ none
        | some plaintext ↦ json.read plaintext
      ]

  unfoldable pub save_wallet_profile :
      String → A → Device storage → Result String (Unit {0}) × Device storage
  unfolding get_secret_key encrypt_profile
  save_wallet_profile iv profile d =
      let secret_key = get_secret_key d in
      if not (truthy secret_key)
      then (throw "Wallet not initialised — cannot save profile", d)
      else (
        ok tt,
        record d {
          async_items =
              storage.async.set_item "wallet.profile"
                (encrypt_profile cipher iv (json.write profile) (get_or secret_key ""))
                d.async_items;
        },
      )

  unfoldable pub has_wallet : Device storage → Bool
  unfolding get_wallet_profile
  has_wallet d =
      let created = get_secure "wallet.created" d in
      if not (get_or created "" == "true") then false else is_some (get_wallet_profile d)

  unfoldable pub complete_wallet_setup : Device storage → Result String (Unit {0}) × Device storage
  unfolding get_wallet_profile
  complete_wallet_setup d = elim (get_wallet_profile d) [
    | none ↦ (throw "Wallet profile verification failed.", d)
    | some profile ↦
        (ok tt, set_secure "wallet.sessionActive" "true" (set_secure "wallet.created" "true" d))
  ]

  unfoldable pub is_session_active : Device storage → Bool
  is_session_active d = get_or (get_secure "wallet.sessionActive" d) "" == "true"

  unfoldable pub set_session_active : Device storage → Device storage
  set_session_active d = set_secure "wallet.sessionActive" "true" d

  unfoldable pub clear_session : Device storage → Device storage
  clear_session d = delete_secure "wallet.sessionActive" d

  -- `{ ...existing, ...patch }` is the argument `patch`.
  unfoldable pub update_wallet_profile :
      String → (A → A) → Device storage → Result String (Unit {0}) × Device storage
  unfolding get_wallet_profile save_wallet_profile
  update_wallet_profile iv patch d = elim (get_wallet_profile d) [
    | none ↦ (ok tt, d)
    | some existing ↦ save_wallet_profile iv (patch existing) d
  ]
