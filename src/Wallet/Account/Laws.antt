-- ===== src/Wallet/Account/Laws.antt =====
-- services/authService.ts: when the device has a wallet, and what a profile that is saved reads as.
use did_wallet_thesis.Common.{
  ℕ, ◌≡◌, refl, String, true, false, none, some, arith, ◌==◌, is_some, Option-cases, inl, inr, ◌∙◌,
  ap, ◌||◌,
}
use Prim.Native.String
use Prim.Native.String.{[], ◌∷◌}
use text.Mathlib.TextLemmas.{cons-append, nil-append}
use did_wallet_thesis.Common.Text.{has_char, nth, cons_ne_empty, cons_append_ne_empty}
use did_wallet_thesis.Wallet.Pin.{get_status}
use did_wallet_thesis.Wallet.Account.{
  DeviceStorage, ProfileCipher, ProfileJson, Device, before_dot, after_dot, encrypt_profile,
  decrypt_profile, plaintext_of, reset_development_data, get_secret_key, get_wallet_profile,
  save_wallet_profile, has_wallet, complete_wallet_setup, is_session_active, clear_session,
  set_secure, get_secure,
}

dot_lead : (ct : String) → String.◌++◌ "" (String.◌++◌ "." ct) ≡ nth "." 0 ∷ ct
unfolding nth
dot_lead ct =
    nil-append (String.◌++◌ "." ct)
    ∙ cons-append (nth "." 0) "" ct
    ∙ ap (λ (s : String). nth "." 0 ∷ s) (nil-append ct)

before_dot-joined :
    (iv ct : String)
    → has_char b'.' iv ≡ false
    → before_dot (String.◌++◌ iv (String.◌++◌ "." ct)) ≡ iv
unfolding before_dot has_char
before_dot-joined [] ct h = rw (dot_lead ct) (unfold nth in refl)
before_dot-joined (c ∷ iv) ct h =
    ground (arith, before_dot-joined iv ct, cons-append c iv (String.◌++◌ "." ct))

before_dot-whole : (s : String) → has_char b'.' s ≡ false → before_dot s ≡ s
unfolding before_dot has_char
before_dot-whole [] h = refl
before_dot-whole (c ∷ s) h = ground (arith, before_dot-whole s)

after_dot-joined :
    (iv ct : String)
    → has_char b'.' iv ≡ false
    → has_char b'.' ct ≡ false
    → after_dot (String.◌++◌ iv (String.◌++◌ "." ct)) ≡ ct
unfolding after_dot has_char
after_dot-joined [] ct h k = rw (dot_lead ct) (unfold nth in before_dot-whole ct k)
after_dot-joined (c ∷ iv) ct h k =
    ground (arith, after_dot-joined iv ct, cons-append c iv (String.◌++◌ "." ct))

has_dot : (iv ct : String) → has_char b'.' (String.◌++◌ iv (String.◌++◌ "." ct)) ≡ true
unfolding has_char
has_dot [] ct = rw (dot_lead ct) (unfold nth in refl)
has_dot (c ∷ iv) ct = ground (arith, has_dot iv ct, cons-append c iv (String.◌++◌ "." ct))

joined_ne_empty : (iv ct : String) → (String.◌++◌ iv (String.◌++◌ "." ct) == "") ≡ false
joined_ne_empty [] ct = rw (dot_lead ct) (cons_ne_empty (nth "." 0) ct)
joined_ne_empty (c ∷ iv) ct = cons_append_ne_empty c iv (String.◌++◌ "." ct)

module _ {A : Type 0} (storage : DeviceStorage) (cipher : ProfileCipher)
    (json : ProfileJson A) where
  open storage use {secure, async, cleared, get-cleared}

  pub get_wallet_profile-flags :
      (d : Device storage)
      → get_wallet_profile storage cipher json (
          set_secure storage cipher json "wallet.sessionActive" "true"
            (set_secure storage cipher json "wallet.created" "true" d))
        ≡ get_wallet_profile storage cipher json d
  unfolding get_wallet_profile get_secret_key
  get_wallet_profile-flags d = simp (secure.get-set) refl

  abbrev flagged : Device storage → Device storage
  flagged d =
      set_secure storage cipher json "wallet.sessionActive" "true"
        (set_secure storage cipher json "wallet.created" "true" d)

  flags-flagged :
      (d : Device storage)
      → (get_secure storage cipher json "wallet.created" (flagged d) ≡ some "true")
        × (get_secure storage cipher json "wallet.sessionActive" (flagged d) ≡ some "true")
  flags-flagged d = simp (secure.get-set) (refl, refl)

  has_wallet-flagged :
      (d : Device storage)
      → has_wallet storage cipher json (flagged d)
        ≡ is_some (get_wallet_profile storage cipher json d)
  unfolding has_wallet
  has_wallet-flagged d =
      let (created, _) = flags-flagged d in
      rw (has_wallet, created, get_wallet_profile-flags d) refl

  unreadable_lem :
      (d : Device storage)
      → get_wallet_profile storage cipher json d ≡ none
      → has_wallet storage cipher json d ≡ false
  unfolding has_wallet
  unreadable_lem d h = ground arith

  -- Completing the setup leaves a wallet on the device exactly if a profile can be read, and starts a
  -- session exactly then, unless one was active.
  pub has_wallet-complete_wallet_setup :
      (d : Device storage)
      → let d' = (complete_wallet_setup storage cipher json d).1 in
        let readable = is_some (get_wallet_profile storage cipher json d) in
        (has_wallet storage cipher json d' ≡ readable)
        × (is_session_active storage cipher json d'
            ≡ (readable || is_session_active storage cipher json d))
  unfolding complete_wallet_setup is_session_active
  has_wallet-complete_wallet_setup d =
      elim (Option-cases (get_wallet_profile storage cipher json d)) [
        | inl unreadable ↦
            rw (complete_wallet_setup, unreadable) (unreadable_lem d unreadable, refl)
        | inr (profile, e) ↦
            let (_, active) = flags-flagged d in
            rw (complete_wallet_setup, e) (has_wallet-flagged d ∙ ap is_some e, rw active refl)
      ]

  -- Ending the session locks the wallet and does not remove it.
  pub has_wallet-clear_session :
      (d : Device storage)
      → let d' = clear_session storage cipher json d in
        (has_wallet storage cipher json d' ≡ has_wallet storage cipher json d)
        × (is_session_active storage cipher json d' ≡ false)
  unfolding has_wallet get_wallet_profile get_secret_key is_session_active clear_session
  has_wallet-clear_session d = simp (secure.get-delete, secure.get-set) (refl, refl)

  -- A development reset leaves no key, no profile, no wallet, no session and no PIN, whatever was
  -- stored.
  pub reset_development_data_lem :
      (now : ℕ) (d : Device storage)
      → let d' = (reset_development_data storage cipher json true d).1 in
        (has_wallet storage cipher json d' ≡ false)
        × (is_session_active storage cipher json d' ≡ false)
        × (get_secret_key storage cipher json d' ≡ none)
        × (get_wallet_profile storage cipher json d' ≡ none)
        × ((get_status secure now d'.secure_items).has_pin ≡ false)
  unfolding reset_development_data has_wallet get_wallet_profile get_secret_key is_session_active
      get_status
  reset_development_data_lem now d =
      simp (secure.get-delete, get-cleared) (refl, refl, refl, refl, refl)

  abbrev blob_of : String → String → A → String
  blob_of iv secret_key profile = String.◌++◌ iv (
      String.◌++◌ "."
        (cipher.encrypt (cipher.derive_profile_key secret_key) iv (json.write profile)))

  plaintext_of-blob :
      (iv secret_key : String) (profile : A)
      → has_char b'.' iv ≡ false
      → has_char b'.'
          (cipher.encrypt (cipher.derive_profile_key secret_key) iv (json.write profile))
        ≡ false
      → plaintext_of storage cipher json (blob_of iv secret_key profile) secret_key
        ≡ cipher.decrypt
            (cipher.derive_profile_key secret_key)
            iv
            (cipher.encrypt (cipher.derive_profile_key secret_key) iv (json.write profile))
  unfolding plaintext_of decrypt_profile
  plaintext_of-blob iv secret_key profile h k =
      let ct = cipher.encrypt (cipher.derive_profile_key secret_key) iv (json.write profile) in
      rw (has_dot iv ct, decrypt_profile, before_dot-joined iv ct h, after_dot-joined iv ct h k)
        refl

  get_wallet_profile-stored :
      (raw secret_key plaintext : String) (d : Device storage)
      → async.get_item "wallet.profile" d.async_items ≡ some raw
      → (raw == "") ≡ false
      → get_secret_key storage cipher json d ≡ some secret_key
      → (secret_key == "") ≡ false
      → plaintext_of storage cipher json raw secret_key ≡ some plaintext
      → get_wallet_profile storage cipher json d ≡ json.read plaintext
  unfolding get_wallet_profile
  get_wallet_profile-stored raw secret_key plaintext d stored present held full plain = ground arith

  with_item : String → Device storage → Device storage
  with_item raw d = record d { async_items = async.set_item "wallet.profile" raw d.async_items }

  save_wallet_profile-with_item :
      (iv secret_key : String) (profile : A) (d : Device storage)
      → get_secret_key storage cipher json d ≡ some secret_key
      → (secret_key == "") ≡ false
      → (save_wallet_profile storage cipher json iv profile d).1
        ≡ with_item (blob_of iv secret_key profile) d
  unfolding save_wallet_profile encrypt_profile with_item
  save_wallet_profile-with_item iv secret_key profile d held full =
      rw (save_wallet_profile, held, full) refl

  -- A profile that is saved reads back, if the key of the wallet is there, neither the nonce nor the
  -- encrypted text contains a `.`, and the text of the profile decrypts and parses.
  pub get_wallet_profile-save_wallet_profile :
      (iv secret_key : String) (profile : A) (d : Device storage)
      → get_secret_key storage cipher json d ≡ some secret_key
      → (secret_key == "") ≡ false
      → has_char b'.' iv ≡ false
      → let key = cipher.derive_profile_key secret_key in
        let ct = cipher.encrypt key iv (json.write profile) in
        has_char b'.' ct ≡ false
        → cipher.decrypt key iv ct ≡ some (json.write profile)
        → json.read (json.write profile) ≡ some profile
        → get_wallet_profile storage cipher json
            (save_wallet_profile storage cipher json iv profile d).1
          ≡ some profile
  get_wallet_profile-save_wallet_profile iv secret_key profile d held full no_dot no_dot' decrypts
        parses =
      let raw = blob_of iv secret_key profile in
      let ct = cipher.encrypt (cipher.derive_profile_key secret_key) iv (json.write profile) in
      ap (get_wallet_profile storage cipher json)
        (save_wallet_profile-with_item iv secret_key profile d held full)
      ∙ get_wallet_profile-stored raw secret_key (json.write profile) (with_item raw d)
          (unfold with_item in async.get-set "wallet.profile" "wallet.profile" raw d.async_items)
          (joined_ne_empty iv ct) (unfold with_item get_secret_key in held) full
          (plaintext_of-blob iv secret_key profile no_dot no_dot' ∙ decrypts)
      ∙ parses
