-- ===== src/Wallet/Pin/Guessing.antt =====
-- services/pinService.ts: a run of guesses, one call of `verifyPin` after another.
use did_wallet_thesis.Common.{
  ℕ, ◌+◌, ◌≤◌, ◌≡◌, refl, ◌≢◌, String, Bool, false, some, List, [], ◌∷◌, arith, Result, ok, All,
  length, ◌∙◌,
}
use did_wallet_thesis.Wallet.Storage.{KeyValueStore}
use did_wallet_thesis.Wallet.Pin.{Argon2Options, get_status, verify_pin, derive_pin_hash}
use did_wallet_thesis.Wallet.Pin.View.{IsConfigured}
use did_wallet_thesis.Wallet.Pin.Verify.{verify_pin_wrong}

-- A guess, with the two readings of the clock that its call makes.
pub record Guess : Type 0 where
  pub pin : String
  pub now : ℕ
  pub at : ℕ

module _ (kv : KeyValueStore) where
  open kv use {Store}

  -- A cooldown that is over stays over.
  pub unlocked-later :
      (now later : ℕ) (s : Store)
      → now ≤ later
      → (get_status kv now s).is_locked ≡ false
      → (get_status kv later s).is_locked ≡ false
  unfolding get_status
  unlocked-later now later s h e = ground arith

module _ (kv : KeyValueStore) (dev : Bool) (argon2 : String → String → Argon2Options → String) where
  open kv use {Store}

  pub verify_all : List Guess → Store → List (Result String Bool) × Store
  verify_all [] s = ([], s)
  verify_all (g ∷ gs) s =
      let (result, s') = verify_pin kv dev argon2 g.pin g.now g.at s in
      let (results, s'') = verify_all gs s' in (result ∷ results, s'')

  -- From the tenth wrong PIN in a row on there is no cooldown any more: once the last one is over,
  -- at `start`, any number of further wrong guesses are all tried and return false, each is
  -- counted, and still no cooldown holds.
  pub guessing_unlimited :
      (salt_hex hash : String) (start later n : ℕ) (gs : List Guess) (s : Store)
      → IsConfigured kv salt_hex hash s
      → (get_status kv start s).failures ≡ some n
      → (get_status kv start s).is_locked ≡ false
      → 9 ≤ n
      → start ≤ later
      → All
          (λ (g : Guess). (start ≤ g.now) × (derive_pin_hash kv dev argon2 g.pin salt_hex ≢ hash))
          gs
      → let (results, s') = verify_all gs s in
        All (λ (r : Result String Bool). r ≡ ok false) results
        × (length results ≡ length gs)
        × ((get_status kv later s').failures ≡ some (n + length gs))
        × ((get_status kv later s').is_locked ≡ false)
  unfolding verify_all
  guessing_unlimited salt_hex hash start later n [] s c e u many h gs =
      (tt, refl, same-failures ∙ ground arith, unlocked-later kv start later s h u)
    where
      same-failures : (get_status kv later s).failures ≡ some n
      same-failures = unfold get_status in e
  guessing_unlimited salt_hex hash start later n (g ∷ gs) s c e u many h ((after, wrong), rest) =
      let here = unlocked-later kv start g.now s after u in
      let (refused, c', e', u') =
        verify_pin_wrong kv dev argon2 salt_hex hash g.pin g.now g.at start n s c here
          (unfold get_status in e) wrong in
      let (all_refused, same_length, counted, unlocked) =
        guessing_unlimited salt_hex hash start later (n + 1) gs
          (verify_pin kv dev argon2 g.pin g.now g.at s).1 c' e' (u' ∙ ground arith) (omega arith) h
          rest in
      ((refused, all_refused), omega arith, counted ∙ ground arith, unlocked)
