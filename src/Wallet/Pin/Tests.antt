-- ===== src/Wallet/Pin/Tests.antt =====
-- services/pinService.ts: runs on concrete stores. The stand-in for argon2 joins PIN and salt.
use Prim.Native.String
use did_wallet_thesis.Common.{
  ◌≡◌, refl, ◌≢◌, String, Bool, true, false, Option, some, List, [], ◌∷◌, arith, Result, ok, throw,
  All, length, eq_iff,
}
use did_wallet_thesis.Common.Decimal.{parse_int, print}
use did_wallet_thesis.Wallet.Storage.{function_store, empty_store}
use did_wallet_thesis.Wallet.Pin.{
  Argon2Options, get_status, setup_pin, verify_pin, derive_pin_hash, to_hex, is_six_digits,
}
use did_wallet_thesis.Wallet.Pin.View.{IsConfigured}
use did_wallet_thesis.Wallet.Pin.Verify.{verify_pin_sound, verify_pin_wrong, cooldown_refuses}
use did_wallet_thesis.Wallet.Pin.Guessing.{Guess, verify_all, guessing_unlimited}
use did_wallet_thesis.Wallet.Pin.Setup.{verify_pin-setup_pin}

abbrev join : String → String → Argon2Options → String
join pin salt _ = String.◌++◌ pin salt

abbrev put : String → String → (String → Option String) → String → Option String
put = function_store.set_item

-- The PIN 123456 with the salt 0a, after the given number of wrong PINs.
abbrev stored : String → String → Option String
stored failures =
    put "pin.algo" "argon2id"
      (put "pin.salt" "0a" (put "pin.hash" "1234560a" (put "pin.failures" failures empty_store)))

stored-IsConfigured :
    (failures : String) → IsConfigured function_store "0a" "1234560a" (stored failures)
stored-IsConfigured failures = record {
  stored_salt = refl;
  salt_ne_empty = refl;
  stored_hash = refl;
  hash_ne_empty = refl;
  stored_algo = refl;
}

wrong_hash : derive_pin_hash function_store true join "000000" "0a" ≢ "1234560a"
wrong_hash = ground (arith, eq_iff "0000000a" "1234560a")

right_pin : (verify_pin function_store true join "123456" 5 6 (stored "3")).0 ≡ ok true
unfolding verify_pin get_status parse_int
right_pin = refl

fifth_failure :
    let s = (verify_pin function_store true join "000000" 5 6 (stored "4")).1 in
    (s "pin.failures" ≡ some "5") × (s "pin.lockedUntil" ≡ some "30006")
unfolding verify_pin get_status parse_int print
fifth_failure = (refl, refl)

five_digits :
    setup_pin function_store true join "12345" (10 ∷ []) empty_store
    ≡ (throw "PIN must be exactly 6 digits.", empty_store)
unfolding setup_pin is_six_digits
five_digits = refl

verify_pin_sound_example :
    (salt_hex : String) × (hash : String) × ((get_status function_store 5 (stored "3")).is_locked
      ≡ false)
    × (function_store.get_item "pin.salt" (stored "3") ≡ some salt_hex)
    × (function_store.get_item "pin.hash" (stored "3") ≡ some hash)
    × (derive_pin_hash function_store true join "123456" salt_hex ≡ hash)
unfolding verify_pin get_status parse_int
verify_pin_sound_example = verify_pin_sound function_store true join "123456" 5 6 (stored "3") refl

verify_pin_wrong_example :
    let (result, s') = verify_pin function_store true join "000000" 5 6 (stored "4") in
    (result ≡ ok false)
    × IsConfigured function_store "0a" "1234560a" s'
    × ((get_status function_store 9 s').failures ≡ some 5)
    × ((get_status function_store 9 s').is_locked ≡ true)
unfolding get_status parse_int
verify_pin_wrong_example =
    verify_pin_wrong function_store true join "0a" "1234560a" "000000" 5 6 9 4 (stored "4")
      (stored-IsConfigured "4") refl refl wrong_hash

cooldown_refuses_example :
    let (_, s') = verify_pin function_store true join "000000" 5 6 (stored "4") in
    verify_pin function_store true join "123456" 20_000 20_001 s'
    ≡ (throw "PIN is temporarily locked. Try again later.", s')
unfolding get_status parse_int
cooldown_refuses_example =
    cooldown_refuses function_store true join "0a" "1234560a" "000000" "123456" 5 6 20_000 20_001 4
      (stored "4") (stored-IsConfigured "4") refl refl wrong_hash (omega arith) (omega arith)
      (omega arith)

abbrev guesses : List Guess
guesses =
    record { pin = "000000"; now = 8; at = 8 } ∷ record { pin = "000000"; now = 8; at = 9 } ∷ []

guessing_unlimited_example :
    let (results, s') = verify_all function_store true join guesses (stored "9") in
    All (λ (r : Result String Bool). r ≡ ok false) results
    × (length results ≡ 2)
    × ((get_status function_store 9 s').failures ≡ some 11)
    × ((get_status function_store 9 s').is_locked ≡ false)
unfolding get_status parse_int
guessing_unlimited_example =
    guessing_unlimited function_store true join "0a" "1234560a" 7 9 9 guesses (stored "9")
      (stored-IsConfigured "9") refl refl (omega arith) (omega arith)
      ((omega arith, wrong_hash), ((omega arith, wrong_hash), tt))

verify_pin-setup_pin_example :
    let (done, s') = setup_pin function_store true join "123456" (10 ∷ []) (stored "7") in
    (done ≡ ok tt) × ((verify_pin function_store true join "123456" 5 6 s').0 ≡ ok true)
unfolding is_six_digits to_hex
verify_pin-setup_pin_example =
    verify_pin-setup_pin function_store true join "123456" 10 [] 5 6 (stored "7") refl refl
