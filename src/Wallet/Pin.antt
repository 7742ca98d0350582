-- ===== src/Wallet/Pin.antt =====
-- services/pinService.ts. The PIN's salt, hash, failure count and cooldown live in the secure store.
-- argon2 is a parameter, `Date.now()` and the random bytes are arguments, and `none` is NaN.
pub mod View
pub mod Verify
pub mod Setup
pub mod Guessing
mod Tests
use Prim.Native.Char.{code}
use Prim.Native.String
use Prim.Native.String.{count}
use did_wallet_thesis.Common.{
  ℕ, suc, ◌+◌, ◌/◌, ◌%◌, String, Bool, true, false, not, ◌&&◌, ◌||◌, Option, none, some, List, [],
  ◌∷◌, Result, ok, throw, ltb, leb, eqb, ◌==◌, if◌then◌else◌, truthy, get_or, is_some,
}
use did_wallet_thesis.Common.Text.{nth}
use did_wallet_thesis.Common.Decimal.{print, parse_int, is_digit}
use did_wallet_thesis.Wallet.Storage.{KeyValueStore}

abbrev pub max_failures_before_cooldown : ℕ
max_failures_before_cooldown = 5

abbrev pub max_failures_before_wipe_offer : ℕ
max_failures_before_wipe_offer = 10

abbrev pub cooldown_ms : ℕ
cooldown_ms = 30_000

abbrev pub current_algo : String
current_algo = "argon2id"

hex_digit : ℕ → String
unfolding nth
hex_digit d = String.◌∷◌ (nth "0123456789abcdef" d) ""

-- Each byte as `toString(16).padStart(2, '0')`.
unfoldable pub to_hex : List ℕ → String
unfolding hex_digit
to_hex [] = ""
to_hex (b ∷ buf) = String.◌++◌ (hex_digit (b / 16)) (String.◌++◌ (hex_digit (b % 16)) (to_hex buf))

pub record Argon2Options : Type 0 where
  pub iterations : ℕ
  pub memory : ℕ
  pub parallelism : ℕ
  pub hash_length : ℕ
  pub mode : String
  pub salt_encoding : String

abbrev pub argon2_iterations : Bool → ℕ
argon2_iterations dev = if dev then 1 else 3

abbrev pub argon2_options : Bool → Argon2Options
argon2_options dev = record {
  iterations = argon2_iterations dev;
  memory = 65536;
  parallelism = 1;
  hash_length = 32;
  mode = "argon2id";
  salt_encoding = "hex";
}

pub record PinStatus : Type 0 where
  pub has_pin : Bool
  pub is_locked : Bool
  pub locked_until : Option (Option ℕ)
  pub failures : Option ℕ
  pub offer_wipe : Bool

-- `a < b`, `a >= b` and `a + 1` on a number that may be NaN.
abbrev pub below : ℕ → Option ℕ → Bool
below a none = false
below a (some b) = ltb a b

abbrev pub at_least : Option ℕ → ℕ → Bool
at_least none b = false
at_least (some a) b = leb b a

abbrev pub less_than : Option ℕ → ℕ → Bool
less_than none b = false
less_than (some a) b = ltb a b

abbrev pub plus_one : Option ℕ → Option ℕ
plus_one none = none
plus_one (some n) = some (n + 1)

-- `String(n)`.
abbrev pub number_text : Option ℕ → String
number_text none = "NaN"
number_text (some n) = print n

-- `lockedUntil !== null && Date.now() < lockedUntil`.
abbrev pub lock_holds : ℕ → Option (Option ℕ) → Bool
lock_holds now none = false
lock_holds now (some until) = below now until

unfoldable pub all_digits : String → Bool
all_digits String.[] = true
all_digits (String.◌∷◌ c s) = is_digit c && all_digits s

-- `/^\d{6}$/.test(pin)`.
unfoldable pub is_six_digits : String → Bool
unfolding all_digits is_digit
is_six_digits pin = eqb (count pin) 6 && all_digits pin

-- The item is set, and it is another text.
abbrev pub differs : Option String → String → Bool
differs none t = false
differs (some s) t = not (s == t)

module _ (kv : KeyValueStore) where
  open kv use {Store, get_item, set_item, delete_item}

  unfoldable pub has_pin : Store → Bool
  has_pin s = is_some (get_item "pin.hash" s)

  unfoldable pub alg_mismatch : Store → Bool
  alg_mismatch s = differs (get_item "pin.algo" s) current_algo

  unfoldable pub get_status : ℕ → Store → PinStatus
  unfolding has_pin
  get_status now s =
      let failures = parse_int (get_or (get_item "pin.failures" s) "0") in
      let locked_until_str = get_item "pin.lockedUntil" s in
      let locked_until : Option (Option ℕ) =
        if truthy locked_until_str then some (parse_int (get_or locked_until_str "")) else none in
      let is_locked = lock_holds now locked_until in
      record {
        has_pin = has_pin s;
        is_locked = is_locked;
        locked_until = if is_locked then locked_until else none;
        failures = failures;
        offer_wipe = at_least failures max_failures_before_wipe_offer;
      }

  -- The writes after a wrong PIN, at the second reading `at` of the clock.
  unfoldable pub record_failure : PinStatus → ℕ → Store → Store
  record_failure status at s =
      let failures = plus_one status.failures in
      let s1 = set_item "pin.failures" (number_text failures) s in
      if at_least failures max_failures_before_cooldown
        && less_than failures max_failures_before_wipe_offer
      then set_item "pin.lockedUntil" (print (at + cooldown_ms)) s1
      else s1

  unfoldable pub clear_pin : Store → Store
  clear_pin s = delete_item "pin.lockedUntil" (
      delete_item "pin.failures"
        (delete_item "pin.hash" (delete_item "pin.salt" (delete_item "pin.algo" s))))

module _ (kv : KeyValueStore) (dev : Bool) (argon2 : String → String → Argon2Options → String) where
  open kv use {Store, get_item, set_item, delete_item}

  abbrev pub derive_pin_hash : String → String → String
  derive_pin_hash pin salt_hex = argon2 pin salt_hex (argon2_options dev)

  -- `bytes` is what the device's generator returned for the salt.
  unfoldable pub setup_pin : String → List ℕ → Store → Result String (Unit {0}) × Store
  setup_pin pin bytes s =
      if not (is_six_digits pin)
      then (throw "PIN must be exactly 6 digits.", s)
      else let salt_hex = to_hex bytes in
        let hash = derive_pin_hash pin salt_hex in
        let s1 = set_item "pin.algo" current_algo s in
        let s2 = set_item "pin.salt" salt_hex s1 in
        let s3 = set_item "pin.hash" hash s2 in
        let s4 = set_item "pin.failures" "0" s3 in (ok tt, delete_item "pin.lockedUntil" s4)

  -- `now` is the clock that `getStatus` reads, `at` the clock when a failure is recorded.
  unfoldable pub verify_pin : String → ℕ → ℕ → Store → Result String Bool × Store
  unfolding record_failure
  verify_pin pin now at s =
      let status = get_status kv now s in
      let salt_hex = get_item "pin.salt" s in
      let stored_hash = get_item "pin.hash" s in
      let stored_algo = get_item "pin.algo" s in
      if status.is_locked
      then (throw "PIN is temporarily locked. Try again later.", s)
      else if not (truthy salt_hex) || not (truthy stored_hash)
      then (throw "PIN not configured.", s)
      else if truthy stored_algo && differs stored_algo current_algo
      then (throw "PIN_ALGO_MISMATCH", s)
      else if derive_pin_hash pin (get_or salt_hex "") == get_or stored_hash ""
      then (ok true, delete_item "pin.lockedUntil" (set_item "pin.failures" "0" s))
      else (ok false, record_failure kv status at s)
