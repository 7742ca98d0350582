-- ===== src/Wallet/Pin/View.antt =====
-- services/pinService.ts: what each write of the service does to the items that it reads back.
use did_wallet_thesis.Common.{
  ℕ, ◌+◌, ◌≡◌, refl, String, false, Option, none, some, arith, ltb, ◌==◌, if◌then◌else◌, ◌&&◌, ◌∙◌,
}
use did_wallet_thesis.Common.Decimal.{print, parse_int, parse_int-print, print_ne_empty}
use did_wallet_thesis.Wallet.Storage.{KeyValueStore}
use did_wallet_thesis.Wallet.Pin.{
  PinStatus, at_least, less_than, get_status, number_text, plus_one, cooldown_ms, record_failure,
  max_failures_before_cooldown, max_failures_before_wipe_offer, current_algo,
}

pub zero_text : parse_int "0" ≡ some 0
unfolding parse_int
zero_text = refl

nan_text : parse_int "NaN" ≡ none
unfolding parse_int
nan_text = refl

pub parse_int-number_text : (n : Option ℕ) → parse_int (number_text n) ≡ n
parse_int-number_text none = nan_text
parse_int-number_text (some n) = parse_int-print n

module _ (kv : KeyValueStore) where
  open kv use {Store, get_item, set_item, delete_item, get-set, get-delete}

  -- After a correct PIN the count is zero and no cooldown holds.
  pub status-reset :
      (now : ℕ) (s : Store)
      → let status =
          get_status kv now (delete_item "pin.lockedUntil" (set_item "pin.failures" "0" s)) in
        (status.failures ≡ some 0) × (status.is_locked ≡ false) × (status.offer_wipe ≡ false)
  unfolding get_status
  status-reset now s = simp (get-set, get-delete, zero_text) (refl, refl, refl)

  -- After a wrong PIN the count has grown by one.
  pub failures-record_failure :
      (status : PinStatus) (at now : ℕ) (s : Store)
      → (get_status kv now (record_failure kv status at s)).failures ≡ plus_one status.failures
  unfolding get_status record_failure
  failures-record_failure status at now s = ground (
    arith,
    get-set "pin.failures" "pin.lockedUntil" (print (at + cooldown_ms))
        (set_item "pin.failures" (number_text (plus_one status.failures)) s),
    get-set "pin.failures" "pin.failures" (number_text (plus_one status.failures)) s,
    parse_int-number_text (plus_one status.failures),
  )

  -- A wrong PIN starts a cooldown from the fifth failure up to the ninth, and else leaves the lock.
  pub locked-record_failure :
      (status : PinStatus) (at now : ℕ) (s : Store)
      → (get_status kv now (record_failure kv status at s)).is_locked ≡ (
          if at_least (plus_one status.failures) max_failures_before_cooldown
            && less_than (plus_one status.failures) max_failures_before_wipe_offer
          then ltb now (at + cooldown_ms)
          else (get_status kv now s).is_locked)
  unfolding get_status record_failure
  locked-record_failure status at now s = ground (
    arith,
    get-set "pin.lockedUntil" "pin.lockedUntil" (print (at + cooldown_ms))
        (set_item "pin.failures" (number_text (plus_one status.failures)) s),
    get-set "pin.lockedUntil" "pin.failures" (number_text (plus_one status.failures)) s,
    parse_int-print (at + cooldown_ms),
    print_ne_empty (at + cooldown_ms),
  )

  -- A PIN with salt and hash is stored under the current algorithm.
  pub record IsConfigured (salt_hex hash : String) (s : Store) : Type 0 where
    pub stored_salt : get_item "pin.salt" s ≡ some salt_hex
    pub salt_ne_empty : (salt_hex == "") ≡ false
    pub stored_hash : get_item "pin.hash" s ≡ some hash
    pub hash_ne_empty : (hash == "") ≡ false
    pub stored_algo : get_item "pin.algo" s ≡ some current_algo

  -- Counting a failure leaves the PIN itself alone.
  pub record_failure-IsConfigured :
      (salt_hex hash : String) (status : PinStatus) (at : ℕ) (s : Store)
      → IsConfigured salt_hex hash s
      → IsConfigured salt_hex hash (record_failure kv status at s)
  unfolding record_failure
  record_failure-IsConfigured salt_hex hash status at s c = record {
    stored_salt = kept "pin.salt" refl refl ∙ c.stored_salt;
    salt_ne_empty = c.salt_ne_empty;
    stored_hash = kept "pin.hash" refl refl ∙ c.stored_hash;
    hash_ne_empty = c.hash_ne_empty;
    stored_algo = kept "pin.algo" refl refl ∙ c.stored_algo;
  }
    where
      kept :
          (key : String)
          → ("pin.failures" == key) ≡ false
          → ("pin.lockedUntil" == key) ≡ false
          → get_item key (record_failure kv status at s) ≡ get_item key s
      kept key n m = ground (
        arith,
        get-set key "pin.lockedUntil" (print (at + cooldown_ms))
            (set_item "pin.failures" (number_text (plus_one status.failures)) s),
        get-set key "pin.failures" (number_text (plus_one status.failures)) s,
      )
