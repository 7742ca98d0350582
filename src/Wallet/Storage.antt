-- ===== src/Wallet/Storage.antt =====
-- The key-value stores of the device, expo-secure-store and AsyncStorage, which are third-party
-- code: an interface with the documented behaviour of reading, writing and deleting an item. A call
-- that the device refuses is not modelled.
use did_wallet_thesis.Common.{String, ◌≡◌, refl, Option, none, some, ◌==◌, if◌then◌else◌}

pub record KeyValueStore : Type 1 where
  pub Store : Type 0
  pub get_item : String → Store → Option String
  pub set_item : String → String → Store → Store
  pub delete_item : String → Store → Store
  pub get-set :
      (j k v : String) (s : Store)
      → get_item j (set_item k v s) ≡ (if k == j then some v else get_item j s)
  pub get-delete :
      (j k : String) (s : Store)
      → get_item j (delete_item k s) ≡ (if k == j then none else get_item j s)

abbrev write : String → Option String → (String → Option String) → String → Option String
write k v s j = if k == j then v else s j

-- A store as a function from keys, which shows that the laws can hold.
abbrev pub function_store : KeyValueStore
function_store = record {
  Store = String → Option String;
  get_item = λ k s. s k;
  set_item = λ k v s. write k (some v) s;
  delete_item = λ k s. write k none s;
  get-set = λ j k v s. refl;
  get-delete = λ j k s. refl;
}

abbrev pub empty_store : String → Option String
empty_store _ = none
