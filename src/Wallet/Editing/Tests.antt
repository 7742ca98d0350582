-- ===== src/Wallet/Editing/Tests.antt =====
-- screens/EditPersonalProfileScreen.tsx: a save on a small device.
use did_wallet_thesis.Common.{
  String, Bool, true, false, none, some, [], ◌∷◌, Result, ok, throw, ◌==◌, ◌≡◌, refl, ◌⊎◌,
  if◌then◌else◌,
}
use did_wallet_thesis.Common.Text.{has_char}
use did_wallet_thesis.Common.Trim.{trim, trim_start, trim_end, is_blank}
use did_wallet_thesis.Wallet.Storage.{function_store, empty_store}
use did_wallet_thesis.Wallet.Account.{
  DeviceStorage, ProfileCipher, ProfileJson, Device, get_secret_key, get_wallet_profile,
  plaintext_of,
}
use did_wallet_thesis.Wallet.Did.{VeramoAgent, Curve, RegisterRequest, RegisterAnswer, registered}
use did_wallet_thesis.Wallet.Registration.Email.{is_email, some_of, one_char, at_end, is_part}
use did_wallet_thesis.Wallet.Registration.Finish.{
  WalletProfileBase, WalletProfile, personal_profile,
}
use did_wallet_thesis.Wallet.Editing.{
  PersonalWalletProfile, Editor, patch_of, patched, validation, save, has_changes,
}
use did_wallet_thesis.Wallet.Editing.Laws.{save_lem}
use did_wallet_thesis.Wallet.Editing.Laws.{registered as outcome_of}

abbrev storage : DeviceStorage
storage = record {
  secure = function_store;
  async = function_store;
  cleared = empty_store;
  get-cleared = λ key. refl;
}

-- A cipher that keeps the text, and texts that stand for one profile each.
abbrev cipher : ProfileCipher
cipher = record {
  derive_profile_key = λ secret. secret;
  encrypt = λ key iv plaintext. plaintext;
  decrypt = λ key iv text. some text;
}

abbrev base : String → WalletProfileBase
base email = record {
  did = "did:ethr:sepolia:0xab";
  wallet_address = "0xAB";
  country = "Romania";
  county = "Iasi";
  city = "Iasi";
  address = "";
  email = email;
}

abbrev before : WalletProfile
before = personal_profile (base "a@b.ro") "Ana" "Pop" "1990-01-01"

abbrev changed : WalletProfile
changed = personal_profile (base "a@c.ro") "Ana" "Popa" "1990-01-01"

abbrev email_of : WalletProfile → String
email_of (personal_profile base first last birth) = base.email
email_of profile = ""

abbrev json : ProfileJson WalletProfile
json = record {
  write = λ profile. if email_of profile == "a@c.ro" then "new" else "old";
  read = λ text. some (if text == "new" then changed else before);
}

abbrev device : Device storage
device = record {
  secure_items = λ key. if key == "wallet.secretKey" then some "k" else none;
  async_items = λ key. if key == "wallet.profile" then some "old" else none;
}

abbrev agent : VeramoAgent
agent = record {
  Database = Bool;
  initialize_agent = λ secret db. (ok tt, db);
  did_manager_find = λ alias db. ok [];
  did_manager_create = λ provider alias db. (throw "none", db);
  did_manager_get = λ did db. ok (record {
    did = did;
    provider = "did:ethr:sepolia";
    alias = none;
    keys = record { kid = "k"; key_type = "Secp256k1"; public_key_hex = "04" } ∷ [];
  });
  key_manager_sign = λ kid message db. ok "0x00";
}

abbrev curve : Curve
curve = record {
  get_address = λ raw. ok "0xAB";
  compute_public_key = λ raw. ok raw;
  keccak_of = λ key. key;
}

abbrev person : PersonalWalletProfile
person = record {
  base = base "a@b.ro";
  first_name = "Ana";
  last_name = "Pop";
  birth_date = "1990-01-01";
}

abbrev editor : Editor storage agent
editor = record {
  profile = some person;
  first_name = "Ana ";
  last_name = "Popa";
  email = "a@c.ro";
  birth_date = "1990-01-01";
  saving = false;
  loading = false;
  alert = none;
  went_back = false;
  device = device;
  did_service = record { initialized = false; database = false };
}

abbrev post : RegisterRequest → Result String RegisterAnswer
post request = ok registered

edited : has_changes storage cipher json agent curve editor ≡ true
unfolding has_changes trim trim_start trim_end is_blank
edited = refl

valid : validation "Ana " "Popa" "a@c.ro" ≡ none
unfolding validation trim trim_start trim_end is_blank is_email some_of one_char at_end is_part
valid = refl

changed_lem : patch_of storage cipher json agent curve editor before ≡ changed
unfolding patched trim trim_start trim_end is_blank
changed_lem = refl

save_lem_example :
    let st' = save storage cipher json agent curve post "iv" 7 editor in
    ((e : String) × (outcome_of storage cipher json agent curve post 7 person editor ≡ throw e)
      × (st'.alert ≡ some ("Could not save changes", e))
      × (st'.went_back ≡ false)
      × (st'.device ≡ device))
    ⊎ ((outcome_of storage cipher json agent curve post 7 person editor ≡ ok tt)
        × (st'.went_back ≡ true)
        × (get_wallet_profile storage cipher json st'.device
            ≡ some (patch_of storage cipher json agent curve editor before)))
unfolding patched trim trim_start trim_end is_blank has_char get_wallet_profile get_secret_key
    plaintext_of
save_lem_example =
    save_lem storage cipher json agent curve post "iv" 7 person before "k" editor valid refl refl
      refl refl refl refl refl refl
