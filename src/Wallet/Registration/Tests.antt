-- ===== src/Wallet/Registration/Tests.antt =====
-- screens/RegistrationWizardScreen.tsx: runs on small inputs.
use Prim.Native.String
use did_wallet_thesis.Common.{
  ℕ, ◌≡◌, refl, String, Bool, true, false, Option, none, some, List, [], ◌∷◌, ◌==◌, Result, ok, sym,
  ap, ok_inj, ◌+◌, ◌↔◌, if◌then◌else◌,
}
use mathlib.Core.Path.{subst}
use did_wallet_thesis.Common.Text.{take_chars, has_char}
use did_wallet_thesis.Common.Trim.{trim, trim_start, trim_end, is_blank, drop_last}
use did_wallet_thesis.Wallet.Keypad.{key_1, key_2, key_3, key_4, key_5, key_6, press_key}
use did_wallet_thesis.Wallet.Storage.{function_store, empty_store}
use did_wallet_thesis.Wallet.Pin.{Argon2Options, verify_pin, to_hex, derive_pin_hash}
use did_wallet_thesis.Wallet.Account.{
  DeviceStorage, ProfileCipher, ProfileJson, Device, get_secret_key, get_wallet_profile, has_wallet,
  is_session_active, create_wallet,
}
use did_wallet_thesis.Wallet.Did.{
  VeramoAgent, Curve, RegisterRequest, Identifier, get_or_create_identity, initialize,
  found_or_created, derive_ethereum_address, last_part,
}
use did_wallet_thesis.Wallet.Registration.{
  university, Wizard, EuCountry, first_wizard, initial_state, wizard, consents_step,
  regions_offered, mount, go, continue_identity, continue_address, select_country,
  can_advance_identity, can_advance_address, has_valid_email, get_regions_for_country,
  get_country_by_code, regions_of, code_of_name,
}
use did_wallet_thesis.Wallet.Registration.Email.{
  is_email, some_of, one_char, at_end, is_part, HasParts, is_email_lem,
}
use did_wallet_thesis.Wallet.Registration.Events.{
  Event, get_started, choose, edit, legal_name_field, email_field, city_field,
  continue_identity_pressed, continue_address_pressed, country_selected, county_selected,
  check_over, pressed, handle, Reached, initial, after, in_wizard, on_stage, on_chooser,
  choose_type, is_shown, edit_text, press, on_pin_change, on_pin_confirm_change, check_ended,
  accredited,
}
use did_wallet_thesis.Wallet.Registration.Sound.{IsSound}
use did_wallet_thesis.Wallet.Registration.Reach.{Reached-IsSound}
use did_wallet_thesis.Wallet.Registration.Finish.{
  WalletProfile, university_profile, CreatedIdentity, Inputs, App, profile_of, profile_for, base_of,
  ensure_identity_created, create_identity, finish,
}
use did_wallet_thesis.Wallet.Registration.Complete.{finish_lem}

abbrev pub countries : List EuCountry
countries = record { code = "RO"; name = "Romania"; regions = "Iasi" ∷ "Cluj" ∷ [] } ∷ []

abbrev pub no_address : String → Option String
no_address key = none

-- A university fills in the form, its accreditation is found, and it types its PIN twice.
abbrev events : List Event
events =
    get_started
    ∷ choose university
    ∷ edit legal_name_field "TUIASI"
    ∷ edit email_field "a@b.ro"
    ∷ continue_identity_pressed
    ∷ country_selected "Romania"
    ∷ county_selected "Iasi"
    ∷ edit city_field "Iasi"
    ∷ continue_address_pressed
    ∷ check_over (ok (some "0x01"))
    ∷ pressed key_1
    ∷ pressed key_2
    ∷ pressed key_3
    ∷ pressed key_4
    ∷ pressed key_5
    ∷ pressed key_6
    ∷ pressed key_1
    ∷ pressed key_2
    ∷ pressed key_3
    ∷ pressed key_4
    ∷ pressed key_5
    ∷ pressed key_6
    ∷ []

run_events : List Event → Wizard → Wizard
run_events [] w = w
run_events (event ∷ rest) w = run_events rest (handle countries no_address event w)

run_events-Reached :
    (rest : List Event) (w : Wizard)
    → Reached countries no_address w
    → Reached countries no_address (run_events rest w)
unfolding run_events
run_events-Reached [] w r = r
run_events-Reached (event ∷ rest) w r =
    run_events-Reached rest (handle countries no_address event w) (after event w r)

-- The state behind them.
abbrev pub consents : Wizard
consents = record {
  stage = wizard;
  account_type = university;
  state = record initial_state {
    account_type = some university;
    legal_name = "TUIASI";
    email = "a@b.ro";
    country = "Romania";
    county = "Iasi";
    city = "Iasi";
    pin = "123456";
  };
  did = "";
  wallet_address = "";
  accreditation_id = "0x01";
  step = consents_step;
  loading = false;
  error = none;
  pin_confirm = "123456";
  enterprise_request_id = none;
  polling_accreditation = false;
  university_private_key = "";
  derived_address = none;
  completed = false;
}

run_events-consents : run_events events first_wizard ≡ consents
unfolding run_events handle in_wizard on_stage on_chooser choose_type mount edit_text is_shown
    continue_identity can_advance_identity has_valid_email is_email some_of one_char at_end is_part
    is_blank trim trim_start trim_end go select_country regions_offered get_regions_for_country
    get_country_by_code regions_of code_of_name continue_address can_advance_address check_ended
    accredited press press_key drop_last on_pin_change on_pin_confirm_change
run_events-consents = refl

consents-Reached : Reached countries no_address consents
consents-Reached =
    subst (λ (w : Wizard). Reached countries no_address w) run_events-consents
      (run_events-Reached events first_wizard initial)

Reached-IsSound_example : IsSound countries consents
Reached-IsSound_example = Reached-IsSound countries no_address consents consents-Reached

is_email_lem_example : (is_email "a@b.ro" ≡ true) ↔ HasParts "a@b.ro"
is_email_lem_example = is_email_lem "a@b.ro"

address_accepted :
    (is_email "a@b.ro" ≡ true) × (is_email "a@b" ≡ false) × (is_email "a b@c.ro" ≡ false)
unfolding is_email some_of one_char at_end is_part is_blank
address_accepted = (refl, refl, refl)

abbrev pub storage : DeviceStorage
storage = record {
  secure = function_store;
  async = function_store;
  cleared = empty_store;
  get-cleared = λ key. refl;
}

abbrev pub cipher : ProfileCipher
cipher = record {
  derive_profile_key = λ secret. secret;
  encrypt = λ key iv plaintext. "00";
  decrypt = λ key iv text. some "{}";
}

abbrev pub device : Device storage
device = record { secure_items = empty_store; async_items = empty_store }

abbrev pub join : String → String → Argon2Options → String
join pin salt options = String.◌++◌ pin salt

abbrev pub identifier : Identifier
identifier = record {
  did = "did:ethr:sepolia:0xab";
  provider = "did:ethr:sepolia";
  alias = none;
  keys = [];
}

-- An agent whose database is whether it created the identity.
abbrev pub agent : VeramoAgent
agent = record {
  Database = Bool;
  initialize_agent = λ secret db. (ok tt, db);
  did_manager_find = λ alias db. ok (if db then identifier ∷ [] else []);
  did_manager_create = λ provider alias db. (ok identifier, true);
  did_manager_get = λ did db. ok identifier;
  key_manager_sign = λ kid message db. ok "0x00";
}

abbrev pub curve : Curve
curve = record {
  get_address = λ raw. ok "0xAB";
  compute_public_key = λ raw. ok raw;
  keccak_of = λ key. key;
}

abbrev pub app_of : Wizard → App storage agent ℕ
app_of w = record {
  wizard = w;
  device = device;
  did_service = record { initialized = false; database = false };
  server = 0;
}

abbrev pub count_request : RegisterRequest → ℕ → ℕ
count_request request n = n + 1

abbrev pub identity : CreatedIdentity
identity = record { did = "did:ethr:sepolia:0xab"; wallet_address = "0xAB" }

abbrev pub inputs : Inputs
inputs = record { uuid1 = "k1"; uuid2 = "k2"; iv = "iv"; salt = 10 ∷ []; timestamp = 7 }

abbrev pub stored_profile : WalletProfile
stored_profile =
    university_profile (base_of consents identity) (trim consents.state.legal_name)
      consents.accreditation_id

abbrev pub json : ProfileJson WalletProfile
json = record { write = λ profile. "{}"; read = λ text. some stored_profile }

abbrev created : Result String CreatedIdentity × App storage agent ℕ
created =
    ensure_identity_created storage cipher json true join agent curve count_request consents inputs
      (app_of consents)

made_identity_lem : created ≡ (ok identity, created.1)
unfolding ensure_identity_created create_identity create_wallet get_secret_key
    get_or_create_identity initialize found_or_created derive_ethereum_address last_part take_chars
made_identity_lem = refl

secret_held : get_secret_key storage cipher json created.1.device ≡ some "k1k2"
unfolding ensure_identity_created create_identity create_wallet get_secret_key take_chars
secret_held = refl

stored_profile_lem :
    (profile : WalletProfile)
    → profile_of consents identity ≡ ok profile
    → some stored_profile ≡ some profile
unfolding profile_of profile_for
stored_profile_lem profile h = ap some (ok_inj profile stored_profile (sym h))

hash_ne_empty : (derive_pin_hash function_store true join "123456" (to_hex (10 ∷ [])) == "") ≡ false
unfolding to_hex
hash_ne_empty = refl

finish_lem_example :
    let (outcome, app') =
      finish storage cipher json true join agent curve count_request consents inputs
        (app_of consents) in
    (outcome ≡ ok tt)
    × ((profile : WalletProfile) × (profile_of consents identity ≡ ok profile)
        × (get_wallet_profile storage cipher json app'.device ≡ some profile))
    × (has_wallet storage cipher json app'.device ≡ true)
    × (is_session_active storage cipher json app'.device ≡ true)
    × ((verify_pin function_store true join "123456" 5 6 app'.device.secure_items).0 ≡ ok true)
finish_lem_example =
    finish_lem storage cipher json true join agent curve count_request countries no_address consents
      identity "k1" "k2" "iv" 10 [] 7 (app_of consents) created.1 "k1k2" 5 6 consents-Reached refl
      refl made_identity_lem secret_held refl hash_ne_empty (unfold has_char in refl)
      (λ key text. unfold has_char in refl) (λ key profile. refl) stored_profile_lem
