-- ===== src/Wallet/Registration.antt =====
-- screens/RegistrationWizardScreen.tsx, context/RegistrationContext.tsx, services/euGeoService.ts and the
-- stages of screens/WelcomeScreen.tsx: the wizard that registers an account, as a function of events.
-- A request is two events, its start and its end, and an end may come at any step. The requests of a
-- wizard that was left are not followed.
pub mod Email
pub mod Events
pub mod Sound
pub mod Requests
pub mod Steps
pub mod Reach
pub mod Finish
pub mod Gate
pub mod Pieces
pub mod Complete
pub mod Laws
pub mod Resume
mod Tests
mod GateTests
use Prim.Native.String
use Prim.Native.String.{count}
use did_wallet_thesis.Common.{
  ℕ, String, Bool, true, false, not, ◌&&◌, ◌||◌, Option, none, some, List, [], ◌∷◌, ◌==◌, eqb,
  if◌then◌else◌, map, get_or, includes,
}
use did_wallet_thesis.Common.Text.{starts_with}
use did_wallet_thesis.Common.Trim.{trim}
use did_wallet_thesis.Wallet.Registration.Email.{is_email}

pub data AccountType : Type 0 where
  personal university enterprise : AccountType

pub data Step : Type 0 where
  identity_step address_step gating_step pin_step pin_confirm_step consents_step : Step

pub data Stage : Type 0 where
  splash chooser wizard : Stage

pub record RegistrationState : Type 0 where
  pub account_type : Option AccountType
  pub first_name : String
  pub last_name : String
  pub birth_date : String
  pub legal_name : String
  pub fiscal_code : String
  pub email : String
  pub country : String
  pub county : String
  pub city : String
  pub address : String
  pub pin : String
  pub consent_terms : Bool
  pub consent_gdpr : Bool
  pub consent_privacy : Bool

abbrev pub initial_state : RegistrationState
initial_state = record {
  account_type = none;
  first_name = "";
  last_name = "";
  birth_date = "";
  legal_name = "";
  fiscal_code = "";
  email = "";
  country = "";
  county = "";
  city = "";
  address = "";
  pin = "";
  consent_terms = false;
  consent_gdpr = false;
  consent_privacy = false;
}

-- The context, which outlives the wizard, and the wizard's own state behind it.
pub record Wizard : Type 0 where
  pub stage : Stage
  pub account_type : AccountType
  pub state : RegistrationState
  pub did : String
  pub wallet_address : String
  pub accreditation_id : String
  pub step : Step
  pub loading : Bool
  pub error : Option String
  pub pin_confirm : String
  pub enterprise_request_id : Option String
  pub polling_accreditation : Bool
  pub university_private_key : String
  pub derived_address : Option String
  pub completed : Bool

abbrev pub is_personal : AccountType → Bool
is_personal personal = true
is_personal _ = false

abbrev pub is_enterprise : AccountType → Bool
is_enterprise enterprise = true
is_enterprise _ = false

-- A text that is truthy.
abbrev pub filled : String → Bool
filled s = not (s == "")

-- The wizard is rendered anew for the type, with the context as it is.
unfoldable pub mount : AccountType → Wizard → Wizard
mount type w = record w {
  stage = wizard;
  account_type = type;
  step = identity_step;
  loading = false;
  error = none;
  pin_confirm = "";
  enterprise_request_id = none;
  polling_accreditation = false;
  university_private_key = "";
  derived_address = none;
}

abbrev pub first_wizard : Wizard
first_wizard = record {
  stage = splash;
  account_type = personal;
  state = initial_state;
  did = "";
  wallet_address = "";
  accreditation_id = "";
  step = identity_step;
  loading = false;
  error = none;
  pin_confirm = "";
  enterprise_request_id = none;
  polling_accreditation = false;
  university_private_key = "";
  derived_address = none;
  completed = false;
}

unfoldable pub go : Step → Wizard → Wizard
go next w = record w { error = none; step = next }

-- RegistrationContext.reset.
unfoldable pub reset : Wizard → Wizard
reset w = record w { state = initial_state; did = ""; wallet_address = ""; accreditation_id = "" }

unfoldable pub set_identity : String → String → Wizard → Wizard
set_identity did wallet_address w = record w { did = did; wallet_address = wallet_address }

-- Step: identity.
unfoldable pub has_valid_email : RegistrationState → Bool
unfolding trim is_email
has_valid_email st = filled (trim st.email) && is_email (trim st.email)

unfoldable pub can_advance_identity : AccountType → RegistrationState → Bool
unfolding trim has_valid_email
can_advance_identity type st =
    if is_personal type
    then filled (trim st.first_name)
      && (filled (trim st.last_name) && (filled st.birth_date && has_valid_email st))
    else filled (trim st.legal_name)
      && (has_valid_email st && (if is_enterprise type then filled (trim st.fiscal_code) else true))

unfoldable pub continue_identity : Wizard → Wizard
unfolding trim is_email go can_advance_identity
continue_identity w =
    if not (can_advance_identity w.account_type w.state)
    then w
    else if filled (trim w.state.email) && not (is_email (trim w.state.email))
    then record w { error = some "Please enter a valid email address." }
    else go address_step w

-- services/euGeoService.ts, over the data of assets/eu-geo.json.
pub record EuCountry : Type 0 where
  pub code : String
  pub name : String
  pub regions : List String

unfoldable pub get_country_by_code : List EuCountry → String → Option EuCountry
get_country_by_code [] code = none
get_country_by_code (c ∷ countries) code =
    let rest = get_country_by_code countries code in if c.code == code then some c else rest

unfoldable pub regions_of : Option EuCountry → List String
regions_of none = []
regions_of (some c) = c.regions

unfoldable pub get_regions_for_country : List EuCountry → String → List String
unfolding get_country_by_code regions_of
get_regions_for_country countries code = regions_of (get_country_by_code countries code)

unfoldable pub is_eu_country : List EuCountry → String → Bool
is_eu_country [] code = false
is_eu_country (c ∷ countries) code = c.code == code || is_eu_country countries code

-- Step: address. `countries.find((c) => c.name === name)?.code ?? ""`.
unfoldable pub code_of_name : List EuCountry → String → String
code_of_name [] name = ""
code_of_name (c ∷ countries) name =
    let rest = code_of_name countries name in if c.name == name then c.code else rest

unfoldable pub regions_offered : List EuCountry → String → List String
unfolding get_regions_for_country code_of_name
regions_offered countries country =
    if filled country
    then get_regions_for_country countries (code_of_name countries country)
    else []

unfoldable pub select_country : String → Wizard → Wizard
select_country v w = record w { state = record w.state { country = v; county = ""; city = "" } }

unfoldable pub can_advance_address : RegistrationState → Bool
unfolding trim
can_advance_address st = filled st.country && (filled st.county && filled (trim st.city))

unfoldable pub continue_address : Wizard → Wizard
unfolding go can_advance_address
continue_address w =
    if not (can_advance_address w.state)
    then w
    else if is_personal w.account_type
    then go pin_step w
    else go gating_step w

-- Step: gating. The private key of an institution.
unfoldable pub is_full_key : String → Bool
unfolding starts_with
is_full_key key = eqb (count key) 64 || (starts_with "0x" key && eqb (count key) 66)

unfoldable pub normalized : String → String
unfolding starts_with
normalized key = if starts_with "0x" key then key else String.◌++◌ "0x" key

-- `compute_address` is `ethers.computeAddress`, and `none` means that it throws.
unfoldable pub on_university_key_change : (String → Option String) → String → Wizard → Wizard
unfolding trim is_full_key normalized
on_university_key_change compute_address key w = record w {
  university_private_key = key;
  error = none;
  derived_address =
      if is_full_key (trim key) then compute_address (normalized (trim key)) else none;
}
