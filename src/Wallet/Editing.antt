-- ===== src/Wallet/Editing.antt =====
-- screens/EditPersonalProfileScreen.tsx: the editing of a personal profile. A date is its ISO text;
-- `toIso(toDate(s))` is a parameter, and so are the services behind didService.
pub mod Laws
mod Tests
use Prim.Native.String
use did_wallet_thesis.Common.{
  ℕ, String, Bool, true, false, not, ◌&&◌, ◌||◌, Option, none, some, Result, ok, throw, run_then,
  ◌==◌, if◌then◌else◌, is_some,
}
use did_wallet_thesis.Common.Trim.{trim}
use did_wallet_thesis.Wallet.Account.{
  DeviceStorage, ProfileCipher, ProfileJson, Device, get_secret_key, get_wallet_profile,
  update_wallet_profile,
}
use did_wallet_thesis.Wallet.Did.{
  VeramoAgent, Curve, DidService, RegisterRequest, RegisterAnswer, update_registered_profile,
}
use did_wallet_thesis.Wallet.Registration.{filled}
use did_wallet_thesis.Wallet.Registration.Email.{is_email}
use did_wallet_thesis.Wallet.Registration.Finish.{
  WalletProfileBase, WalletProfile, personal_profile, university_profile, enterprise_profile,
}

pub record PersonalWalletProfile : Type 0 where
  pub base : WalletProfileBase
  pub first_name : String
  pub last_name : String
  pub birth_date : String

pub record Editor (storage : DeviceStorage) (agent : VeramoAgent) : Type 0 where
  pub profile : Option PersonalWalletProfile
  pub first_name : String
  pub last_name : String
  pub email : String
  pub birth_date : String
  pub saving : Bool
  pub loading : Bool
  pub alert : Option (String × String)
  pub went_back : Bool
  pub device : Device storage
  pub did_service : DidService agent

abbrev pub personal_of : Option WalletProfile → Option PersonalWalletProfile
personal_of none = none
personal_of (some (personal_profile base first_name last_name birth_date)) = some (record {
  base = base;
  first_name = first_name;
  last_name = last_name;
  birth_date = birth_date;
})
personal_of (some profile) = none

-- `{ ...existing, ...patch }`; the screen has a patch for a personal profile only.
unfoldable pub patched : String → String → String → String → WalletProfile → WalletProfile
patched first_name last_name email birth_date (personal_profile base f l b) =
    personal_profile (record base { email = email }) first_name last_name birth_date
patched first_name last_name email birth_date (university_profile base l a) =
    university_profile (record base { email = email }) l a
patched first_name last_name email birth_date (enterprise_profile base l f a) =
    enterprise_profile (record base { email = email }) l f a

unfoldable pub validation : String → String → String → Option String
unfolding trim is_email
validation first_name last_name email =
    if not (filled (trim first_name))
    then some "First name is required."
    else if not (filled (trim last_name))
    then some "Last name is required."
    else if not (filled (trim email))
    then some "Email is required."
    else if not (is_email (trim email))
    then some "Enter a valid email address."
    else none

module _ (storage : DeviceStorage) (cipher : ProfileCipher) (json : ProfileJson WalletProfile)
    (agent : VeramoAgent) (curve : Curve) where
  abbrev pub loaded :
      (String → String) → Option PersonalWalletProfile → Editor storage agent → Editor storage agent
  loaded to_iso none st = record st { loading = false }
  loaded to_iso (some p) st = record st {
    profile = some p;
    first_name = p.first_name;
    last_name = p.last_name;
    email = p.base.email;
    birth_date = to_iso p.birth_date;
    loading = false;
  }

  unfoldable pub load : (String → String) → Editor storage agent → Editor storage agent
  unfolding get_wallet_profile
  load to_iso st = loaded to_iso (personal_of (get_wallet_profile storage cipher json st.device)) st

  unfoldable pub has_changes : Editor storage agent → Bool
  unfolding trim
  has_changes st = elim st.profile [
    | none ↦ false
    | some p ↦
        not (trim st.first_name == p.first_name)
        || (not (trim st.last_name == p.last_name)
            || (not (trim st.email == p.base.email) || not (st.birth_date == p.birth_date)))
  ]

  abbrev pub clean_name : Editor storage agent → String
  clean_name st = String.◌++◌ (trim st.first_name) (String.◌++◌ " " (trim st.last_name))

  abbrev pub patch_of : Editor storage agent → WalletProfile → WalletProfile
  patch_of st = patched (trim st.first_name) (trim st.last_name) (trim st.email) st.birth_date

  -- The identity service first, then the profile on the device.
  unfoldable pub commit :
      (RegisterRequest → Result String RegisterAnswer)
      → String
      → ℕ
      → PersonalWalletProfile
      → Editor storage agent
      → Result String (Unit {0}) × Editor storage agent
  unfolding trim patched get_secret_key update_registered_profile update_wallet_profile
  commit post iv timestamp p st =
      let (registered, svc) =
        update_registered_profile agent curve post (get_secret_key storage cipher json st.device)
          p.base.did p.base.wallet_address (clean_name st) (trim st.email) timestamp
          st.did_service in
      run_then (registered, record st { did_service = svc })
        (λ done st1.
          let (updated, device) =
            update_wallet_profile storage cipher json iv (patch_of st) st1.device in
          (updated, record st1 { device = device }))

  abbrev pub saved : Result String (Unit {0}) → Editor storage agent → Editor storage agent
  saved (ok done) st = record st { went_back = true; saving = false }
  saved (throw e) st = record st { alert = some ("Could not save changes", e); saving = false }

  abbrev pub save_valid :
      (RegisterRequest → Result String RegisterAnswer)
      → String
      → ℕ
      → Option PersonalWalletProfile
      → Editor storage agent
      → Editor storage agent
  save_valid post iv timestamp none st = st
  save_valid post iv timestamp (some p) st =
      let (outcome, st1) = commit post iv timestamp p (record st { saving = true }) in
      saved outcome st1

  unfoldable pub save :
      (RegisterRequest → Result String RegisterAnswer)
      → String
      → ℕ
      → Editor storage agent
      → Editor storage agent
  unfolding validation commit
  save post iv timestamp st = elim (validation st.first_name st.last_name st.email) [
    | some message ↦ record st { alert = some ("Check your information", message) }
    | none ↦ save_valid post iv timestamp st.profile st
  ]
