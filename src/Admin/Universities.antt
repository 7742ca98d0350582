-- ===== src/Admin/Universities.antt =====
-- features/universities/universities.component.ts: the context of the page, and the issuing of a diploma.
-- The backend's `get` and the platform's UTF-8 are parameters; whether the form passes its
-- validators is an argument.
pub mod Laws
mod Tests
use Prim.Native.Char.{Char}
use Prim.Native.String
use did_wallet_thesis.Common.{
  ℕ, ◌/◌, ◌%◌, String, Bool, true, false, not, ◌&&◌, ◌||◌, Option, none, some, List, [], ◌∷◌,
  Result, ok, throw, ◌==◌, if◌then◌else◌, truthy, get_or, is_some,
}
use did_wallet_thesis.Common.Text.{to_lower, take_chars, pad_end, nth}
use did_wallet_thesis.Common.Decimal.{print}
use did_wallet_thesis.Admin.ApiError.{ApiError, extract_api_error}
use did_wallet_thesis.Admin.Navigation.{
  HierarchyNode, Navigation, reset_to_root, select_member_state, select_ministry,
}

pub record Accreditation : Type 0 where
  pub accreditation_id : String
  pub issuer_did : String
  pub subject_did : String
  pub name : Option String
  pub scope : String
  pub parent_accreditation_id : Option String

abbrev pub node_of : Accreditation → HierarchyNode
node_of a = record {
  did = a.subject_did;
  label = if truthy a.name then get_or a.name "" else a.scope;
  accreditation_id = a.accreditation_id;
}

-- The page, by what the modelled handlers read and change.
pub record Page : Type 0 where
  pub navigation : Navigation
  pub authenticated_university : Option Accreditation
  pub diploma_university : Option Accreditation
  pub error : Option String
  pub issuing_diploma : Bool

module _ (get : String → Result ApiError Accreditation) where
  -- The member state above the ministry, if there is one, and then the ministry.
  unfoldable pub select_above : Accreditation → Navigation → Result ApiError (Unit {0}) × Navigation
  unfolding select_member_state select_ministry
  select_above ministry nav =
      if truthy ministry.parent_accreditation_id
      then (elim (get (get_or ministry.parent_accreditation_id "")) [
        | throw e ↦ (throw e, nav)
        | ok state ↦
            (ok tt, select_ministry (node_of ministry) (select_member_state (node_of state) nav))
      ])
      else (ok tt, select_ministry (node_of ministry) nav)

  abbrev pub ended : String → Result ApiError (Unit {0}) × Navigation → Page → Bool × Page
  ended fallback (ok done, nav) page = (true, record page { navigation = nav })
  ended fallback (throw e, nav) page =
      (false, record page { navigation = nav; error = some (extract_api_error e fallback) })

  unfoldable pub ensure_ministry_context : Option (String × Option String) → Page → Bool × Page
  unfolding select_above reset_to_root extract_api_error
  ensure_ministry_context none page = (is_some page.navigation.ministry, page)
  ensure_ministry_context (some (scope, id)) page =
      let nav = reset_to_root page.navigation in
      if scope == "Ministry" && truthy id
      then (elim (get (get_or id "")) [
        | throw e ↦ ended "Failed to resolve ministry context" (throw e, nav) page
        | ok ministry ↦ ended "Failed to resolve ministry context" (select_above ministry nav) page
      ])
      else (is_some page.navigation.ministry, page)

  abbrev pub select_university :
      Accreditation → Navigation → Result ApiError (Unit {0}) × Navigation
  select_university university nav =
      if truthy university.parent_accreditation_id
      then (elim (get (get_or university.parent_accreditation_id "")) [
        | throw e ↦ (throw e, nav)
        | ok ministry ↦ select_above ministry nav
      ])
      else (ok tt, nav)

  -- The scope and the accreditation of the session are arguments.
  unfoldable pub ensure_page_context : Option (String × Option String) → Page → Bool × Page
  unfolding select_above reset_to_root extract_api_error ensure_ministry_context
  ensure_page_context none page =
      ensure_ministry_context none (record page { authenticated_university = none })
  ensure_page_context (some (scope, id)) page =
      let nav = reset_to_root page.navigation in
      if scope == "Institution" && truthy id
      then (elim (get (get_or id "")) [
        | throw e ↦ ended "Failed to resolve university context" (throw e, nav) page
        | ok university ↦
            ended "Failed to resolve university context" (select_university university nav)
              (record page { authenticated_university = some university })
      ])
      else (ensure_ministry_context (some (scope, id))
          (record page { authenticated_university = none }))

pub hex_char : ℕ → String
unfolding nth
hex_char d = String.◌∷◌ (nth "0123456789abcdef" d) ""

-- Each byte as `toString(16).padStart(2, '0')`, joined.
unfoldable pub hex_of : List ℕ → String
unfolding hex_char
hex_of [] = ""
hex_of (b ∷ bytes) =
    String.◌++◌ (hex_char (b / 16)) (String.◌++◌ (hex_char (b % 16)) (hex_of bytes))

abbrev pub zero_char : Char
zero_char = nth "0" 0

-- `name|accreditationId|Date.now()`.
unfoldable pub raw_of : String → String → ℕ → String
raw_of name id now =
    String.◌++◌ (String.◌++◌ name (String.◌++◌ "|" id)) (String.◌++◌ "|" (print now))

unfoldable pub credential_hash : (String → List ℕ) → String → String → ℕ → String
unfolding hex_of raw_of pad_end take_chars
credential_hash encode name id now =
    String.◌++◌ "0x" (take_chars 64 (pad_end (hex_of (encode (raw_of name id now))) 64 zero_char))

pub record RegisteredIdentity : Type 0 where
  pub controller_address : String
  pub display_name : Option String

unfoldable pub is_registered : String → List RegisteredIdentity → Bool
unfolding to_lower
is_registered address [] = false
is_registered address (holder ∷ holders) =
    to_lower holder.controller_address == to_lower address || is_registered address holders

-- The call that is made, after the guards.
pub record DiplomaRequest : Type 0 where
  pub issuer_did : String
  pub holder_address : String
  pub kind : String
  pub hash : String
  pub accreditation_id : String
  pub issuer_name : Option String

unfoldable pub issue_diploma :
    (String → List ℕ)
    → List RegisteredIdentity
    → Bool
    → Bool
    → String
    → String
    → ℕ
    → Page
    → Option DiplomaRequest × Page
unfolding is_registered credential_hash
issue_diploma encode holders form_invalid has_signer holder_address student_name now page =
    if form_invalid
    then (none, page)
    else if not (is_registered holder_address holders)
    then (
      none,
      record page {
        error = some "Diplomas can only be issued to registered personal wallet accounts.";
      },
    )
    else if not has_signer
    then (
      none,
      record page {
        error = some "Connect the authenticated University account in MetaMask before issuing.";
      },
    )
    else elim page.diploma_university [
      | none ↦ (none, page)
      | some university ↦ (
        some (record {
          issuer_did = university.subject_did;
          holder_address = holder_address;
          kind = "DiplomaCredential";
          hash = credential_hash encode student_name university.accreditation_id now;
          accreditation_id = university.accreditation_id;
          issuer_name = university.name;
        }),
        record page { issuing_diploma = true },
      )
    ]
