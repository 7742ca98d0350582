-- ===== src/Admin/Universities/Tests.antt =====
-- features/universities/universities.component.ts: runs with one university, and a code per character.
use Prim.Native.Char.{code}
use Prim.Native.String
use Prim.Native.String.{[], ◌∷◌}
use text.Mathlib.TextLemmas.{cons-append, nil-append}
use did_wallet_thesis.Common.{
  ℕ, String, true, false, none, some, List, ◌++◌, Result, ok, throw, ◌==◌, ◌≡◌, refl, ap, ◌∙◌,
  arith, if◌then◌else◌,
}
use did_wallet_thesis.Admin.ApiError.{ApiError, error_of, extract_api_error}
use did_wallet_thesis.Admin.Navigation.{reset_to_root}
use did_wallet_thesis.Admin.Universities.{
  Accreditation, Page, ensure_page_context, select_above, credential_hash, issue_diploma,
  is_registered,
}
use did_wallet_thesis.Admin.Universities.Laws.{credential_hash_timeless}

codes : String → List ℕ
codes [] = List.[]
codes (c ∷ s) = List.◌∷◌ (code c) (codes s)

codes-append : (s t : String) → codes (String.◌++◌ s t) ≡ codes s ++ codes t
unfolding codes
codes-append [] t = ap codes (nil-append t)
codes-append (c ∷ s) t =
    ap codes (cons-append c s t) ∙ ap (λ (ns : List ℕ). List.◌∷◌ (code c) ns) (codes-append s t)

credential_hash_timeless_example :
    credential_hash codes "Ana" "0x12345678901234567890123456789012" 7
    ≡ credential_hash codes "Ana" "0x12345678901234567890123456789012" 8
unfolding codes
credential_hash_timeless_example =
    credential_hash_timeless codes "Ana" "0x12345678901234567890123456789012" 7 8 codes-append
      (omega arith)

abbrev accreditation : String → Accreditation
accreditation id = record {
  accreditation_id = id;
  issuer_did = "did:ethr:sepolia:0x01";
  subject_did = "did:ethr:sepolia:0x02";
  name = none;
  scope = "Institution";
  parent_accreditation_id = if id == "u" then some "m" else if id == "m" then some "s" else none;
}

abbrev get : String → Result ApiError Accreditation
get id = if id == "s" then throw (error_of "down") else ok (accreditation id)

abbrev page : Page
page = record {
  navigation = record { member_state = none; ministry = none };
  authenticated_university = none;
  diploma_university = some (accreditation "u");
  error = none;
  issuing_diploma = false;
}

-- The member state cannot be read: the page has no context, and the error.
unresolved :
    let (has_context, page') = ensure_page_context get (some ("Institution", some "u")) page in
    (has_context ≡ false) × (page'.error ≡ some "down")
unfolding ensure_page_context select_above reset_to_root extract_api_error
unresolved = (refl, refl)

unregistered : (issue_diploma codes List.[] false true "0xab" "Ana" 7 page).0 ≡ none
unfolding issue_diploma is_registered
unregistered = refl
