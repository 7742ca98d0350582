-- ===== src/Wallet/Lookup/Tests.antt =====
-- services/accreditationLookupService.ts: runs on a small registry.
use did_wallet_thesis.Common.{
  ◌≡◌, refl, String, true, false, none, List, [], ◌∷◌, ok, ◌==◌, if◌then◌else◌, ◌&&◌,
}
use did_wallet_thesis.Common.Text.{to_lower}
use did_wallet_thesis.Wallet.Lookup.{
  AccreditationRecord, RegistryContract, institution, enterprise, is_active, find_in, find_for,
  find_active_institution_accreditation, find_active_enterprise_accreditation,
}
use did_wallet_thesis.Wallet.Lookup.Laws.{
  IsIn, Counts, first_with, find_active_institution_accreditation_sound,
  find_active_enterprise_accreditation_first,
}

abbrev record_of : String → AccreditationRecord
record_of id = record {
  id = id;
  issuer = "0x1";
  subject = "0x2";
  parent_accreditation_id = "0x0";
  scope = if id == "b" then 3 else 6;
  permissions_hash = "0x0";
  issued_at = 1;
  expires_at = 0;
  revoked = false;
  exists = true;
}

abbrev contract : RegistryContract String
contract = record {
  get_accreditations_by_subject = λ address. ok ("a" ∷ "b" ∷ []);
  get_accreditation = λ id. ok (record_of id);
  validate_trust_chain = λ id. ok true;
}

find_active_institution_accreditation_sound_example :
    ((ids : List String) × (contract.get_accreditations_by_subject (to_lower "0xAB") ≡ ok ids)
      × IsIn "b" ids)
    × Counts contract institution 5 "b"
find_active_institution_accreditation_sound_example =
    find_active_institution_accreditation_sound contract 5 "0xAB" "b"
      (unfold find_active_institution_accreditation find_for find_in is_active in refl)

find_active_enterprise_accreditation_first_example :
    find_active_enterprise_accreditation contract 5 "0xAB" ≡ (
      if "0xAB" == ""
      then none
      else first_with (λ id. is_active enterprise 5 (record_of id) && true) ("a" ∷ "b" ∷ []))
find_active_enterprise_accreditation_first_example =
    find_active_enterprise_accreditation_first contract record_of (λ id. true) ("a" ∷ "b" ∷ []) 5
      "0xAB" (λ id. refl) (λ id. refl) refl
