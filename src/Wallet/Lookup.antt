-- ===== src/Wallet/Lookup.antt =====
-- services/accreditationLookupService.ts: which accreditation of an address counts. The registry's
-- contract is third-party state: a record of what its calls answer. Numbers are those of the chain.
mod Laws
mod Tests
use did_wallet_thesis.Common.{
  ℕ, ◌*◌, String, Bool, true, false, Option, none, some, List, [], ◌∷◌, Result, ok, throw, ◌==◌,
  if◌then◌else◌, eqb, ltb, not, ◌&&◌, ◌||◌, catch_with,
}
use did_wallet_thesis.Common.Text.{to_lower}

pub data AccreditationScope : Type 0 where
  none_scope member_state ministry institution department business_registry enterprise :
      AccreditationScope

abbrev pub scope_number : AccreditationScope → ℕ
scope_number none_scope = 0
scope_number member_state = 1
scope_number ministry = 2
scope_number institution = 3
scope_number department = 4
scope_number business_registry = 5
scope_number enterprise = 6

pub record AccreditationRecord : Type 0 where
  pub id : String
  pub issuer : String
  pub subject : String
  pub parent_accreditation_id : String
  pub scope : ℕ
  pub permissions_hash : String
  pub issued_at : ℕ
  pub expires_at : ℕ
  pub revoked : Bool
  pub exists : Bool

-- The calls of the contract; a call that reverts or cannot be made throws.
pub record RegistryContract (E : Type 0) : Type 0 where
  pub get_accreditations_by_subject : String → Result E (List String)
  pub get_accreditation : String → Result E AccreditationRecord
  pub validate_trust_chain : String → Result E Bool

-- The test of the loops, at the time `now` in milliseconds: `expiresAt > Date.now() / 1000` is
-- written without the division.
unfoldable pub is_active : AccreditationScope → ℕ → AccreditationRecord → Bool
is_active scope now r =
    r.exists
    && (not r.revoked
        && (eqb r.scope (scope_number scope)
            && (eqb r.expires_at 0 || ltb now (r.expires_at * 1000))))

module _ {E : Type 0} (contract : RegistryContract E) where
  -- The loop over the identifiers; the source reads the clock anew for each, the model once.
  unfoldable pub find_in : AccreditationScope → ℕ → List String → Result E (Option String)
  find_in scope now [] = ok none
  find_in scope now (id ∷ ids) =
      let rest = find_in scope now ids in
      elim (contract.get_accreditation id) [
        | throw e ↦ throw e
        | ok r ↦
            if is_active scope now r
            then (elim (contract.validate_trust_chain id) [
              | throw e ↦ throw e
              | ok valid ↦ if valid then ok (some id) else rest
            ])
            else rest
      ]

  unfoldable pub find_for : AccreditationScope → ℕ → String → Result E (Option String)
  unfolding find_in
  find_for scope now address =
      if address == ""
      then ok none
      else elim (contract.get_accreditations_by_subject (to_lower address)) [
        | throw e ↦ throw e
        | ok ids ↦ find_in scope now ids
      ]

  unfoldable pub find_active_institution_accreditation : ℕ → String → Result E (Option String)
  unfolding find_for
  find_active_institution_accreditation now address = find_for institution now address

  -- The other two catch every error.
  unfoldable pub find_active_business_registry_accreditation : ℕ → String → Option String
  unfolding find_for
  find_active_business_registry_accreditation now address =
      catch_with none (find_for business_registry now address)

  unfoldable pub find_active_enterprise_accreditation : ℕ → String → Option String
  unfolding find_for
  find_active_enterprise_accreditation now address =
      catch_with none (find_for enterprise now address)
