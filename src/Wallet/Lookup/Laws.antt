-- ===== src/Wallet/Lookup/Laws.antt =====
-- services/accreditationLookupService.ts: what is found, and by which rule.
use did_wallet_thesis.Common.{
  ℕ, ◌≡◌, refl, String, Bool, true, false, Option, none, some, List, [], ◌∷◌, ok, ◌==◌,
  if◌then◌else◌, ◌&&◌, arith, Result-cases, Bool-cases, inl, inr, ◌⊎◌, ap, ◌∙◌,
}
use did_wallet_thesis.Common.Text.{to_lower}
use did_wallet_thesis.Admin.Blockchain.{scope_map}
use did_wallet_thesis.Wallet.Lookup.{
  AccreditationScope, none_scope, member_state, ministry, institution, department,
  business_registry, enterprise, scope_number, AccreditationRecord, RegistryContract, is_active,
  find_in, find_for, find_active_institution_accreditation, find_active_enterprise_accreditation,
}

abbrev pub IsIn : String → List String → Type 0
IsIn id [] = ⊥
IsIn id (x ∷ xs) = (id ≡ x) ⊎ IsIn id xs

-- The reference: the first element with a property.
abbrev pub first_with : (String → Bool) → List String → Option String
first_with p [] = none
first_with p (x ∷ xs) = if p x then some x else first_with p xs

same_id : (x id : String) → some x ≡ some id → id ≡ x
same_id x id h = cc

module _ {E : Type 0} (contract : RegistryContract E) where
  abbrev pub Counts : AccreditationScope → ℕ → String → Type 0
  Counts scope now id =
      ((r : AccreditationRecord) × (contract.get_accreditation id ≡ ok r)
        × (is_active scope now r ≡ true))
      × (contract.validate_trust_chain id ≡ ok true)

  later :
      (x : String) (xs : List String) (id : String) (scope : AccreditationScope) (now : ℕ)
      → IsIn id xs × Counts scope now id
      → IsIn id (x ∷ xs) × Counts scope now id
  later x xs id scope now (here, counts) = (inr here, counts)

  find_in_sound :
      (scope : AccreditationScope) (now : ℕ) (ids : List String) (id : String)
      → find_in contract scope now ids ≡ ok (some id)
      → IsIn id ids × Counts scope now id
  unfolding find_in
  find_in_sound scope now [] id h = absurd (ground arith)
  find_in_sound scope now (x ∷ xs) id h = elim (Result-cases (contract.get_accreditation x)) [
    | inr (e, f) ↦ absurd (ground arith)
    | inl (r, f) ↦
        let onward = λ (next : find_in contract scope now xs ≡ ok (some id)).
          later x xs id scope now (find_in_sound scope now xs id next) in
        elim (Bool-cases (is_active scope now r)) [
          | inr inactive ↦ onward (ground arith)
          | inl active ↦ elim (Result-cases (contract.validate_trust_chain x)) [
            | inr (e, g) ↦ absurd (ground arith)
            | inl (false, g) ↦ onward (ground arith)
            | inl (true, g) ↦
                let same = same_id x id (ground arith) in
                (
                  inl same,
                  (
                    (r, ap contract.get_accreditation same ∙ f, active),
                    ap contract.validate_trust_chain same ∙ g,
                  ),
                )
          ]
        ]
  ]

  find_in_first :
      (record_of : String → AccreditationRecord) (chain_of : String → Bool)
      (scope : AccreditationScope) (now : ℕ) (ids : List String)
      → ((id : String) → contract.get_accreditation id ≡ ok (record_of id))
      → ((id : String) → contract.validate_trust_chain id ≡ ok (chain_of id))
      → find_in contract scope now ids
        ≡ ok (first_with (λ id. is_active scope now (record_of id) && chain_of id) ids)
  unfolding find_in
  find_in_first record_of chain_of scope now [] known valid = refl
  find_in_first record_of chain_of scope now (x ∷ xs) known valid =
      ground (arith, find_in_first record_of chain_of scope now xs known valid, known x, valid x)

  -- An institution that is found for an address is one of the registry's identifiers for it, and at
  -- the time of the search it exists, is not revoked, has the scope of institutions, has not expired,
  -- and its trust chain is valid.
  pub find_active_institution_accreditation_sound :
      (now : ℕ) (address id : String)
      → find_active_institution_accreditation contract now address ≡ ok (some id)
      → ((ids : List String) × (contract.get_accreditations_by_subject (to_lower address) ≡ ok ids)
          × IsIn id ids)
        × Counts institution now id
  unfolding find_active_institution_accreditation find_for
  find_active_institution_accreditation_sound now address id h =
      elim (Result-cases (contract.get_accreditations_by_subject (to_lower address))) [
        | inr (e, f) ↦ absurd (ground arith)
        | inl (ids, f) ↦
            let (here, counts) = find_in_sound institution now ids id (ground arith) in
            ((ids, f, here), counts)
      ]

  -- When the registry answers every call, the search for an enterprise returns the first of the
  -- identifiers of the address that counts, and null exactly when none counts; an address that is
  -- empty has none.
  pub find_active_enterprise_accreditation_first :
      (record_of : String → AccreditationRecord) (chain_of : String → Bool) (ids : List String)
      (now : ℕ) (address : String)
      → ((id : String) → contract.get_accreditation id ≡ ok (record_of id))
      → ((id : String) → contract.validate_trust_chain id ≡ ok (chain_of id))
      → contract.get_accreditations_by_subject (to_lower address) ≡ ok ids
      → find_active_enterprise_accreditation contract now address ≡ (
          if address == ""
          then none
          else first_with (λ id. is_active enterprise now (record_of id) && chain_of id) ids)
  unfolding find_active_enterprise_accreditation find_for
  find_active_enterprise_accreditation_first record_of chain_of ids now address known valid listed =
      ground (arith, listed, find_in_first record_of chain_of enterprise now ids known valid)

-- The name that the admin client gives to a scope.
abbrev pub scope_name : AccreditationScope → String
scope_name none_scope = ""
scope_name member_state = "MemberState"
scope_name ministry = "Ministry"
scope_name institution = "Institution"
scope_name department = "Department"
scope_name business_registry = "BusinessRegistry"
scope_name enterprise = "Enterprise"

abbrev pub is_none : AccreditationScope → Bool
is_none none_scope = true
is_none _ = false

-- The wallet and the admin client number the scopes alike: for each scope but the absent one, the
-- number that the admin client sends for its name is the one that the wallet compares with.
pub scope_map-scope_name :
    (scope : AccreditationScope)
    → scope_map (scope_name scope) ≡ (if is_none scope then none else some (scope_number scope))
unfolding scope_map
scope_map-scope_name none_scope = refl
scope_map-scope_name member_state = refl
scope_map-scope_name ministry = refl
scope_map-scope_name institution = refl
scope_map-scope_name department = refl
scope_map-scope_name business_registry = refl
scope_map-scope_name enterprise = refl
