-- ===== src/Wallet/Consent/Build.antt =====
-- screens/PresentationConsentScreen.tsx: what a proof or a reference that was built tells of the wallet.
use did_wallet_thesis.Common.{
  ℕ, ◌+◌, ◌≤◌, ◌≡◌, refl, String, true, Option, none, some, List, arith, Result, ok, throw,
  Result-cases, Option-cases, Bool-cases, inl, inr, get_or, ltb, ◌||◌,
}
use did_wallet_thesis.Common.Decimal.{print}
use did_wallet_thesis.Wallet.Presentation.{
  ZkpCircuit, age_verification, graduation_year_range, country_membership, Requirement,
  age_requirement, graduation_requirement, country_requirement, credential_ref_requirement,
  full_disclosure_requirement, ZkpProof, CredentialRef,
}
use did_wallet_thesis.Wallet.Zkp.{
  MerklePath, CircuitInput, age_input, graduation_input, country_input, ZkpBridge,
  get_merkle_path_for_country, verify,
}
use did_wallet_thesis.Wallet.Consent.{
  Profile, StoredCredential, prove_and_verify, prove_age, prove_graduation, prove_country,
  birth_year_of, graduation_year_of, country_of, find_type, build_credential_ref,
}

module _ {P : Type 0} (bridge : ZkpBridge P) where
  -- The proof that is sent was verified, its first public signal included.
  abbrev pub IsVerified : ZkpProof P → Type 0
  IsVerified p = verify bridge p.circuit p.proof p.public_signals ≡ ok true

  prove_and_verify-IsVerified :
      (circuit : ZkpCircuit) (input : CircuitInput) (failed : String) (p : ZkpProof P)
      → prove_and_verify bridge circuit input failed ≡ ok p
      → IsVerified p × (p.circuit ≡ circuit)
  unfolding prove_and_verify
  prove_and_verify-IsVerified circuit input failed p h =
      elim (Result-cases (bridge.prove circuit input)) [
        | inr (e, f) ↦ absurd (ground arith)
        | inl ((proof, signals), f) ↦ elim (Result-cases (verify bridge circuit proof signals)) [
          | inr (e, g) ↦ absurd (ground arith)
          | inl (valid, g) ↦ (ground arith, ground arith)
        ]
      ]

module _ {P : Type 0} (bridge : ZkpBridge P) (paths : String → Option MerklePath) where
  -- What the wallet must hold for a requirement.
  abbrev pub Met :
      {V : Type 0}
      → ℕ
      → Option Profile
      → Result String (List (StoredCredential V))
      → Requirement
      → Type 0
  Met year profile credentials (age_requirement threshold) =
      (b : ℕ) × (birth_year_of profile ≡ some b) × (threshold + b ≤ year)
  Met year profile credentials (graduation_requirement min_year max_year) =
      (g : ℕ) × (graduation_year_of profile ≡ some g) × (min_year ≤ g) × (g ≤ max_year)
  Met year profile credentials (country_requirement merkle_root) =
      (path : MerklePath) × (get_merkle_path_for_country paths (get_or (country_of profile) "")
        ≡ ok path)
  Met {V} year profile credentials (credential_ref_requirement kind eu) =
      (stored : List (StoredCredential V)) × (found : StoredCredential V) × (credentials
        ≡ ok stored)
      × (find_type kind stored ≡ some found)
  Met year profile credentials (full_disclosure_requirement kind) = Unit

  pub prove_age_sound :
      (year threshold : ℕ) (born : Option ℕ) (p : ZkpProof P)
      → prove_age bridge paths year threshold born ≡ ok p
      → ((b : ℕ) × (born ≡ some b) × (threshold + b ≤ year))
        × IsVerified bridge p
        × (p.circuit ≡ age_verification)
  unfolding prove_age
  prove_age_sound year threshold none p h = absurd (ground arith)
  prove_age_sound year threshold (some b) p h = elim (Bool-cases (ltb year (threshold + b))) [
    | inl young ↦ absurd (ground arith)
    | inr old ↦
        let (verified, same) =
          prove_and_verify-IsVerified bridge age_verification
            (age_input (print b) (print year) (print threshold))
            "Age proof verification failed. Cannot submit this presentation." p (ground arith) in
        ((b, refl, ground arith), verified, same)
  ]

  pub prove_graduation_sound :
      (min_year max_year : ℕ) (year : Option ℕ) (p : ZkpProof P)
      → prove_graduation bridge paths min_year max_year year ≡ ok p
      → ((g : ℕ) × (year ≡ some g) × (min_year ≤ g) × (g ≤ max_year))
        × IsVerified bridge p
        × (p.circuit ≡ graduation_year_range)
  unfolding prove_graduation
  prove_graduation_sound min_year max_year none p h = absurd (ground arith)
  prove_graduation_sound min_year max_year (some g) p h =
      elim (Bool-cases (ltb g min_year || ltb max_year g)) [
        | inl outside ↦ absurd (ground arith)
        | inr inside ↦
            let (verified, same) =
              prove_and_verify-IsVerified bridge graduation_year_range
                (graduation_input (print g) (print min_year) (print max_year))
                "Graduation year proof verification failed. Cannot submit this presentation." p
                (ground arith) in
            ((g, refl, ground arith, ground arith), verified, same)
      ]

  pub prove_country_sound :
      (merkle_root : String) (country : Option String) (p : ZkpProof P)
      → prove_country bridge paths merkle_root country ≡ ok p
      → ((path : MerklePath) × (get_merkle_path_for_country paths (get_or country "") ≡ ok path))
        × IsVerified bridge p
        × (p.circuit ≡ country_membership)
  unfolding prove_country
  prove_country_sound merkle_root country p h =
      elim (Result-cases (get_merkle_path_for_country paths (get_or country ""))) [
        | inr (e, f) ↦ absurd (ground arith)
        | inl (path, f) ↦
            let (verified, same) =
              prove_and_verify-IsVerified bridge country_membership
                (country_input (print path.numeric) merkle_root path.path_elements
                  path.path_indices)
                "Country membership proof verification failed. Cannot submit this presentation." p
                (ground arith) in
            ((path, f), verified, same)
      ]

  pub build_credential_ref_sound :
      {V : Type 0} (credentials : Result String (List (StoredCredential V))) (kind : String)
      (ref : CredentialRef)
      → build_credential_ref credentials kind ≡ ok ref
      → ((stored : List (StoredCredential V)) × (found : StoredCredential V) × (credentials
            ≡ ok stored)
          × (find_type kind stored ≡ some found))
        × (ref.credential_type ≡ kind)
  unfolding build_credential_ref
  build_credential_ref_sound (throw e) kind ref h = absurd (ground arith)
  build_credential_ref_sound (ok stored) kind ref h = elim (Option-cases (find_type kind stored)) [
    | inl missing ↦ absurd (ground arith)
    | inr (found, f) ↦ ((stored, found, refl, f), ground arith)
  ]
