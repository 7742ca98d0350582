-- ===== src/Wallet/Consent.antt =====
-- screens/PresentationConsentScreen.tsx: what the wallet puts into a response, and what it sends and
-- keeps of it. Signing, hashing and `fetch` are parameters; the year and the time are those of the
-- call. Numbers in a requirement are whole and not negative.
mod Build
mod Laws
pub mod Approve
mod Tests
use did_wallet_thesis.Common.{
  ℕ, ◌+◌, ◌-◌, String, Bool, true, false, Option, none, some, List, [], ◌∷◌, Result, ok, throw,
  ◌>>=◌, ◌==◌, if◌then◌else◌, ltb, leb, not, ◌&&◌, ◌||◌, truthy, get_or, includes, eqb,
}
use Prim.Native.String
use did_wallet_thesis.Common.Text.{take_chars}
use did_wallet_thesis.Common.Decimal.{print, parse_int}
use did_wallet_thesis.Wallet.Presentation.{
  ZkpCircuit, age_verification, graduation_year_range, country_membership, Requirement,
  age_requirement, graduation_requirement, country_requirement, credential_ref_requirement,
  full_disclosure_requirement, ZkpProof, CredentialRef, FullDisclosure,
}
use did_wallet_thesis.Wallet.Zkp.{
  MerklePath, CircuitInput, age_input, graduation_input, country_input, ZkpBridge,
  get_merkle_path_for_country, verify,
}

-- The fields of the profile that the screen reads.
pub record Profile : Type 0 where
  pub did : String
  pub birth_date : Option String
  pub graduation_year : Option ℕ
  pub country : Option String

-- A credential of the wallet: its hash, its types, the accreditation of its issuer, and the whole.
pub record StoredCredential (V : Type 0) : Type 0 where
  pub hash : String
  pub types : List String
  pub issuer_accreditation_id : Option String
  pub verifiable_credential : V

abbrev join3 : String → String → String → String
join3 a b c = String.◌++◌ a (String.◌++◌ b c)

-- `prove`, then `verify` of what it returned.
unfoldable pub prove_and_verify :
    {P : Type 0} → ZkpBridge P → ZkpCircuit → CircuitInput → String → Result String (ZkpProof P)
unfolding verify
prove_and_verify bridge circuit input failed = elim (bridge.prove circuit input) [
  | throw e ↦ throw e
  | ok (proof, public_signals) ↦ elim (verify bridge circuit proof public_signals) [
    | throw e ↦ throw e
    | ok valid ↦
        if not valid
        then throw failed
        else ok (record { circuit = circuit; proof = proof; public_signals = public_signals })
  ]
]

abbrev pub positive : Option ℕ → Option ℕ
positive none = none
positive (some n) = if eqb n 0 then none else some n

-- `birthDate ? parseInt(birthDate.slice(0, 4), 10) : null`, `none` where the source tests it as falsy.
unfoldable pub birth_year_of : Option Profile → Option ℕ
birth_year_of none = none
birth_year_of (some p) =
    if truthy p.birth_date
    then positive (parse_int (take_chars 4 (get_or p.birth_date "")))
    else none

-- `currentYear - birthYear` as text, which may be negative.
age_text : ℕ → ℕ → String
age_text year birth_year =
    if leb birth_year year
    then print (year - birth_year)
    else String.◌++◌ "-" (print (birth_year - year))

abbrev pub graduation_year_of : Option Profile → Option ℕ
graduation_year_of none = none
graduation_year_of (some p) = positive p.graduation_year

abbrev pub country_of : Option Profile → Option String
country_of none = none
country_of (some p) = p.country

module _ {P : Type 0} (bridge : ZkpBridge P) (paths : String → Option MerklePath) where
  unfoldable pub prove_age : ℕ → ℕ → Option ℕ → Result String (ZkpProof P)
  unfolding prove_and_verify age_text
  prove_age year threshold none =
      throw "Your date of birth is not set. Please update it in Profile before proceeding."
  prove_age year threshold (some birth_year) =
      if ltb year (threshold + birth_year)
      then throw (
          join3 "Age requirement not met: this request requires you to be at least "
            (join3 (print threshold) " years old (you are " (age_text year birth_year)) ").")
      else prove_and_verify bridge age_verification
          (age_input (print birth_year) (print year) (print threshold))
          "Age proof verification failed. Cannot submit this presentation."

  unfoldable pub prove_graduation : ℕ → ℕ → Option ℕ → Result String (ZkpProof P)
  unfolding prove_and_verify
  prove_graduation min_year max_year none =
      throw "Your graduation year is not set. Please update it in Profile before proceeding."
  prove_graduation min_year max_year (some graduation_year) =
      if ltb graduation_year min_year || ltb max_year graduation_year
      then throw (
          join3 "Graduation year requirement not met: must be between "
            (join3 (print min_year) " and " (print max_year))
            (join3 " (yours is " (print graduation_year) ")."))
      else prove_and_verify bridge graduation_year_range
          (graduation_input (print graduation_year) (print min_year) (print max_year))
          "Graduation year proof verification failed. Cannot submit this presentation."

  unfoldable pub prove_country : String → Option String → Result String (ZkpProof P)
  unfolding prove_and_verify get_merkle_path_for_country
  prove_country merkle_root country =
      if not (truthy country)
      then throw "Your country is not set. Please update it in Profile before proceeding."
      else elim (get_merkle_path_for_country paths (get_or country "")) [
        | throw e ↦ throw e
        | ok path ↦
            prove_and_verify bridge country_membership
              (country_input (print path.numeric) merkle_root path.path_elements path.path_indices)
              "Country membership proof verification failed. Cannot submit this presentation."
      ]

  -- `none` for a requirement of another kind.
  unfoldable pub build_zkp_proof :
      ℕ → Option Profile → Requirement → Result String (Option (ZkpProof P))
  unfolding prove_age prove_graduation prove_country birth_year_of
  build_zkp_proof year profile (age_requirement threshold) =
      prove_age year threshold (birth_year_of profile) >>= λ p. ok (some p)
  build_zkp_proof year profile (graduation_requirement min_year max_year) =
      prove_graduation min_year max_year (graduation_year_of profile) >>= λ p. ok (some p)
  build_zkp_proof year profile (country_requirement merkle_root) =
      prove_country merkle_root (country_of profile) >>= λ p. ok (some p)
  build_zkp_proof year profile (credential_ref_requirement kind eu) = ok none
  build_zkp_proof year profile (full_disclosure_requirement kind) = ok none

module _ {V : Type 0} where
  -- `stored.find((c) => c.verifiableCredential.type.includes(type))`.
  unfoldable pub find_type : String → List (StoredCredential V) → Option (StoredCredential V)
  find_type kind [] = none
  find_type kind (c ∷ cs) = if includes c.types kind then some c else find_type kind cs

  -- The body of `buildCredentialRef` for a `credential-ref` requirement of type `kind`.
  unfoldable pub build_credential_ref :
      Result String (List (StoredCredential V)) → String → Result String CredentialRef
  unfolding find_type
  build_credential_ref (throw e) kind = throw e
  build_credential_ref (ok stored) kind = elim (find_type kind stored) [
    | none ↦ throw (
        join3 "No " kind
          " credential found in your wallet. You must have a valid credential before submitting this presentation.")
    | some found ↦ ok (record {
      credential_type = kind;
      credential_hash = found.hash;
      issuer_accreditation_id =
          get_or found.issuer_accreditation_id
            "0x0000000000000000000000000000000000000000000000000000000000000000";
    })
  ]

  unfoldable pub build_full_disclosure :
      Result String (List (StoredCredential V)) → String → FullDisclosure V
  unfolding find_type
  build_full_disclosure (throw e) kind = record { credential_type = kind; credential = none }
  build_full_disclosure (ok stored) kind = record {
    credential_type = kind;
    credential = elim (find_type kind stored) [
      | none ↦ none
      | some found ↦ some found.verifiable_credential
    ];
  }
