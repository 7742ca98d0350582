-- ===== src/Wallet/Consent/Laws.antt =====
-- screens/PresentationConsentScreen.tsx: what a response says about the wallet, and when anything is
-- sent or kept.
use did_wallet_thesis.Common.{
  ◌≡◌, refl, String, Option, some, List, [], ◌∷◌, arith, ok, ok_inj, Result-cases, inl, inr, All,
  map, ◌⊎◌, ap, ◌∙◌,
}
use did_wallet_thesis.Wallet.Presentation.{
  ZkpCircuit, age_verification, graduation_year_range, country_membership, Requirement,
  age_requirement, graduation_requirement, country_requirement, credential_ref_requirement,
  full_disclosure_requirement, ZkpProof, CredentialRef, FullDisclosure, PresentationRequest,
  PresentationResponse,
}
use did_wallet_thesis.Wallet.Zkp.{MerklePath, ZkpBridge}
use did_wallet_thesis.Wallet.History.{HistoryJson, list, save, list-save}
use did_wallet_thesis.Wallet.Consent.{
  prove_age, prove_graduation, prove_country, birth_year_of, graduation_year_of, country_of,
  build_zkp_proof, build_credential_ref, build_full_disclosure,
}
use did_wallet_thesis.Wallet.Consent.Build.{
  IsVerified, Met, prove_age_sound, prove_graduation_sound, prove_country_sound,
  build_credential_ref_sound,
}
use did_wallet_thesis.Wallet.Consent.Approve.{
  Collected, Surroundings, Screen, build_all, build_response, entry_of, submit, handle_approve,
  add_proof, payload_of,
}

-- What a list of requirements asks for, by kind, in its order.
abbrev pub circuits_of : List Requirement → List ZkpCircuit
circuits_of [] = []
circuits_of (age_requirement t ∷ rs) = age_verification ∷ circuits_of rs
circuits_of (graduation_requirement lo hi ∷ rs) = graduation_year_range ∷ circuits_of rs
circuits_of (country_requirement root ∷ rs) = country_membership ∷ circuits_of rs
circuits_of (credential_ref_requirement kind eu ∷ rs) = circuits_of rs
circuits_of (full_disclosure_requirement kind ∷ rs) = circuits_of rs

abbrev pub ref_types_of : List Requirement → List String
ref_types_of [] = []
ref_types_of (credential_ref_requirement kind eu ∷ rs) = kind ∷ ref_types_of rs
ref_types_of (age_requirement t ∷ rs) = ref_types_of rs
ref_types_of (graduation_requirement lo hi ∷ rs) = ref_types_of rs
ref_types_of (country_requirement root ∷ rs) = ref_types_of rs
ref_types_of (full_disclosure_requirement kind ∷ rs) = ref_types_of rs

module _ {P V W : Type 0} (json : HistoryJson P V) (bridge : ZkpBridge P)
    (paths : String → Option MerklePath) (env : Surroundings P V W) where
  abbrev pub Answers : List Requirement → Collected P V → Type 0
  Answers requirements c =
      All (Met bridge paths env.year env.profile env.credentials) requirements
      × All (IsVerified bridge) c.proofs
      × (map (λ (p : ZkpProof P). p.circuit) c.proofs ≡ circuits_of requirements)
      × (map (λ (r : CredentialRef). r.credential_type) c.credential_refs
          ≡ ref_types_of requirements)

  with_proof :
      (p : ZkpProof P) (circuit : ZkpCircuit) (rest c : Collected P V) (rs : List Requirement)
      → c ≡ add_proof (some p) rest
      → IsVerified bridge p
      → p.circuit ≡ circuit
      → Answers rs rest
      → All (IsVerified bridge) c.proofs
        × (map (λ (q : ZkpProof P). q.circuit) c.proofs ≡ circuit ∷ circuits_of rs)
        × (map (λ (r : CredentialRef). r.credential_type) c.credential_refs ≡ ref_types_of rs)
  with_proof p circuit rest c rs e verified same (all_met, all_verified, circuits, refs) =
      rw e ((verified, all_verified), ground (arith, same, circuits), refs)

  with_ref :
      (ref : CredentialRef) (kind : String) (rest c : Collected P V) (rs : List Requirement)
      → c ≡ record rest { credential_refs = ref ∷ rest.credential_refs }
      → ref.credential_type ≡ kind
      → Answers rs rest
      → All (IsVerified bridge) c.proofs
        × (map (λ (q : ZkpProof P). q.circuit) c.proofs ≡ circuits_of rs)
        × (map (λ (r : CredentialRef). r.credential_type) c.credential_refs
            ≡ kind ∷ ref_types_of rs)
  with_ref ref kind rest c rs e same (all_met, all_verified, circuits, refs) =
      rw e (all_verified, circuits, ground (arith, same, refs))

  with_disclosure :
      (d : FullDisclosure V) (rest c : Collected P V) (rs : List Requirement)
      → c ≡ record rest { full_disclosures = d ∷ rest.full_disclosures }
      → Answers rs rest
      → All (IsVerified bridge) c.proofs
        × (map (λ (q : ZkpProof P). q.circuit) c.proofs ≡ circuits_of rs)
        × (map (λ (r : CredentialRef). r.credential_type) c.credential_refs ≡ ref_types_of rs)
  with_disclosure d rest c rs e (all_met, all_verified, circuits, refs) =
      rw e (all_verified, circuits, refs)

  -- When the loop over the requirements ends without an error, every requirement was met by what the
  -- wallet held (the age, the range of years, a country with a Merkle path, a credential of the type),
  -- every proof was verified with `1` as its first public signal, and there is exactly one proof for
  -- each zkp requirement and one reference for each credential-ref requirement, in their order.
  pub build_all-Answers :
      (requirements : List Requirement) (c : Collected P V)
      → build_all json bridge paths env requirements ≡ ok c
      → Answers requirements c
  unfolding build_all build_zkp_proof
  build_all-Answers [] c h =
      rw (ok_inj (record { proofs = []; credential_refs = []; full_disclosures = [] }) c h)
        (tt, tt, refl, refl)
  build_all-Answers (age_requirement t ∷ rs) c h =
      elim (Result-cases (prove_age bridge paths env.year t (birth_year_of env.profile))) [
        | inr (e, f) ↦ absurd (ground arith)
        | inl (p, f) ↦ elim (Result-cases (build_all json bridge paths env rs)) [
          | inr (e, g) ↦ absurd (ground arith)
          | inl (rest, g) ↦
              let (met, verified, same) =
                prove_age_sound bridge paths env.year t (birth_year_of env.profile) p f in
              let answers = build_all-Answers rs rest g in
              let (all_verified, circuits, refs) =
                with_proof p age_verification rest c rs (ground arith) verified same answers in
              ((met, answers.0), all_verified, circuits, refs)
        ]
      ]
  build_all-Answers (graduation_requirement lo hi ∷ rs) c h =
      elim (Result-cases (prove_graduation bridge paths lo hi (graduation_year_of env.profile))) [
        | inr (e, f) ↦ absurd (ground arith)
        | inl (p, f) ↦ elim (Result-cases (build_all json bridge paths env rs)) [
          | inr (e, g) ↦ absurd (ground arith)
          | inl (rest, g) ↦
              let (met, verified, same) =
                prove_graduation_sound bridge paths lo hi (graduation_year_of env.profile) p f in
              let answers = build_all-Answers rs rest g in
              let (all_verified, circuits, refs) =
                with_proof p graduation_year_range rest c rs (ground arith) verified same answers in
              ((met, answers.0), all_verified, circuits, refs)
        ]
      ]
  build_all-Answers (country_requirement root ∷ rs) c h =
      elim (Result-cases (prove_country bridge paths root (country_of env.profile))) [
        | inr (e, f) ↦ absurd (ground arith)
        | inl (p, f) ↦ elim (Result-cases (build_all json bridge paths env rs)) [
          | inr (e, g) ↦ absurd (ground arith)
          | inl (rest, g) ↦
              let (met, verified, same) =
                prove_country_sound bridge paths root (country_of env.profile) p f in
              let answers = build_all-Answers rs rest g in
              let (all_verified, circuits, refs) =
                with_proof p country_membership rest c rs (ground arith) verified same answers in
              ((met, answers.0), all_verified, circuits, refs)
        ]
      ]
  build_all-Answers (credential_ref_requirement kind eu ∷ rs) c h =
      elim (Result-cases (build_credential_ref env.credentials kind)) [
        | inr (e, f) ↦ absurd (ground arith)
        | inl (ref, f) ↦ elim (Result-cases (build_all json bridge paths env rs)) [
          | inr (e, g) ↦ absurd (ground arith)
          | inl (rest, g) ↦
              let (met, same) =
                build_credential_ref_sound bridge paths env.credentials kind ref f in
              let answers = build_all-Answers rs rest g in
              let (all_verified, circuits, refs) =
                with_ref ref kind rest c rs (ground arith) same answers in
              ((met, answers.0), all_verified, circuits, refs)
        ]
      ]
  build_all-Answers (full_disclosure_requirement kind ∷ rs) c h =
      elim (Result-cases (build_all json bridge paths env rs)) [
        | inr (e, g) ↦ absurd (ground arith)
        | inl (rest, g) ↦
            let answers = build_all-Answers rs rest g in
            let (all_verified, circuits, refs) =
              with_disclosure (build_full_disclosure env.credentials kind) rest c rs (ground arith)
                answers in
            ((tt, answers.0), all_verified, circuits, refs)
      ]

  build_response-Answers :
      (request : PresentationRequest) (response : PresentationResponse P V)
      → build_response json bridge paths env request ≡ ok response
      → (c : Collected P V) × (build_all json bridge paths env request.requirements ≡ ok c)
        × (response.payload ≡ payload_of json bridge paths env request c)
  unfolding build_response
  build_response-Answers request response h =
      elim (Result-cases (build_all json bridge paths env request.requirements)) [
        | inr (e, f) ↦ absurd (ground arith)
        | inl (c, f) ↦ elim (Result-cases env.identity_key) [
          | inr (e, g) ↦ absurd (ground arith)
          | inl (kid, g) ↦ (c, f, ground arith)
        ]
      ]

  -- `handleApprove` ends in one of two ways. Either it alerts an error and the wallet keeps nothing;
  -- the verifier has then been called only if a response was built. Or a response was built for which
  -- every requirement is answered, the verifier was called if the request has a callback and did not
  -- refuse it, and the response is kept in front of those that were kept before.
  pub handle_approve_lem :
      (request : PresentationRequest) (st : Screen json.Json W)
      → let st' = handle_approve json bridge paths env request st in
        ((st'.store ≡ st.store)
          × ((e : String) × (st'.alert ≡ some ("Error", e)))
          × ((st'.verifier ≡ st.verifier)
              ⊎ ((response : PresentationResponse P V) × (build_response json bridge paths env
                      request
                    ≡ ok response))))
        ⊎ ((response : PresentationResponse P V) × (c : Collected P V) × (build_all json bridge
                paths env request.requirements
              ≡ ok c)
            × (response.payload ≡ payload_of json bridge paths env request c)
            × (submit json bridge paths env request.callback_url response st.verifier
                ≡ (ok tt, st'.verifier))
            × (list json st'.store
                ≡ entry_of json bridge paths env request response ∷ list json st.store))
  unfolding handle_approve
  handle_approve_lem request st =
      elim (Result-cases (build_response json bridge paths env request)) [
        | inr (e, f) ↦ inl (ground arith, (e, ground arith), inl (ground arith))
        | inl (response, f) ↦
            elim (Result-cases
              (submit json bridge paths env request.callback_url response st.verifier).0) [
                | inr (e, g) ↦ inl (ground arith, (e, ground arith), inr (response, f))
                | inl (_, g) ↦
                    let (c, built, same) = build_response-Answers request response f in
                    let entry = entry_of json bridge paths env request response in
                    let (kept, _) = list-save json entry st.store in
                    inr (
                      response,
                      c,
                      built,
                      same,
                      ground arith,
                      ap (list json) (saved request response st f g) ∙ kept,
                    )
              ]
      ]
    where
      saved :
          (request : PresentationRequest) (response : PresentationResponse P V)
          (st : Screen json.Json W)
          → build_response json bridge paths env request ≡ ok response
          → (submit json bridge paths env request.callback_url response st.verifier).0 ≡ ok tt
          → (handle_approve json bridge paths env request st).store
            ≡ save json (entry_of json bridge paths env request response) st.store
      saved request response st f g = unfold handle_approve in ground arith
