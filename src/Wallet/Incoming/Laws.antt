-- ===== src/Wallet/Incoming/Laws.antt =====
-- screens/IncomingPresentationScreen.tsx: the outcome is that of the checks, in whatever order they end.
use did_wallet_thesis.Common.{
  ℕ, zero, suc, ◌≡◌, refl, ap, ◌∙◌, Bool, true, false, List, [], ◌∷◌, map, arith, all, All, not,
  ◌&&◌, ◌||◌, Bool-cases, inl, inr,
}
use did_wallet_thesis.Wallet.Presentation.{ZkpProof, CredentialRef, PresentationResponse}
use did_wallet_thesis.Wallet.Zkp.{ZkpBridge}
use did_wallet_thesis.Wallet.Incoming.{
  TrustChain, verify_credential_ref, ZkpStatus, RefStatus, Checks, update_at, is_empty, ref_done,
  ref_valid, zkp_done, zkp_valid, fresh_zkp, fresh_ref, compute_overall, mount, CheckEvent,
  zkp_checked, ref_checked, verdict, settle_zkp, settle_ref, check_ended, check_all,
}

module _ {A : Type 0} where
  map-update_at :
      {B : Type 0} (g : A → B) (f : A → A) (i : ℕ) (xs : List A)
      → ((x : A) → g (f x) ≡ g x)
      → map g (update_at i f xs) ≡ map g xs
  map-update_at g f i [] same = refl
  map-update_at g f zero (x ∷ xs) same = ap (λ y. y ∷ map g xs) (same x)
  map-update_at g f (suc i) (x ∷ xs) same = ap (λ ys. g x ∷ ys) (map-update_at g f i xs same)

  All-update_at :
      (Q : A → Type 0) (f : A → A) (i : ℕ) (xs : List A)
      → ((x : A) → Q (f x))
      → All Q xs
      → All Q (update_at i f xs)
  All-update_at Q f i [] made h = tt
  All-update_at Q f zero (x ∷ xs) made (q, h) = (made x, h)
  All-update_at Q f (suc i) (x ∷ xs) made (q, h) = (q, All-update_at Q f i xs made h)

module _ {P : Type 0} (bridge : ZkpBridge P) (chain : TrustChain) where
  -- A status that is not being checked holds what its check gave.
  ZkpHonest : ZkpStatus P → Type 0
  ZkpHonest s = zkp_done s ≡ true → zkp_valid s ≡ verdict bridge chain s.proof

  RefHonest : RefStatus → Type 0
  RefHonest s =
      ref_done s ≡ true → ref_valid s ≡ (verify_credential_ref chain s.ref).trust_chain_valid

  -- What the checks say of a response.
  abbrev pub expected : {V : Type 0} → PresentationResponse P V → Bool
  expected response =
      all (verdict bridge chain) response.payload.proofs
      && all (λ r. (verify_credential_ref chain r).trust_chain_valid)
          response.payload.credential_refs

  zkp_all :
      (ss : List (ZkpStatus P))
      → All ZkpHonest ss
      → all zkp_done ss ≡ true
      → all zkp_valid ss ≡ all (verdict bridge chain) (map (λ s. s.proof) ss)
  unfolding ZkpHonest
  zkp_all [] h d = refl
  zkp_all (s ∷ ss) (honest, h) d = ground (arith, honest, zkp_all ss h)

  ref_all :
      (ss : List RefStatus)
      → All RefHonest ss
      → all ref_done ss ≡ true
      → all ref_valid ss
        ≡ all (λ r. (verify_credential_ref chain r).trust_chain_valid) (map (λ s. s.ref) ss)
  unfolding RefHonest
  ref_all [] h d = refl
  ref_all (s ∷ ss) (honest, h) d = ground (arith, honest, ref_all ss h)

  pub record IsFaithful {V : Type 0} (response : PresentationResponse P V) (st : Checks P)
      : Type 0 where
    pub proofs : map (λ s. s.proof) st.zkp_statuses ≡ response.payload.proofs
    pub refs : map (λ s. s.ref) st.ref_statuses ≡ response.payload.credential_refs
    zkp_honest : All ZkpHonest st.zkp_statuses
    ref_honest : All RefHonest st.ref_statuses
    outcome : st.all_done ≡ true → st.overall_valid ≡ expected response

  -- The statuses that `mount` makes.
  fresh_proofs :
      (ps : List (ZkpProof P)) → map (λ (s : ZkpStatus P). s.proof) (map fresh_zkp ps) ≡ ps
  fresh_proofs [] = refl
  fresh_proofs (p ∷ ps) = ap (λ qs. p ∷ qs) (fresh_proofs ps)

  fresh_proofs-ZkpHonest : (ps : List (ZkpProof P)) → All ZkpHonest (map fresh_zkp ps)
  fresh_proofs-ZkpHonest [] = tt
  fresh_proofs-ZkpHonest (p ∷ ps) =
      (unfold ZkpHonest in λ h. absurd (ground arith), fresh_proofs-ZkpHonest ps)

  fresh_refs : (rs : List CredentialRef) → map (λ (s : RefStatus). s.ref) (map fresh_ref rs) ≡ rs
  fresh_refs [] = refl
  fresh_refs (r ∷ rs) = ap (λ qs. r ∷ qs) (fresh_refs rs)

  fresh_refs-RefHonest : (rs : List CredentialRef) → All RefHonest (map fresh_ref rs)
  fresh_refs-RefHonest [] = tt
  fresh_refs-RefHonest (r ∷ rs) =
      (unfold RefHonest in λ h. absurd (ground arith), fresh_refs-RefHonest rs)

  module _ {V : Type 0} (response : PresentationResponse P V) where
    compute_overall-IsFaithful :
        (st : Checks P) → IsFaithful response st → IsFaithful response (compute_overall st)
    unfolding compute_overall
    compute_overall-IsFaithful st c =
        elim (Bool-cases (
          all zkp_done st.zkp_statuses
          && (all ref_done st.ref_statuses
              && (not (is_empty st.zkp_statuses) || not (is_empty st.ref_statuses))))) [
                | inr waiting ↦ rw (compute_overall, waiting) c
                | inl done ↦
                    let zkp = zkp_all st.zkp_statuses c.zkp_honest (ground arith) in
                    let ref = ref_all st.ref_statuses c.ref_honest (ground arith) in
                    rw (compute_overall, done)
                      (record {
                        proofs = c.proofs;
                        refs = c.refs;
                        zkp_honest = c.zkp_honest;
                        ref_honest = c.ref_honest;
                        outcome = λ _. rw (zkp, ref, c.proofs, c.refs) refl;
                      })
              ]

    check_ended-IsFaithful :
        (event : CheckEvent) (st : Checks P)
        → IsFaithful response st
        → IsFaithful response (check_ended bridge chain event st)
    unfolding check_ended
    check_ended-IsFaithful (zkp_checked i) st c =
        compute_overall-IsFaithful
          (record st { zkp_statuses = update_at i (settle_zkp bridge chain) st.zkp_statuses })
          (record {
            proofs =
                map-update_at (λ (s : ZkpStatus P). s.proof) (settle_zkp bridge chain) i
                  st.zkp_statuses (λ s. refl)
                ∙ c.proofs;
            refs = c.refs;
            zkp_honest =
                All-update_at ZkpHonest (settle_zkp bridge chain) i st.zkp_statuses
                  (λ s. unfold ZkpHonest in λ _. refl) c.zkp_honest;
            ref_honest = c.ref_honest;
            outcome = c.outcome;
          })
    check_ended-IsFaithful (ref_checked i) st c =
        compute_overall-IsFaithful
          (record st { ref_statuses = update_at i (settle_ref bridge chain) st.ref_statuses })
          (record {
            proofs = c.proofs;
            refs =
                map-update_at (λ (s : RefStatus). s.ref) (settle_ref bridge chain) i st.ref_statuses
                  (λ s. refl)
                ∙ c.refs;
            zkp_honest = c.zkp_honest;
            ref_honest =
                All-update_at RefHonest (settle_ref bridge chain) i st.ref_statuses
                  (λ s. unfold RefHonest in λ _. refl) c.ref_honest;
            outcome = c.outcome;
          })

    pub check_all-IsFaithful :
        (events : List CheckEvent) (st : Checks P)
        → IsFaithful response st
        → IsFaithful response (check_all bridge chain events st)
    unfolding check_all
    check_all-IsFaithful [] st c = c
    check_all-IsFaithful (event ∷ events) st c =
        check_all-IsFaithful events (check_ended bridge chain event st)
          (check_ended-IsFaithful event st c)

    pub mount-IsFaithful : IsFaithful response (mount response)
    unfolding mount
    mount-IsFaithful =
        compute_overall-IsFaithful
          (record {
            zkp_statuses = map fresh_zkp response.payload.proofs;
            ref_statuses = map fresh_ref response.payload.credential_refs;
            all_done = false;
            overall_valid = false;
          })
          (record {
            proofs = fresh_proofs response.payload.proofs;
            refs = fresh_refs response.payload.credential_refs;
            zkp_honest = fresh_proofs-ZkpHonest response.payload.proofs;
            ref_honest = fresh_refs-RefHonest response.payload.credential_refs;
            outcome = λ h. absurd (ground arith);
          })

    -- In whatever order and number the checks of a response end, once the screen shows an outcome it is
    -- that every proof of the response is verified and every reference has a valid trust chain.
    pub overall_valid-expected :
        (events : List CheckEvent)
        → (check_all bridge chain events (mount response)).all_done ≡ true
        → (check_all bridge chain events (mount response)).overall_valid ≡ expected response
    overall_valid-expected events done =
        (check_all-IsFaithful events (mount response) mount-IsFaithful).outcome done
