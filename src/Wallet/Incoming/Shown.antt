-- ===== src/Wallet/Incoming/Shown.antt =====
-- screens/IncomingPresentationScreen.tsx: when the screen shows an outcome.
use did_wallet_thesis.Common.{
  ℕ, zero, suc, ◌<◌, ◌≡◌, refl, ap, ◌∙◌, sym, Bool, true, false, List, [], ◌∷◌, map, length, any,
  arith, all, not, ◌&&◌, ◌||◌, eqb, Bool-cases, ◌⊎◌, inl, inr,
}
use mathlib.Core.Bool.{true≢false}
use did_wallet_thesis.Wallet.Presentation.{PresentationResponse}
use did_wallet_thesis.Wallet.Zkp.{ZkpBridge}
use did_wallet_thesis.Wallet.Incoming.{
  TrustChain, ZkpStatus, RefStatus, Checks, update_at, is_empty, ref_done, zkp_done, fresh_zkp,
  fresh_ref, compute_overall, mount, CheckEvent, zkp_checked, ref_checked, settle_zkp, settle_ref,
  check_ended, check_all,
}
use did_wallet_thesis.Wallet.Incoming.Laws.{check_all-IsFaithful, mount-IsFaithful}

-- The end of the check of the proof, or of the reference, at an index.
abbrev pub ends_zkp : ℕ → CheckEvent → Bool
ends_zkp i (zkp_checked j) = eqb i j
ends_zkp i (ref_checked j) = false

abbrev pub ends_ref : ℕ → CheckEvent → Bool
ends_ref i (zkp_checked j) = false
ends_ref i (ref_checked j) = eqb i j

module _ {A : Type 0} (done : A → Bool) where
  -- The status at an index is done, if there is one.
  abbrev done_at : ℕ → List A → Bool
  done_at i [] = true
  done_at zero (x ∷ xs) = done x
  done_at (suc i) (x ∷ xs) = done_at i xs

  done_at-all : (xs : List A) → ((i : ℕ) → i < length xs → done_at i xs ≡ true) → all done xs ≡ true
  done_at-all [] h = refl
  done_at-all (x ∷ xs) h = rw (h 0 (omega arith)) (done_at-all xs (λ i lt. h (suc i) (omega arith)))

module _ {A : Type 0} (done : A → Bool) (settle : A → A)
    (settles : (x : A) → done (settle x) ≡ true) where
  done_at-update_at : (i : ℕ) (xs : List A) → done_at done i (update_at i settle xs) ≡ true
  done_at-update_at i [] = refl
  done_at-update_at zero (x ∷ xs) = settles x
  done_at-update_at (suc i) (x ∷ xs) = done_at-update_at i xs

  done_at-kept :
      (i j : ℕ) (xs : List A)
      → done_at done i xs ≡ true
      → done_at done i (update_at j settle xs) ≡ true
  done_at-kept i j [] h = refl
  done_at-kept zero zero (x ∷ xs) h = settles x
  done_at-kept zero (suc j) (x ∷ xs) h = h
  done_at-kept (suc i) zero (x ∷ xs) h = h
  done_at-kept (suc i) (suc j) (x ∷ xs) h = done_at-kept i j xs h

  all-update_at :
      (j : ℕ) (xs : List A) → all done xs ≡ true → all done (update_at j settle xs) ≡ true
  all-update_at j [] h = refl
  all-update_at zero (x ∷ xs) h = ground (arith, settles x)
  all-update_at (suc j) (x ∷ xs) h =
      let first : done x ≡ true = ground arith in rw first (all-update_at j xs (ground arith))

is_empty-update_at :
    {A : Type 0} (j : ℕ) (f : A → A) (xs : List A) → is_empty (update_at j f xs) ≡ is_empty xs
is_empty-update_at j f [] = refl
is_empty-update_at zero f (x ∷ xs) = refl
is_empty-update_at (suc j) f (x ∷ xs) = refl

is_empty-map : {A B : Type 0} (f : A → B) (xs : List A) → is_empty (map f xs) ≡ is_empty xs
is_empty-map f [] = refl
is_empty-map f (x ∷ xs) = refl

length-map : {A B : Type 0} (f : A → B) (xs : List A) → length (map f xs) ≡ length xs
length-map f [] = refl
length-map f (x ∷ xs) = ap suc (length-map f xs)

module _ {P : Type 0} (bridge : ZkpBridge P) (chain : TrustChain) where
  abbrev settled : Checks P → Bool
  settled st =
      all zkp_done st.zkp_statuses
      && (all ref_done st.ref_statuses
          && (not (is_empty st.zkp_statuses) || not (is_empty st.ref_statuses)))

  -- The outcome is shown exactly when everything is settled.
  abbrev IsShown : Checks P → Type 0
  IsShown st = st.all_done ≡ settled st

  compute_overall-kept :
      (st : Checks P)
      → ((compute_overall st).zkp_statuses ≡ st.zkp_statuses)
        × ((compute_overall st).ref_statuses ≡ st.ref_statuses)
  unfolding compute_overall
  compute_overall-kept st = elim (Bool-cases (settled st)) [
    | inl now ↦ (rw (compute_overall, now) refl, rw (compute_overall, now) refl)
    | inr waiting ↦ (rw (compute_overall, waiting) refl, rw (compute_overall, waiting) refl)
  ]

  compute_overall-IsShown :
      (st : Checks P) → (st.all_done ≡ true → settled st ≡ true) → IsShown (compute_overall st)
  unfolding compute_overall
  compute_overall-IsShown st h = elim (Bool-cases (settled st)) [
    | inl now ↦ rw (compute_overall, now) (sym now)
    | inr waiting ↦ elim (Bool-cases st.all_done) [
      | inl shown ↦ absurd (true≢false (sym (h shown) ∙ waiting))
      | inr hidden ↦ rw (compute_overall, waiting) (hidden ∙ sym waiting)
    ]
  ]

  check_ended-IsShown :
      (event : CheckEvent) (st : Checks P)
      → IsShown st
      → IsShown (check_ended bridge chain event st)
  unfolding check_ended
  check_ended-IsShown (zkp_checked i) st shown =
      compute_overall-IsShown
        (record st { zkp_statuses = update_at i (settle_zkp bridge chain) st.zkp_statuses })
        (λ h.
          let ready = sym shown ∙ h in
          rw
            (
              all-update_at zkp_done (settle_zkp bridge chain) (λ s. refl) i st.zkp_statuses
                  (ground arith),
              is_empty-update_at i (settle_zkp bridge chain) st.zkp_statuses,
            )
            (ground arith))
  check_ended-IsShown (ref_checked i) st shown =
      compute_overall-IsShown
        (record st { ref_statuses = update_at i (settle_ref bridge chain) st.ref_statuses })
        (λ h.
          let ready = sym shown ∙ h in
          rw
            (
              all-update_at ref_done (settle_ref bridge chain) (λ s. refl) i st.ref_statuses
                  (ground arith),
              is_empty-update_at i (settle_ref bridge chain) st.ref_statuses,
            )
            (ground arith))

  check_all-IsShown :
      (events : List CheckEvent) (st : Checks P)
      → IsShown st
      → IsShown (check_all bridge chain events st)
  unfolding check_all
  check_all-IsShown [] st shown = shown
  check_all-IsShown (event ∷ events) st shown =
      check_all-IsShown events (check_ended bridge chain event st)
        (check_ended-IsShown event st shown)

  zkp_ended :
      (i : ℕ) (event : CheckEvent) (st : Checks P)
      → (done_at zkp_done i st.zkp_statuses ≡ true) ⊎ (ends_zkp i event ≡ true)
      → done_at zkp_done i (check_ended bridge chain event st).zkp_statuses ≡ true
  unfolding check_ended
  zkp_ended i (zkp_checked j) st h =
      rw
        ((compute_overall-kept
          (record st { zkp_statuses = update_at j (settle_zkp bridge chain) st.zkp_statuses })).0)
        (elim h [
          | inl before ↦
              done_at-kept zkp_done (settle_zkp bridge chain) (λ s. refl) i j st.zkp_statuses before
          | inr now ↦
              let same : j ≡ i = ground arith in
              rw same
                (done_at-update_at zkp_done (settle_zkp bridge chain) (λ s. refl) i st.zkp_statuses)
        ])
  zkp_ended i (ref_checked j) st h =
      rw
        ((compute_overall-kept
          (record st { ref_statuses = update_at j (settle_ref bridge chain) st.ref_statuses })).0)
        (elim h [ inl before ↦ before | inr now ↦ absurd (true≢false (sym now)) ])

  ref_ended :
      (i : ℕ) (event : CheckEvent) (st : Checks P)
      → (done_at ref_done i st.ref_statuses ≡ true) ⊎ (ends_ref i event ≡ true)
      → done_at ref_done i (check_ended bridge chain event st).ref_statuses ≡ true
  unfolding check_ended
  ref_ended i (ref_checked j) st h =
      rw
        ((compute_overall-kept
          (record st { ref_statuses = update_at j (settle_ref bridge chain) st.ref_statuses })).1)
        (elim h [
          | inl before ↦
              done_at-kept ref_done (settle_ref bridge chain) (λ s. refl) i j st.ref_statuses before
          | inr now ↦
              let same : j ≡ i = ground arith in
              rw same
                (done_at-update_at ref_done (settle_ref bridge chain) (λ s. refl) i st.ref_statuses)
        ])
  ref_ended i (zkp_checked j) st h =
      rw
        ((compute_overall-kept
          (record st { zkp_statuses = update_at j (settle_zkp bridge chain) st.zkp_statuses })).1)
        (elim h [ inl before ↦ before | inr now ↦ absurd (true≢false (sym now)) ])

  zkp_all_ended :
      (i : ℕ) (events : List CheckEvent) (st : Checks P)
      → (done_at zkp_done i st.zkp_statuses ≡ true) ⊎ (any (ends_zkp i) events ≡ true)
      → done_at zkp_done i (check_all bridge chain events st).zkp_statuses ≡ true
  unfolding check_all
  zkp_all_ended i [] st h = elim h [
    | inl before ↦ before
    | inr never ↦ absurd (true≢false (sym never))
  ]
  zkp_all_ended i (event ∷ events) st h =
      zkp_all_ended i events (check_ended bridge chain event st) (elim h [
        | inl before ↦ inl (zkp_ended i event st (inl before))
        | inr some_time ↦ elim (Bool-cases (ends_zkp i event)) [
          | inl now ↦ inl (zkp_ended i event st (inr now))
          | inr later ↦ inr (ground arith)
        ]
      ])

  ref_all_ended :
      (i : ℕ) (events : List CheckEvent) (st : Checks P)
      → (done_at ref_done i st.ref_statuses ≡ true) ⊎ (any (ends_ref i) events ≡ true)
      → done_at ref_done i (check_all bridge chain events st).ref_statuses ≡ true
  unfolding check_all
  ref_all_ended i [] st h = elim h [
    | inl before ↦ before
    | inr never ↦ absurd (true≢false (sym never))
  ]
  ref_all_ended i (event ∷ events) st h =
      ref_all_ended i events (check_ended bridge chain event st) (elim h [
        | inl before ↦ inl (ref_ended i event st (inl before))
        | inr some_time ↦ elim (Bool-cases (ends_ref i event)) [
          | inl now ↦ inl (ref_ended i event st (inr now))
          | inr later ↦ inr (ground arith)
        ]
      ])

  mount-IsShown : {V : Type 0} (response : PresentationResponse P V) → IsShown (mount response)
  unfolding mount
  mount-IsShown response =
      compute_overall-IsShown
        (record {
          zkp_statuses = map fresh_zkp response.payload.proofs;
          ref_statuses = map fresh_ref response.payload.credential_refs;
          all_done = false;
          overall_valid = false;
        })
        (λ h. absurd (true≢false (sym h)))

  -- Once the check of every proof and of every reference of a response has ended, in whatever order, the
  -- screen shows an outcome exactly if the response has a proof or a reference; so it never does for a
  -- response that only discloses credentials.
  pub all_done_lem :
      {V : Type 0} (response : PresentationResponse P V) (events : List CheckEvent)
      → ((i : ℕ) → i < length response.payload.proofs → any (ends_zkp i) events ≡ true)
      → ((i : ℕ) → i < length response.payload.credential_refs → any (ends_ref i) events ≡ true)
      → (check_all bridge chain events (mount response)).all_done ≡ (
          not (is_empty response.payload.proofs) || not (is_empty response.payload.credential_refs))
  all_done_lem response events proofs_end refs_end =
      let start = mount response in
      let end = check_all bridge chain events start in
      let faithful =
        check_all-IsFaithful bridge chain response events start
          (mount-IsFaithful bridge chain response) in
      let proofs : length end.zkp_statuses ≡ length response.payload.proofs =
        sym (length-map (λ (s : ZkpStatus P). s.proof) end.zkp_statuses)
        ∙ ap length faithful.proofs in
      let refs : length end.ref_statuses ≡ length response.payload.credential_refs =
        sym (length-map (λ (s : RefStatus). s.ref) end.ref_statuses) ∙ ap length faithful.refs in
      let zkp : all zkp_done end.zkp_statuses ≡ true =
        done_at-all zkp_done end.zkp_statuses
          (λ i lt. zkp_all_ended i events start (inr (proofs_end i (omega (arith, proofs))))) in
      let ref : all ref_done end.ref_statuses ≡ true =
        done_at-all ref_done end.ref_statuses
          (λ i lt. ref_all_ended i events start (inr (refs_end i (omega (arith, refs))))) in
      check_all-IsShown events start (mount-IsShown response)
      ∙ rw
          (
            zkp,
            ref,
            sym (is_empty-map (λ (s : ZkpStatus P). s.proof) end.zkp_statuses),
            faithful.proofs,
            sym (is_empty-map (λ (s : RefStatus). s.ref) end.ref_statuses),
            faithful.refs,
          )
          refl
