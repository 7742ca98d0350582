-- ===== src/Wallet/Did/Laws.antt =====
-- services/didService.ts: the identity of the wallet stays the same.
use did_wallet_thesis.Common.{
  ◌≡◌, refl, sym, ap, ◌∙◌, String, true, false, Option, List, [], ◌∷◌, Result, ok, throw,
  run_then_ok, run_then_throw, is_thrown, truthy, get_or, arith, Bool-cases, Result-cases, inl, inr,
}
use mathlib.Core.Bool.{true≢false}
use did_wallet_thesis.Wallet.Did.{
  Identifier, DidInfo, VeramoAgent, Curve, DidService, wallet_identity_alias, initialize,
  found_or_created, get_or_create_identity,
}

module _ (agent : VeramoAgent) (curve : Curve) where
  open agent use {Database, did_manager_find, did_manager_create}

  initialize-started :
      (secret_key : Option String) (svc : DidService agent)
      → is_thrown (initialize agent curve secret_key svc).0 ≡ false
      → (initialize agent curve secret_key svc).1.initialized ≡ true
  unfolding initialize
  initialize-started secret_key svc h = elim (Bool-cases svc.initialized) [
    | inl before ↦ rw (initialize, before) refl
    | inr first ↦ elim (Bool-cases (truthy secret_key)) [
      | inr missing ↦ absurd (ground arith)
      | inl held ↦
          elim (Result-cases (agent.initialize_agent (get_or secret_key "") svc.database).0) [
            | inl (done, e) ↦ rw (initialize, first, held, e) refl
            | inr (message, e) ↦
                absurd (true≢false (sym (rw (initialize, first, held, e) refl) ∙ h))
          ]
    ]
  ]

  initialize-again :
      (secret_key : Option String) (svc : DidService agent)
      → svc.initialized ≡ true
      → initialize agent curve secret_key svc ≡ (ok tt, svc)
  unfolding initialize
  initialize-again secret_key svc h = rw h refl

  lookup : DidService agent → Result String DidInfo × DidService agent
  lookup svc =
      found_or_created agent curve (did_manager_find wallet_identity_alias svc.database) svc

  -- The answer `found` is the agent's about its database.
  Answers : Result String (List Identifier) → DidService agent → Type 0
  Answers answer svc = did_manager_find wallet_identity_alias svc.database ≡ answer

  abbrev Repeats : DidService agent → DidInfo → Result String DidInfo × DidService agent → Type 0
  Repeats svc info (outcome, svc') =
      outcome ≡ ok info → (svc'.initialized ≡ svc.initialized) × (lookup svc' ≡ (ok info, svc'))

  lookup-answer :
      (answer : Result String (List Identifier)) (svc : DidService agent)
      → Answers answer svc
      → lookup svc ≡ found_or_created agent curve answer svc
  unfolding lookup Answers
  lookup-answer answer svc e =
      ap (λ (a : Result String (List Identifier)). found_or_created agent curve a svc) e

  module _
      (finds_created : (provider alias : String) (db : Database) (id : Identifier)
        → (did_manager_create provider alias db).0 ≡ ok id
        → did_manager_find alias (did_manager_create provider alias db).1 ≡ ok (id ∷ [])) where
    created_Repeats :
        (svc : DidService agent) (info : DidInfo)
        → Repeats svc info (found_or_created agent curve (ok []) svc)
    unfolding found_or_created
    created_Repeats svc info =
        elim (Result-cases
          (did_manager_create "did:ethr:sepolia" wallet_identity_alias svc.database).0) [
            | inr (message, e) ↦
                rw (found_or_created, e) (λ h. absurd (true≢false (ap is_thrown h)))
            | inl (id, e) ↦
                let svc' : DidService agent = record svc {
                  database =
                      (did_manager_create "did:ethr:sepolia" wallet_identity_alias svc.database).1;
                } in
                rw (found_or_created, e)
                  (λ h. (
                    refl,
                    lookup-answer (ok (id ∷ [])) svc' (
                          unfold Answers in
                          finds_created "did:ethr:sepolia" wallet_identity_alias svc.database id e)
                        ∙ ap (λ (o : Result String DidInfo). (o, svc')) h,
                  ))
          ]

    found_or_created-Repeats :
        (answer : Result String (List Identifier)) (svc : DidService agent) (info : DidInfo)
        → Answers answer svc
        → Repeats svc info (found_or_created agent curve answer svc)
    unfolding found_or_created
    found_or_created-Repeats (throw e) svc info answers h = absurd (true≢false (ap is_thrown h))
    found_or_created-Repeats (ok (id ∷ ids)) svc info answers h = (
      refl,
      lookup-answer (ok (id ∷ ids)) svc answers ∙ ap (λ (o : Result String DidInfo). (o, svc)) h,
    )
    found_or_created-Repeats (ok []) svc info answers h = created_Repeats svc info h

    again_lem :
        (later : Option String) (svc : DidService agent) (info : DidInfo)
        → svc.initialized ≡ true
        → (p : Result String DidInfo × DidService agent) → p ≡ lookup svc
        → p.0 ≡ ok info
        → get_or_create_identity agent curve later p.1 ≡ (ok info, p.1)
    unfolding get_or_create_identity lookup
    again_lem later svc info started p e h =
        let (same, again) =
          found_or_created-Repeats (did_manager_find wallet_identity_alias svc.database) svc info
            (unfold Answers in refl)
            (ap (λ (p : Result String DidInfo × DidService agent). p.0) (sym e) ∙ h) in
        let s = (lookup svc).1 in
        let init = initialize-again later s (same ∙ started) in
        ap
          (λ (q : Result String DidInfo × DidService agent).
            get_or_create_identity agent curve later q.1)
          e
        ∙ run_then_ok (initialize agent curve later s) tt (λ done svc1. lookup svc1)
            (ap (λ (q : Result String (Unit {0}) × DidService agent). q.0) init)
        ∙ ap lookup (ap (λ (q : Result String (Unit {0}) × DidService agent). q.1) init)
        ∙ again
        ∙ ap (λ (q : Result String DidInfo × DidService agent). (ok info, q.1)) (sym e)

    -- The identity that the wallet got once, it gets at every later call, and that call changes nothing,
    -- whatever key is read by then; it is assumed that the agent finds an identity that it created, and
    -- it alone, under the alias.
    pub get_or_create_identity_again :
        (secret_key later : Option String) (svc : DidService agent) (info : DidInfo)
        → let (outcome, svc') = get_or_create_identity agent curve secret_key svc in
          outcome ≡ ok info → get_or_create_identity agent curve later svc' ≡ (ok info, svc')
    unfolding get_or_create_identity lookup
    get_or_create_identity_again secret_key later svc info h =
        elim (Result-cases (initialize agent curve secret_key svc).0) [
          | inr (message, e) ↦ absurd (
              true≢false (
                sym (
                  run_then_throw (initialize agent curve secret_key svc) message
                    (λ done svc1. lookup svc1) e)
                ∙ ap is_thrown h))
          | inl (done, e) ↦
              let svc1 = (initialize agent curve secret_key svc).1 in
              let first =
                run_then_ok (initialize agent curve secret_key svc) tt (λ done svc1. lookup svc1)
                  e in
              again_lem later (initialize agent curve secret_key svc).1 info
                (initialize-started secret_key svc (ap is_thrown e))
                (get_or_create_identity agent curve secret_key svc) first h
        ]
