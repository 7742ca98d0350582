-- ===== src/Wallet/Registration/Requests.antt =====
-- screens/RegistrationWizardScreen.tsx: what the ends of the requests keep of the invariant.
use Prim.Native.String.{count}
use did_wallet_thesis.Common.{
  String, true, false, Option, none, some, List, ◌==◌, ltb, get_or, truthy, Result, ok, throw, ◌≡◌,
  arith, Bool-cases, inl, inr,
}
use did_wallet_thesis.Wallet.Registration.{Step, Wizard, EuCountry, is_personal, filled, go}
use did_wallet_thesis.Wallet.Registration.Events.{
  step_number, accredited, check_ended, poll_answered, poll_ended, restored_answered,
  RegistrationStatus, approved_id,
}
use did_wallet_thesis.Wallet.Registration.Sound.{IsSound}

module _ (countries : List EuCountry) where
  -- Going to a step before the consents: to the confirmation with a complete PIN, and to the PIN or its
  -- confirmation with an accreditation.
  pub go-IsSound :
      (s : Step) (w : Wizard)
      → ltb (step_number s) 5 ≡ true
      → (step_number s ≡ 4 → count w.state.pin ≡ 6)
      → (step_number s ≡ 2 → is_personal w.account_type ≡ false)
      → (ltb 2 (step_number s) ≡ true
          → is_personal w.account_type ≡ false
          → filled w.accreditation_id ≡ true)
      → IsSound countries w
      → IsSound countries (go s w)
  unfolding go
  go-IsSound s w early six organisation present p = record {
    pin_typed = p.pin_typed;
    confirm_typed = p.confirm_typed;
    complete = λ late. six (ground arith);
    confirmed = ground arith;
    gated = organisation;
    has_accreditation = present;
    county_offered = p.county_offered;
  }

  pub accredited-IsSound :
      (id : String) (w : Wizard)
      → filled id ≡ true
      → IsSound countries w
      → IsSound countries (accredited id w)
  unfolding accredited go
  accredited-IsSound id w present p = record {
    pin_typed = p.pin_typed;
    confirm_typed = p.confirm_typed;
    complete = ground arith;
    confirmed = ground arith;
    gated = ground arith;
    has_accreditation = λ _ _. present;
    county_offered = p.county_offered;
  }

  truthy-filled : (id : Option String) → truthy id ≡ true → filled (get_or id "") ≡ true
  truthy-filled none h = absurd (ground arith)
  truthy-filled (some id) h = ground arith

  pub check_ended-IsSound :
      (outcome : Result String (Option String)) (w : Wizard)
      → IsSound countries w
      → IsSound countries (check_ended outcome w)
  unfolding check_ended
  check_ended-IsSound (throw e) w p = p
  check_ended-IsSound (ok id) w p = elim (Bool-cases (truthy id)) [
    | inl found ↦ rw found (accredited-IsSound (get_or id "") w (truthy-filled id found) p)
    | inr missing ↦ rw missing p
  ]

  poll_answered-IsSound :
      (reply : RegistrationStatus) (looked_up : Option String) (w : Wizard)
      → IsSound countries w
      → IsSound countries (poll_answered reply looked_up w)
  unfolding poll_answered
  poll_answered-IsSound reply looked_up w p = elim (Bool-cases (reply.status == "Approved")) [
    | inl approved ↦ elim (Bool-cases (truthy (approved_id reply looked_up))) [
      | inl found ↦
          rw (approved, found)
            (accredited-IsSound (get_or (approved_id reply looked_up) "") w
              (truthy-filled (approved_id reply looked_up) found) p)
      | inr missing ↦ rw (approved, missing) p
    ]
    | inr waiting ↦ elim (Bool-cases (reply.status == "Rejected")) [
      | inl rejected ↦ rw (waiting, rejected) p
      | inr pending ↦ rw (waiting, pending) p
    ]
  ]

  pub poll_ended-IsSound :
      (outcome : Result String RegistrationStatus) (looked_up : Option String) (w : Wizard)
      → IsSound countries w
      → IsSound countries (poll_ended outcome looked_up w)
  unfolding poll_ended
  poll_ended-IsSound (throw e) looked_up w p = p
  poll_ended-IsSound (ok reply) looked_up w p = poll_answered-IsSound reply looked_up w p

  pub restored_answered-IsSound :
      (reply : RegistrationStatus) (w : Wizard)
      → IsSound countries w
      → IsSound countries (restored_answered reply w)
  unfolding restored_answered
  restored_answered-IsSound reply w p = elim (Bool-cases (reply.status == "Approved")) [
    | inr waiting ↦ rw waiting p
    | inl approved ↦ elim (Bool-cases (truthy reply.accreditation_id)) [
      | inl found ↦
          rw (approved, found)
            (accredited-IsSound (get_or reply.accreditation_id "") w
              (truthy-filled reply.accreditation_id found) p)
      | inr missing ↦ rw (approved, missing) p
    ]
  ]
