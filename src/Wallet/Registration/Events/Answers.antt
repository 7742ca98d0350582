-- ===== src/Wallet/Registration/Events/Answers.antt =====
-- screens/RegistrationWizardScreen.tsx: what the requests of the wizard answer.
use Prim.Native.String
use Prim.Native.String.{count}
use did_wallet_thesis.Common.{
  String, true, false, ◌&&◌, Option, none, some, ◌==◌, if◌then◌else◌, get_or, truthy, Result, ok,
  throw,
}
use did_wallet_thesis.Wallet.Registration.{pin_step, Wizard, go}

pub record RegistrationStatus : Type 0 where
  pub status : String
  pub accreditation_id : Option String
  pub rejection_reason : Option String

-- Requests. A request begins with `loading` and without an error.
unfoldable pub request_started : Wizard → Wizard
request_started w = record w { loading = true; error = none }

unfoldable pub accredited : String → Wizard → Wizard
unfolding go
accredited id w = go pin_step (record w { accreditation_id = id })

unfoldable pub check_ended : Result String (Option String) → Wizard → Wizard
unfolding accredited
check_ended (throw e) w = record w { error = some e; loading = false }
check_ended (ok id) w =
    if truthy id then record (accredited (get_or id "") w) { loading = false } else (record w {
      error =
          some
            "No valid accreditation found for this wallet address. Ask your operator to issue one, then try again.";
      loading = false;
    })

unfoldable pub submit_ended : Result String String → Wizard → Wizard
submit_ended (throw e) w = record w { error = some e; loading = false }
submit_ended (ok request_id) w = record w {
  enterprise_request_id = some request_id;
  loading = false;
}

unfoldable pub poll_started : Wizard → Wizard
poll_started w = record w { polling_accreditation = true; error = none }

-- `data.accreditationId || looked_up`.
abbrev pub approved_id : RegistrationStatus → Option String → Option String
approved_id reply looked_up =
    if truthy reply.accreditation_id then reply.accreditation_id else looked_up

-- `looked_up` is what the search on the chain returns, which the code awaits when it needs it.
unfoldable pub poll_answered : RegistrationStatus → Option String → Wizard → Wizard
unfolding accredited
poll_answered reply looked_up w =
    if reply.status == "Approved"
    then (if truthy (approved_id reply looked_up)
        then accredited (get_or (approved_id reply looked_up) "") w
        else (record w {
          error =
              some
                "Approval found but accreditation not yet on-chain. Please try again in a moment.";
        }))
    else if reply.status == "Rejected"
    then (record w {
      error = some (
          String.◌++◌ "Registration rejected: "
            (String.◌++◌ (get_or reply.rejection_reason "no reason provided") "."));
    })
    else record w { error = some "Approval is still pending. Try again in a few moments." }

unfoldable pub poll_ended : Result String RegistrationStatus → Option String → Wizard → Wizard
unfolding poll_answered
poll_ended (throw e) looked_up w = record w { error = some e; polling_accreditation = false }
poll_ended (ok reply) looked_up w = record (poll_answered reply looked_up w) {
  polling_accreditation = false;
}

-- The check of a restored request, whose errors are silent.
unfoldable pub restored_answered : RegistrationStatus → Wizard → Wizard
unfolding accredited
restored_answered reply w =
    if reply.status == "Approved" && truthy reply.accreditation_id
    then accredited (get_or reply.accreditation_id "") w
    else w

unfoldable pub finish_ended : Result String (Unit {0}) → Wizard → Wizard
finish_ended (throw e) w = record w { error = some e; loading = false }
finish_ended (ok done) w = record w { completed = true; loading = false }
