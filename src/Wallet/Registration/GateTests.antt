-- ===== src/Wallet/Registration/GateTests.antt =====
-- screens/RegistrationWizardScreen.tsx: runs of the gating step.
use did_wallet_thesis.Common.{
  ℕ, ◌≡◌, refl, String, true, false, none, some, [], ◌∷◌, Result, ok, arith,
}
use did_wallet_thesis.Common.Text.{to_lower, take_chars}
use did_wallet_thesis.Common.Trim.{trim}
use did_wallet_thesis.Wallet.Account.{get_secret_key, create_wallet}
use did_wallet_thesis.Wallet.Did.{
  get_or_create_identity, initialize, found_or_created, derive_ethereum_address, last_part,
}
use did_wallet_thesis.Wallet.Lookup.{
  RegistryContract, AccreditationRecord, find_active_institution_accreditation, find_for, find_in,
  is_active,
}
use did_wallet_thesis.Wallet.Registration.{
  university, enterprise, Wizard, first_wizard, initial_state, wizard, mount, go, normalized,
  pin_step, gating_step, set_identity,
}
use did_wallet_thesis.Wallet.Registration.Events.{
  handle, in_wizard, restored_answered, step_number, RegistrationStatus, restored_over, check_ended,
  accredited, request_started,
}
use did_wallet_thesis.Wallet.Registration.Finish.{
  CreatedIdentity, App, ensure_identity_created, create_identity,
}
use did_wallet_thesis.Wallet.Registration.Gate.{
  replied, AccreditationService, set_wizard, ensure, handle_check_university_accreditation,
  check_address, handle_submit_enterprise_request, restore_request,
}
use did_wallet_thesis.Wallet.Registration.Laws.{handle_check_university_accreditation_lem}
use did_wallet_thesis.Wallet.Registration.Resume.{restore_request-handle_submit_enterprise_request}
use did_wallet_thesis.Wallet.Registration.Tests.{
  countries, no_address, storage, cipher, json, device, join, agent, curve, app_of, count_request,
  identity, inputs,
}

abbrev approved : RegistrationStatus
approved = record { status = "Approved"; accreditation_id = some "0x02"; rejection_reason = none }

-- The form of an enterprise that has just been opened, empty.
abbrev opened : Wizard
opened = record first_wizard { stage = wizard; account_type = enterprise }

-- An approved request that is taken up when the wizard opens leads to the PIN with an empty form.
restored_empty :
    let w' = handle countries no_address (restored_over approved) opened in
    (w'.step ≡ pin_step)
    × (w'.state ≡ initial_state)
    × (w'.did ≡ "")
    × (w'.accreditation_id ≡ "0x02")
unfolding handle in_wizard restored_answered accredited go
restored_empty = (refl, refl, refl, refl)

abbrev record_of : AccreditationRecord
record_of = record {
  id = "0x01";
  issuer = "0x10";
  subject = "0xab";
  parent_accreditation_id = "0x00";
  scope = 3;
  permissions_hash = "0x";
  issued_at = 1;
  expires_at = 0;
  revoked = false;
  exists = true;
}

abbrev contract : RegistryContract String
contract = record {
  get_accreditations_by_subject = λ subject. ok ("0x01" ∷ []);
  get_accreditation = λ id. ok record_of;
  validate_trust_chain = λ id. ok true;
}

abbrev typed_key : Wizard
typed_key = record first_wizard {
  stage = wizard;
  account_type = university;
  step = gating_step;
  university_private_key = "0x11";
  derived_address = some "0xCD";
}

abbrev wallet_of : String → Result String String
wallet_of key = ok "0xCD"

checked :
    step_number
      (handle_check_university_accreditation storage cipher json agent curve contract wallet_of
        inputs 5
        (app_of typed_key)).wizard.step
    ≡ 3
unfolding handle_check_university_accreditation check_address request_started create_wallet
    get_secret_key get_or_create_identity initialize found_or_created derive_ethereum_address
    last_part take_chars find_active_institution_accreditation find_for find_in is_active to_lower
    set_identity check_ended accredited go
checked = refl

handle_check_university_accreditation_lem_example :
    let app' =
      handle_check_university_accreditation storage cipher json agent curve contract wallet_of
        inputs 5
        (app_of typed_key) in
    (address : String) × (wallet_of (normalized (trim "0x11")) ≡ ok address)
    × (find_active_institution_accreditation contract 5 address
        ≡ ok (some app'.wizard.accreditation_id))
    × (app'.wizard.wallet_address ≡ address)
    × (app'.device ≡ (create_wallet storage cipher json "k1" "k2" device).1)
handle_check_university_accreditation_lem_example =
    handle_check_university_accreditation_lem storage cipher json agent curve contract wallet_of
      inputs 5 (app_of typed_key) (λ h. absurd (omega (arith, h))) checked

abbrev service : AccreditationService
service = record {
  submit = λ request. ok (replied "r1");
  status = λ id. ok (replied (record approved { status = "Pending" }));
}

abbrev asked : Result String CreatedIdentity × App storage agent ℕ
asked =
    ensure storage cipher json agent curve true join count_request service contract opened inputs
      (set_wizard storage cipher json agent curve request_started (app_of opened))

asked_identity : asked ≡ (ok identity, asked.1)
unfolding ensure_identity_created create_identity create_wallet get_secret_key
    get_or_create_identity initialize found_or_created derive_ethereum_address last_part take_chars
    request_started
asked_identity = refl

restore_request-handle_submit_enterprise_request_example :
    let submitted =
      handle_submit_enterprise_request storage cipher json agent curve true join count_request
        service contract inputs
        (app_of opened) in
    (restore_request storage cipher json agent curve true join count_request service contract
      (record submitted {
        wizard = mount enterprise submitted.wizard;
      })).wizard.enterprise_request_id
    ≡ some "r1"
restore_request-handle_submit_enterprise_request_example =
    restore_request-handle_submit_enterprise_request storage cipher json agent curve true join
      count_request service contract inputs (app_of opened) asked.1 identity "r1" asked_identity
      refl refl
