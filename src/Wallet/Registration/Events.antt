-- ===== src/Wallet/Registration/Events.antt =====
-- screens/RegistrationWizardScreen.tsx: the events of the wizard. What the buttons and the keypad do is
-- guarded by the step that shows them.
mod Answers
pub use Answers.{RegistrationStatus, approved_id}
unfoldable pub use Answers.{
  request_started, accredited, check_ended, submit_ended, poll_started, poll_answered, poll_ended,
  restored_answered, finish_ended,
}
use Prim.Native.String
use Prim.Native.String.{count}
use did_wallet_thesis.Common.{
  ℕ, zero, suc, String, Bool, true, false, not, ◌&&◌, Option, none, some, List, [], ◌∷◌, ◌==◌, eqb,
  if◌then◌else◌, get_or, includes, truthy, map, Result, ok, throw,
}
use did_wallet_thesis.Wallet.Pin.{plus_one}
use did_wallet_thesis.Wallet.Keypad.{Key, press_key}
use did_wallet_thesis.Wallet.Registration.{
  AccountType, personal, Step, identity_step, address_step, gating_step, pin_step, pin_confirm_step,
  consents_step, Stage, splash, chooser, wizard, RegistrationState, Wizard, EuCountry, is_personal,
  is_enterprise, mount, first_wizard, go, set_identity, continue_identity, continue_address,
  regions_offered, select_country, on_university_key_change,
}

pub data TextField : Type 0 where
  first_name_field last_name_field birth_date_field legal_name_field fiscal_code_field email_field
        city_field address_field :
      TextField

pub data Consent : Type 0 where
  terms gdpr privacy : Consent

abbrev pub step_number : Step → ℕ
step_number identity_step = 0
step_number address_step = 1
step_number gating_step = 2
step_number pin_step = 3
step_number pin_confirm_step = 4
step_number consents_step = 5

abbrev pub at_step : Step → Wizard → Bool
at_step s w = eqb (step_number w.step) (step_number s)

unfoldable pub edit_text : TextField → String → RegistrationState → RegistrationState
edit_text first_name_field v st = record st { first_name = v }
edit_text last_name_field v st = record st { last_name = v }
edit_text birth_date_field v st = record st { birth_date = v }
edit_text legal_name_field v st = record st { legal_name = v }
edit_text fiscal_code_field v st = record st { fiscal_code = v }
edit_text email_field v st = record st { email = v }
edit_text city_field v st = record st { city = v }
edit_text address_field v st = record st { address = v }

-- The fields that a step shows.
unfoldable pub is_shown : AccountType → Step → TextField → Bool
is_shown type identity_step first_name_field = is_personal type
is_shown type identity_step last_name_field = is_personal type
is_shown type identity_step birth_date_field = is_personal type
is_shown type identity_step legal_name_field = not (is_personal type)
is_shown type identity_step fiscal_code_field = is_enterprise type
is_shown type identity_step email_field = true
is_shown type address_step city_field = true
is_shown type address_step address_field = true
is_shown type step field = false

-- Steps: pin and pin-confirm.
unfoldable pub on_pin_change : String → Wizard → Wizard
unfolding go
on_pin_change v w =
    let w1 = record w { state = record w.state { pin = v } } in
    if eqb (count v) 6 then go pin_confirm_step w1 else w1

unfoldable pub on_pin_confirm_change : String → Wizard → Wizard
unfolding go
on_pin_confirm_change v w =
    if not (eqb (count v) 6)
    then record w { pin_confirm = v }
    else if not (v == w.state.pin)
    then go pin_step (record w { pin_confirm = ""; state = record w.state { pin = "" } })
    else go consents_step (record w { pin_confirm = v })

abbrev pub call : (String → Wizard → Wizard) → Option String → Wizard → Wizard
call on_change none w = w
call on_change (some v) w = on_change v w

unfoldable pub press : Key → Wizard → Wizard
unfolding press_key on_pin_change on_pin_confirm_change
press key w =
    if at_step pin_step w
    then call on_pin_change (press_key key w.state.pin) w
    else if at_step pin_confirm_step w
    then call on_pin_confirm_change (press_key key w.pin_confirm) w
    else w

-- Step: consents.
unfoldable pub toggle : Consent → RegistrationState → RegistrationState
toggle terms st = record st { consent_terms = not st.consent_terms }
toggle gdpr st = record st { consent_gdpr = not st.consent_gdpr }
toggle privacy st = record st { consent_privacy = not st.consent_privacy }

abbrev pub all_checked : RegistrationState → Bool
all_checked st = st.consent_terms && (st.consent_gdpr && st.consent_privacy)

-- The steps of a type and the step before another; `STEPS[-1]` is left.
unfoldable pub steps : AccountType → List Step
steps personal = identity_step ∷ address_step ∷ pin_step ∷ pin_confirm_step ∷ consents_step ∷ []
steps type =
    identity_step ∷ address_step ∷ gating_step ∷ pin_step ∷ pin_confirm_step ∷ consents_step ∷ []

-- `STEPS.indexOf(step)`, where `none` is -1.
unfoldable pub index_of : Step → List Step → Option ℕ
index_of step [] = none
index_of step (s ∷ ss) =
    let rest = index_of step ss in
    if eqb (step_number s) (step_number step) then some 0 else plus_one rest

unfoldable pub step_at : List Step → ℕ → Option Step
step_at [] i = none
step_at (s ∷ ss) zero = some s
step_at (s ∷ ss) (suc i) = step_at ss i

-- A step that is not among the steps of the type, which never happens (see Sound), has no step before it.
unfoldable pub go_before : AccountType → Option ℕ → Wizard → Wizard
unfolding step_at steps go
go_before type none w = record w { error = none }
go_before type (some zero) w = record w { stage = chooser }
go_before type (some (suc i)) w = elim (step_at (steps type) i) [
  | none ↦ record w { error = none }
  | some s ↦ go s w
]

unfoldable pub current_index : Step → AccountType → Option ℕ
unfolding index_of steps
current_index step type = index_of step (steps type)

unfoldable pub step_back : Wizard → Wizard
unfolding go_before current_index
step_back w = go_before w.account_type (current_index w.step w.account_type) w

pub data Event : Type 0 where
  get_started back_to_splash step_back_pressed : Event
  choose : AccountType → Event
  edit : TextField → String → Event
  continue_identity_pressed continue_address_pressed : Event
  country_selected county_selected : String → Event
  key_changed : String → Event
  pressed : Key → Event
  toggled : Consent → Event
  identity_set : String → String → Event
  started poll_begun : Event
  check_over : Result String (Option String) → Event
  submit_over : Result String String → Event
  poll_over : Result String RegistrationStatus → Option String → Event
  request_restored : String → Event
  restored_over : RegistrationStatus → Event
  finish_over : Result String (Unit {0}) → Event

abbrev pub is_wizard : Stage → Bool
is_wizard wizard = true
is_wizard _ = false

-- `when shown f w` is `f w` where the step shows the control.
abbrev pub when : Bool → (Wizard → Wizard) → Wizard → Wizard
when true f w = f w
when false f w = w

-- screens/AccountTypeChooserScreen.tsx: the choice is kept in the context.
unfoldable pub choose_type : AccountType → Wizard → Wizard
unfolding mount
choose_type type w = mount type (record w { state = record w.state { account_type = some type } })

abbrev pub is_get_started : Event → Bool
is_get_started get_started = true
is_get_started _ = false

abbrev pub is_back : Event → Bool
is_back back_to_splash = true
is_back _ = false

abbrev pub chosen : Event → Option AccountType
chosen (choose type) = some type
chosen _ = none

unfoldable pub on_chooser : Option AccountType → Bool → Wizard → Wizard
unfolding choose_type
on_chooser none back w = when back (λ (w : Wizard). record w { stage = splash }) w
on_chooser (some type) back w = choose_type type w

unfoldable pub on_stage : Stage → Event → Wizard → Wizard
unfolding on_chooser
on_stage splash event w =
    when (is_get_started event) (λ (w : Wizard). record w { stage = chooser }) w
on_stage chooser event w = on_chooser (chosen event) (is_back event) w
on_stage wizard event w = w

module _ (countries : List EuCountry) (compute_address : String → Option String) where
  unfoldable pub in_wizard : Event → Wizard → Wizard
  unfolding step_back edit_text is_shown continue_identity continue_address select_country
      regions_offered on_university_key_change press toggle set_identity request_started
      poll_started check_ended submit_ended poll_ended restored_answered finish_ended
  in_wizard step_back_pressed w = step_back w
  in_wizard (edit field v) w =
      when (is_shown w.account_type w.step field)
        (λ (w : Wizard). record w { state = edit_text field v w.state }) w
  in_wizard continue_identity_pressed w = when (at_step identity_step w) continue_identity w
  in_wizard continue_address_pressed w = when (at_step address_step w) continue_address w
  in_wizard (country_selected v) w =
      when (at_step address_step w && includes (map (λ (c : EuCountry). c.name) countries) v)
        (select_country v) w
  in_wizard (county_selected v) w =
      when (at_step address_step w && includes (regions_offered countries w.state.country) v)
        (λ (w : Wizard). record w { state = record w.state { county = v } }) w
  in_wizard (key_changed key) w =
      when (at_step gating_step w) (on_university_key_change compute_address key) w
  in_wizard (pressed key) w = press key w
  in_wizard (toggled consent) w =
      when (at_step consents_step w) (λ (w : Wizard). record w { state = toggle consent w.state }) w
  in_wizard (identity_set did wallet_address) w = set_identity did wallet_address w
  in_wizard started w = request_started w
  in_wizard poll_begun w = poll_started w
  in_wizard (check_over outcome) w = check_ended outcome w
  in_wizard (submit_over outcome) w = submit_ended outcome w
  in_wizard (poll_over outcome looked_up) w = poll_ended outcome looked_up w
  in_wizard (request_restored saved) w = record w { enterprise_request_id = some saved }
  in_wizard (restored_over reply) w = restored_answered reply w
  in_wizard (finish_over outcome) w = finish_ended outcome w
  in_wizard _ w = w

  unfoldable pub handle : Event → Wizard → Wizard
  unfolding in_wizard on_stage
  handle event w = if is_wizard w.stage then in_wizard event w else on_stage w.stage event w

  -- The states of the registration, from the first one on.
  pub data Reached : Wizard → Type 0 where
    initial : Reached first_wizard
    after : (event : Event) (w : Wizard) → Reached w → Reached (handle event w)
