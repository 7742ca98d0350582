-- ===== src/Wallet/Registration/Reach.antt =====
-- screens/RegistrationWizardScreen.tsx: every state that the wizard reaches is sound.
use did_wallet_thesis.Common.{
  String, Bool, true, false, ◌&&◌, Option, none, some, List, map, includes, Result, ok, throw, ◌≡◌,
  refl, arith, Bool-cases, inl, inr,
}
use did_wallet_thesis.Wallet.Registration.{
  AccountType, identity_step, address_step, gating_step, consents_step, Stage, splash, chooser,
  wizard, Wizard, EuCountry, set_identity, continue_identity, continue_address, regions_offered,
  select_country, on_university_key_change,
}
use did_wallet_thesis.Wallet.Registration.Events.{
  is_get_started, is_back, chosen, at_step, edit_text, is_shown, toggle, request_started,
  submit_ended, poll_started, finish_ended, Event, is_wizard, when, choose_type, on_stage,
  on_chooser, in_wizard, handle, Reached, initial, after, get_started, back_to_splash,
  step_back_pressed, choose, edit, continue_identity_pressed, continue_address_pressed,
  country_selected, county_selected, key_changed, pressed, toggled, identity_set, started,
  poll_begun, check_over, submit_over, poll_over, request_restored, restored_over, finish_over,
}
use did_wallet_thesis.Wallet.Registration.Sound.{IsSound, press-IsSound}
use did_wallet_thesis.Wallet.Registration.Requests.{
  check_ended-IsSound, poll_ended-IsSound, restored_answered-IsSound,
}
use did_wallet_thesis.Wallet.Registration.Steps.{
  first_wizard-IsSound, mount-IsSound, continue_identity-IsSound, continue_address-IsSound,
  select_country-IsSound, edit_text-IsSound, toggle-IsSound, step_back-IsSound,
}

module _ (countries : List EuCountry) where
  when-IsSound :
      (shown : Bool) (f : Wizard → Wizard) (w : Wizard)
      → (shown ≡ true → IsSound countries (f w))
      → IsSound countries w
      → IsSound countries (when shown f w)
  when-IsSound true f w kept p = kept refl
  when-IsSound false f w kept p = p

  select_county-IsSound :
      (v : String) (w : Wizard)
      → includes (regions_offered countries w.state.country) v ≡ true
      → IsSound countries w
      → IsSound countries (record w { state = record w.state { county = v } })
  select_county-IsSound v w offered p = record {
    pin_typed = p.pin_typed;
    confirm_typed = p.confirm_typed;
    complete = p.complete;
    confirmed = p.confirmed;
    gated = p.gated;
    has_accreditation = p.has_accreditation;
    county_offered = λ _. offered;
  }

  submit_ended-IsSound :
      (outcome : Result String String) (w : Wizard)
      → IsSound countries w
      → IsSound countries (submit_ended outcome w)
  unfolding submit_ended
  submit_ended-IsSound (throw e) w p = p
  submit_ended-IsSound (ok id) w p = p

  finish_ended-IsSound :
      (outcome : Result String (Unit {0})) (w : Wizard)
      → IsSound countries w
      → IsSound countries (finish_ended outcome w)
  unfolding finish_ended
  finish_ended-IsSound (throw e) w p = p
  finish_ended-IsSound (ok done) w p = p

  module _ (compute_address : String → Option String) where
    in_wizard-IsSound :
        (event : Event) (w : Wizard)
        → IsSound countries w
        → IsSound countries (in_wizard countries compute_address event w)
    unfolding in_wizard
    in_wizard-IsSound get_started w p = p
    in_wizard-IsSound back_to_splash w p = p
    in_wizard-IsSound (choose type) w p = p
    in_wizard-IsSound step_back_pressed w p = step_back-IsSound countries w p
    in_wizard-IsSound (edit field v) w p =
        when-IsSound (is_shown w.account_type w.step field)
          (λ (w : Wizard). record w { state = edit_text field v w.state }) w
          (λ _. edit_text-IsSound countries field v w p) p
    in_wizard-IsSound continue_identity_pressed w p =
        when-IsSound (at_step identity_step w) continue_identity w
          (λ _. continue_identity-IsSound countries w p) p
    in_wizard-IsSound continue_address_pressed w p =
        when-IsSound (at_step address_step w) continue_address w
          (λ _. continue_address-IsSound countries w p) p
    in_wizard-IsSound (country_selected v) w p =
        when-IsSound
          (at_step address_step w && includes (map (λ (c : EuCountry). c.name) countries) v)
          (select_country v) w (λ _. select_country-IsSound countries v w p) p
    in_wizard-IsSound (county_selected v) w p =
        when-IsSound
          (at_step address_step w && includes (regions_offered countries w.state.country) v)
          (λ (w : Wizard). record w { state = record w.state { county = v } }) w
          (λ shown. select_county-IsSound v w (ground arith) p) p
    in_wizard-IsSound (key_changed key) w p =
        when-IsSound (at_step gating_step w) (on_university_key_change compute_address key) w
          (λ _. unfold on_university_key_change in p) p
    in_wizard-IsSound (pressed key) w p = press-IsSound countries key w p
    in_wizard-IsSound (toggled consent) w p =
        when-IsSound (at_step consents_step w)
          (λ (w : Wizard). record w { state = toggle consent w.state }) w
          (λ _. toggle-IsSound countries consent w p) p
    in_wizard-IsSound (identity_set did wallet_address) w p = unfold set_identity in p
    in_wizard-IsSound started w p = unfold request_started in p
    in_wizard-IsSound poll_begun w p = unfold poll_started in p
    in_wizard-IsSound (check_over outcome) w p = check_ended-IsSound countries outcome w p
    in_wizard-IsSound (submit_over outcome) w p = submit_ended-IsSound outcome w p
    in_wizard-IsSound (poll_over outcome looked_up) w p =
        poll_ended-IsSound countries outcome looked_up w p
    in_wizard-IsSound (request_restored saved) w p = p
    in_wizard-IsSound (restored_over reply) w p = restored_answered-IsSound countries reply w p
    in_wizard-IsSound (finish_over outcome) w p = finish_ended-IsSound outcome w p

    on_chooser-IsSound :
        (type : Option AccountType) (back : Bool) (w : Wizard)
        → IsSound countries w
        → IsSound countries (on_chooser type back w)
    unfolding on_chooser choose_type
    on_chooser-IsSound none back w p =
        when-IsSound back (λ (w : Wizard). record w { stage = splash }) w (λ _. p) p
    on_chooser-IsSound (some type) back w p =
        mount-IsSound countries type
          (record w { state = record w.state { account_type = some type } }) p

    on_stage-IsSound :
        (stage : Stage) (event : Event) (w : Wizard)
        → IsSound countries w
        → IsSound countries (on_stage stage event w)
    unfolding on_stage
    on_stage-IsSound splash event w p =
        when-IsSound (is_get_started event) (λ (w : Wizard). record w { stage = chooser }) w
          (λ _. p) p
    on_stage-IsSound chooser event w p = on_chooser-IsSound (chosen event) (is_back event) w p
    on_stage-IsSound wizard event w p = p

    handle-IsSound :
        (event : Event) (w : Wizard)
        → IsSound countries w
        → IsSound countries (handle countries compute_address event w)
    unfolding handle
    handle-IsSound event w p = elim (Bool-cases (is_wizard w.stage)) [
      | inl here ↦ rw here (in_wizard-IsSound event w p)
      | inr elsewhere ↦ rw elsewhere (on_stage-IsSound w.stage event w p)
    ]

    -- In every state that the registration reaches, whatever the events and however the ends of the
    -- requests fall between them: a PIN and its confirmation are at most six digits; the PIN has six from
    -- the confirmation on, and at the consents it is the one that was confirmed; only an organisation is
    -- asked for its accreditation, and behind that step it has the identifier of one; and a chosen county
    -- is one of the regions of the chosen country.
    pub Reached-IsSound : (w : Wizard) → Reached countries compute_address w → IsSound countries w
    Reached-IsSound _ initial = first_wizard-IsSound countries
    Reached-IsSound _ (after event w r) = handle-IsSound event w (Reached-IsSound w r)
