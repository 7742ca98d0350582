-- ===== src/Wallet/Registration/Steps.antt =====
-- screens/RegistrationWizardScreen.tsx: what the steps and their buttons keep of the invariant.
use did_wallet_thesis.Common.{
  String, true, false, not, ◌&&◌, List, ltb, ◌≡◌, refl, arith, Bool-cases, inl, inr, ◌∙◌, sym,
}
use did_wallet_thesis.Common.Trim.{trim}
use did_wallet_thesis.Wallet.Registration.Email.{is_email}
use did_wallet_thesis.Wallet.Registration.{
  AccountType, personal, university, enterprise, Step, identity_step, address_step, gating_step,
  pin_step, pin_confirm_step, consents_step, Wizard, EuCountry, is_personal, filled, mount, go,
  continue_identity, continue_address, select_country, can_advance_identity, can_advance_address,
  first_wizard,
}
use did_wallet_thesis.Wallet.Registration.Events.{
  step_number, edit_text, toggle, TextField, Consent, steps, index_of, step_at, go_before,
  current_index, step_back, terms, gdpr, privacy, first_name_field, last_name_field,
  birth_date_field, legal_name_field, fiscal_code_field, email_field, city_field, address_field,
}
use did_wallet_thesis.Wallet.Registration.Sound.{IsSoundAt, IsSound, empty-IsPin}
use did_wallet_thesis.Wallet.Registration.Requests.{go-IsSound}

module _ (countries : List EuCountry) where
  pub first_wizard-IsSound : IsSound countries first_wizard
  first_wizard-IsSound = record {
    pin_typed = empty-IsPin countries;
    confirm_typed = empty-IsPin countries;
    complete = ground arith;
    confirmed = ground arith;
    gated = ground arith;
    has_accreditation = ground arith;
    county_offered = ground arith;
  }

  pub mount-IsSound :
      (type : AccountType) (w : Wizard) → IsSound countries w → IsSound countries (mount type w)
  unfolding mount
  mount-IsSound type w p = record {
    pin_typed = p.pin_typed;
    confirm_typed = empty-IsPin countries;
    complete = ground arith;
    confirmed = ground arith;
    gated = ground arith;
    has_accreditation = ground arith;
    county_offered = p.county_offered;
  }

  pub continue_identity-IsSound :
      (w : Wizard) → IsSound countries w → IsSound countries (continue_identity w)
  unfolding continue_identity
  continue_identity-IsSound w p = elim (Bool-cases (can_advance_identity w.account_type w.state)) [
    | inr disabled ↦ rw disabled p
    | inl enabled ↦
        elim (Bool-cases (filled (trim w.state.email) && not (is_email (trim w.state.email)))) [
          | inl refused ↦ rw (enabled, refused) p
          | inr accepted ↦
              rw (enabled, accepted)
                (go-IsSound countries address_step w refl (ground arith) (ground arith)
                  (ground arith) p)
        ]
  ]

  pub continue_address-IsSound :
      (w : Wizard) → IsSound countries w → IsSound countries (continue_address w)
  unfolding continue_address
  continue_address-IsSound w p = elim (Bool-cases (can_advance_address w.state)) [
    | inr disabled ↦ rw disabled p
    | inl enabled ↦ elim (Bool-cases (is_personal w.account_type)) [
      | inl person ↦
          rw (enabled, person)
            (go-IsSound countries pin_step w refl (ground arith) (ground arith) (ground arith) p)
      | inr organisation ↦
          rw (enabled, organisation)
            (go-IsSound countries gating_step w refl (ground arith) (λ _. organisation)
              (ground arith) p)
    ]
  ]

  pub select_country-IsSound :
      (v : String) (w : Wizard) → IsSound countries w → IsSound countries (select_country v w)
  unfolding select_country
  select_country-IsSound v w p = record {
    pin_typed = p.pin_typed;
    confirm_typed = p.confirm_typed;
    complete = p.complete;
    confirmed = p.confirmed;
    gated = p.gated;
    has_accreditation = p.has_accreditation;
    county_offered = ground arith;
  }

  pub edit_text-IsSound :
      (field : TextField) (v : String) (w : Wizard)
      → IsSound countries w
      → IsSound countries (record w { state = edit_text field v w.state })
  unfolding edit_text
  edit_text-IsSound first_name_field v w p = p
  edit_text-IsSound last_name_field v w p = p
  edit_text-IsSound birth_date_field v w p = p
  edit_text-IsSound legal_name_field v w p = p
  edit_text-IsSound fiscal_code_field v w p = p
  edit_text-IsSound email_field v w p = p
  edit_text-IsSound city_field v w p = p
  edit_text-IsSound address_field v w p = p

  pub toggle-IsSound :
      (consent : Consent) (w : Wizard)
      → IsSound countries w
      → IsSound countries (record w { state = toggle consent w.state })
  unfolding toggle
  toggle-IsSound terms w p = p
  toggle-IsSound gdpr w p = p
  toggle-IsSound privacy w p = p

  to_first :
      (s : Step) (w : Wizard)
      → ltb (step_number s) 2 ≡ true
      → IsSound countries w
      → IsSound countries (go s w)
  to_first s w first p =
      go-IsSound countries s w (ground arith) (ground arith) (ground arith) (ground arith) p

  to_gating :
      (w : Wizard)
      → is_personal w.account_type ≡ false
      → IsSound countries w
      → IsSound countries (go gating_step w)
  to_gating w organisation p =
      go-IsSound countries gating_step w refl (ground arith) (λ _. organisation) (ground arith) p

  -- The step before a sound one is sound.
  go_before-IsSound :
      (s : Step) (type : AccountType) (w : Wizard)
      → IsSoundAt countries s type w.accreditation_id w.state.pin w.pin_confirm w.state.country
          w.state.county
      → is_personal w.account_type ≡ is_personal type
      → IsSound countries w
      → IsSound countries (go_before type (current_index s type) w)
  unfolding go_before current_index index_of steps step_at
  go_before-IsSound identity_step personal w q same p = p
  go_before-IsSound identity_step university w q same p = p
  go_before-IsSound identity_step enterprise w q same p = p
  go_before-IsSound address_step personal w q same p = to_first identity_step w refl p
  go_before-IsSound address_step university w q same p = to_first identity_step w refl p
  go_before-IsSound address_step enterprise w q same p = to_first identity_step w refl p
  go_before-IsSound gating_step personal w q same p = p
  go_before-IsSound gating_step university w q same p = to_first address_step w refl p
  go_before-IsSound gating_step enterprise w q same p = to_first address_step w refl p
  go_before-IsSound pin_step personal w q same p = to_first address_step w refl p
  go_before-IsSound pin_step university w q same p = to_gating w same p
  go_before-IsSound pin_step enterprise w q same p = to_gating w same p
  go_before-IsSound pin_confirm_step personal w q same p =
      go-IsSound countries pin_step w refl (ground arith) (ground arith)
        (λ _ o. q.has_accreditation refl (sym same ∙ o)) p
  go_before-IsSound pin_confirm_step university w q same p =
      go-IsSound countries pin_step w refl (ground arith) (ground arith)
        (λ _ o. q.has_accreditation refl (sym same ∙ o)) p
  go_before-IsSound pin_confirm_step enterprise w q same p =
      go-IsSound countries pin_step w refl (ground arith) (ground arith)
        (λ _ o. q.has_accreditation refl (sym same ∙ o)) p
  go_before-IsSound consents_step personal w q same p =
      go-IsSound countries pin_confirm_step w refl (λ _. q.complete refl) (ground arith)
        (λ _ o. q.has_accreditation refl (sym same ∙ o)) p
  go_before-IsSound consents_step university w q same p =
      go-IsSound countries pin_confirm_step w refl (λ _. q.complete refl) (ground arith)
        (λ _ o. q.has_accreditation refl (sym same ∙ o)) p
  go_before-IsSound consents_step enterprise w q same p =
      go-IsSound countries pin_confirm_step w refl (λ _. q.complete refl) (ground arith)
        (λ _ o. q.has_accreditation refl (sym same ∙ o)) p

  pub step_back-IsSound : (w : Wizard) → IsSound countries w → IsSound countries (step_back w)
  unfolding step_back
  step_back-IsSound w p = go_before-IsSound w.step w.account_type w p refl p
