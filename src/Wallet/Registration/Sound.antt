-- ===== src/Wallet/Registration/Sound.antt =====
-- screens/RegistrationWizardScreen.tsx: what holds in every state that the wizard reaches.
use Prim.Native.String
use Prim.Native.String.{[], ◌∷◌, count}
use text.Mathlib.TextLemmas.{cons-append, nil-append, length-append, length-cons}
use did_wallet_thesis.Common.{
  ◌≤◌, String, true, false, Option, none, some, List, ◌==◌, eqb, eqb_iff, ltb, includes, ◌≡◌, refl,
  arith, eq_iff, Bool-cases, inl, inr, sym,
}
use did_wallet_thesis.Common.Trim.{drop_last}
use did_wallet_thesis.Common.Decimal.{is_digit}
use did_wallet_thesis.Wallet.Keypad.{
  Key, key_0, key_1, key_2, key_3, key_4, key_5, key_6, key_7, key_8, key_9, erase, key_text,
  press_key, append_key,
}
use did_wallet_thesis.Wallet.Pin.{all_digits}
use did_wallet_thesis.Wallet.Registration.{
  AccountType, Step, pin_step, pin_confirm_step, Wizard, EuCountry, is_personal, filled, go,
  regions_offered,
}
use did_wallet_thesis.Wallet.Registration.Events.{
  step_number, at_step, on_pin_change, on_pin_confirm_change, call, press,
}

-- A text of at most six digits.
pub record IsPin (s : String) : Type 0 where
  pub short : count s ≤ 6
  pub digits : all_digits s ≡ true

pub record IsSoundAt (countries : List EuCountry) (step : Step) (type : AccountType)
    (id pin confirm country county : String) : Type 0 where
  pub pin_typed : IsPin pin
  pub confirm_typed : IsPin confirm
  pub complete : ltb 3 (step_number step) ≡ true → count pin ≡ 6
  pub confirmed : step_number step ≡ 5 → pin ≡ confirm
  pub gated : step_number step ≡ 2 → is_personal type ≡ false
  pub has_accreditation :
      ltb 2 (step_number step) ≡ true → is_personal type ≡ false → filled id ≡ true
  pub county_offered :
      filled county ≡ true → includes (regions_offered countries country) county ≡ true

-- A PIN has at most six digits, it is complete when it is confirmed, and the two are the same at the
-- consents; only an organisation is asked for its accreditation, and it is at the PIN with one only.
abbrev pub IsSound : List EuCountry → Wizard → Type 0
IsSound countries w =
    IsSoundAt countries w.step w.account_type w.accreditation_id w.state.pin w.pin_confirm
      w.state.country w.state.county

drop_last_short : (s : String) → count (drop_last s) ≤ count s
unfolding drop_last
drop_last_short [] = omega arith
drop_last_short (c ∷ s) = elim (Bool-cases (s == "")) [
  | inl last ↦ rw (drop_last, last) (omega arith)
  | inr more ↦
      rw (drop_last, more)
        (omega (arith, drop_last_short s, length-cons c s, length-cons c (drop_last s)))
]

drop_last_digits : (s : String) → all_digits s ≡ true → all_digits (drop_last s) ≡ true
unfolding drop_last all_digits
drop_last_digits [] h = refl
drop_last_digits (c ∷ s) h = elim (Bool-cases (s == "")) [
  | inl last ↦ rw (drop_last, last) refl
  | inr more ↦ rw (drop_last, more) (ground (arith, drop_last_digits s))
]

append_digits :
    (s t : String) → all_digits s ≡ true → all_digits t ≡ true → all_digits (String.◌++◌ s t) ≡ true
unfolding all_digits
append_digits [] t h k = rw (nil-append t) k
append_digits (c ∷ s) t h k = rw (cons-append c s t) (ground (arith, append_digits s t))

IsTyped : Option String → Type 0
IsTyped none = Unit
IsTyped (some v) = IsPin v

append_key-IsTyped :
    (key : Key) (s : String)
    → IsPin s
    → all_digits (key_text key) ≡ true
    → count (key_text key) ≡ 1
    → IsTyped (append_key key s)
unfolding IsTyped
append_key-IsTyped key s p d one = elim (Bool-cases (ltb (count s) 6)) [
  | inl short ↦ rw short (record {
    short = ground (arith, length-append s (key_text key), one);
    digits = append_digits s (key_text key) p.digits d;
  })
  | inr long ↦ rw long tt
]

press_key-IsTyped : (key : Key) (s : String) → IsPin s → IsTyped (press_key key s)
unfolding press_key
press_key-IsTyped erase s p =
    unfold IsTyped in
    record {
      short = omega (arith, p.short, drop_last_short s);
      digits = drop_last_digits s p.digits;
    }
press_key-IsTyped key_0 s p = append_key-IsTyped key_0 s p (unfold all_digits is_digit in refl) refl
press_key-IsTyped key_1 s p = append_key-IsTyped key_1 s p (unfold all_digits is_digit in refl) refl
press_key-IsTyped key_2 s p = append_key-IsTyped key_2 s p (unfold all_digits is_digit in refl) refl
press_key-IsTyped key_3 s p = append_key-IsTyped key_3 s p (unfold all_digits is_digit in refl) refl
press_key-IsTyped key_4 s p = append_key-IsTyped key_4 s p (unfold all_digits is_digit in refl) refl
press_key-IsTyped key_5 s p = append_key-IsTyped key_5 s p (unfold all_digits is_digit in refl) refl
press_key-IsTyped key_6 s p = append_key-IsTyped key_6 s p (unfold all_digits is_digit in refl) refl
press_key-IsTyped key_7 s p = append_key-IsTyped key_7 s p (unfold all_digits is_digit in refl) refl
press_key-IsTyped key_8 s p = append_key-IsTyped key_8 s p (unfold all_digits is_digit in refl) refl
press_key-IsTyped key_9 s p = append_key-IsTyped key_9 s p (unfold all_digits is_digit in refl) refl

module _ (countries : List EuCountry) where
  on_pin_change-IsSound :
      (v : String) (w : Wizard)
      → step_number w.step ≡ 3
      → IsPin v
      → IsSound countries w
      → IsSound countries (on_pin_change v w)
  unfolding on_pin_change go
  on_pin_change-IsSound v w here typed p = elim (Bool-cases (eqb (count v) 6)) [
    | inl six ↦ rw six (record {
      pin_typed = typed;
      confirm_typed = p.confirm_typed;
      complete = λ _. ground arith;
      confirmed = ground arith;
      gated = ground arith;
      has_accreditation = λ _. p.has_accreditation (ground arith);
      county_offered = p.county_offered;
    })
    | inr fewer ↦ rw fewer (record {
      pin_typed = typed;
      confirm_typed = p.confirm_typed;
      complete = ground arith;
      confirmed = ground arith;
      gated = p.gated;
      has_accreditation = p.has_accreditation;
      county_offered = p.county_offered;
    })
  ]

  pub empty-IsPin : IsPin ""
  empty-IsPin = unfold all_digits in record { short = ground arith; digits = refl }

  on_pin_confirm_change-IsSound :
      (v : String) (w : Wizard)
      → step_number w.step ≡ 4
      → IsPin v
      → IsSound countries w
      → IsSound countries (on_pin_confirm_change v w)
  unfolding on_pin_confirm_change go
  on_pin_confirm_change-IsSound v w here typed p = elim (Bool-cases (eqb (count v) 6)) [
    | inr fewer ↦ rw fewer (record {
      pin_typed = p.pin_typed;
      confirm_typed = typed;
      complete = p.complete;
      confirmed = ground arith;
      gated = p.gated;
      has_accreditation = p.has_accreditation;
      county_offered = p.county_offered;
    })
    | inl six ↦ elim (Bool-cases (v == w.state.pin)) [
      | inl same ↦
          rw (six, same)
            (record {
              pin_typed = p.pin_typed;
              confirm_typed = typed;
              complete = λ _. p.complete (ground arith);
              confirmed = λ _. sym ((eq_iff v w.state.pin).0 same);
              gated = ground arith;
              has_accreditation = λ _. p.has_accreditation (ground arith);
              county_offered = p.county_offered;
            })
      | inr other ↦
          rw (six, other)
            (record {
              pin_typed = empty-IsPin;
              confirm_typed = empty-IsPin;
              complete = ground arith;
              confirmed = ground arith;
              gated = ground arith;
              has_accreditation = λ _. p.has_accreditation (ground arith);
              county_offered = p.county_offered;
            })
    ]
  ]

  call_pin-IsSound :
      (v : Option String) (w : Wizard)
      → step_number w.step ≡ 3
      → IsTyped v
      → IsSound countries w
      → IsSound countries (call on_pin_change v w)
  unfolding IsTyped
  call_pin-IsSound none w here typed p = p
  call_pin-IsSound (some v) w here typed p = on_pin_change-IsSound v w here typed p

  call_confirm-IsSound :
      (v : Option String) (w : Wizard)
      → step_number w.step ≡ 4
      → IsTyped v
      → IsSound countries w
      → IsSound countries (call on_pin_confirm_change v w)
  unfolding IsTyped
  call_confirm-IsSound none w here typed p = p
  call_confirm-IsSound (some v) w here typed p = on_pin_confirm_change-IsSound v w here typed p

  pub press-IsSound :
      (key : Key) (w : Wizard) → IsSound countries w → IsSound countries (press key w)
  unfolding press
  press-IsSound key w p = elim (Bool-cases (at_step pin_step w)) [
    | inl here ↦ rw here (
        call_pin-IsSound (press_key key w.state.pin) w ((eqb_iff (step_number w.step) 3).0 here)
          (press_key-IsTyped key w.state.pin p.pin_typed) p)
    | inr elsewhere ↦ elim (Bool-cases (at_step pin_confirm_step w)) [
      | inl here ↦
          rw (elsewhere, here)
            (call_confirm-IsSound (press_key key w.pin_confirm) w
              ((eqb_iff (step_number w.step) 4).0 here)
              (press_key-IsTyped key w.pin_confirm p.confirm_typed) p)
      | inr elsewhere' ↦ rw (elsewhere, elsewhere') p
    ]
  ]
