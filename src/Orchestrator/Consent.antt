-- ===== src/Orchestrator/Consent.antt =====
-- A mobile number is used only with the traveller's consent.
use mathlib.Core.Path.{subst}
use flight_multi_agent.Base.{
  ℕ, ◌≡◌, ◌⊎◌, inl, inr, refl, String, Bool, true, false, not, ◌&&◌, Option, none, some, arith, sym,
  ap, ◌∙◌, Bool-cases,
}
use flight_multi_agent.Base.Text.{truthy}
use flight_multi_agent.Base.Result.{ok}
use flight_multi_agent.Trips.{Calendar, SmsNotificationPreference, second_text}
use flight_multi_agent.Orchestrator.Upload.{
  is_e164, cleaned_phone, is_given, check_format, validate_sms_notification_input, preference_of,
}

kept_format :
    (cleaned validated : Option String) → check_format cleaned ≡ ok validated → validated ≡ cleaned
unfolding check_format
kept_format none validated checked = ground arith
kept_format (some phone) validated checked =
    elim (Bool-cases (truthy phone && not (is_e164 phone))) [
      | inl wrong ↦ absurd (ground arith)
      | inr right ↦ ground arith
    ]

given_format :
    (calendar : Calendar) (now : ℕ) (cleaned : Option String)
    → check_format cleaned ≡ ok cleaned
    → is_given cleaned ≡ true
    → (preference : SmsNotificationPreference) × (preference_of calendar now cleaned
        ≡ some preference)
      × (is_e164 preference.phone_e164 ≡ true)
unfolding check_format preference_of
given_format calendar now none checked given = absurd (ground arith)
given_format calendar now (some phone) checked given =
    let kept : SmsNotificationPreference = record {
      phone_e164 = phone;
      consent_granted_at = second_text calendar now;
    } in
    elim (Bool-cases (is_e164 phone)) [
      | inr wrong ↦ absurd (ground arith)
      | inl right ↦ (kept, ground arith, right)
    ]

missing_format :
    (calendar : Calendar) (now : ℕ) (cleaned : Option String)
    → is_given cleaned ≡ false
    → preference_of calendar now cleaned ≡ none
unfolding preference_of
missing_format calendar now none missing = refl
missing_format calendar now (some phone) missing = ground arith

-- The contact that is kept of an upload that is accepted: with consent, it has a number of the
-- international format, and without consent, there is none.
pub preference_of-IsConsented :
    (strip : String → String) (calendar : Calendar) (now : ℕ) (phone : Option String)
    (consent : Bool) (validated : Option String)
    → validate_sms_notification_input strip phone consent ≡ ok validated
    → ((consent ≡ true)
        × ((preference : SmsNotificationPreference) × (preference_of calendar now validated
              ≡ some preference)
            × (is_e164 preference.phone_e164 ≡ true)))
      ⊎ ((consent ≡ false) × (preference_of calendar now validated ≡ none))
unfolding validate_sms_notification_input
preference_of-IsConsented strip calendar now phone consent validated accepted =
    let cleaned = cleaned_phone strip phone in
    elim (Bool-cases (is_given cleaned)) [
      | inl given ↦ elim (Bool-cases consent) [
        | inr unasked ↦ absurd (ground arith)
        | inl agreed ↦
            let checked : check_format cleaned ≡ ok validated = ground arith in
            let same = kept_format cleaned validated checked in
            inl (
              agreed,
              subst
                  (λ v.
                    (preference : SmsNotificationPreference) × (preference_of calendar now v
                      ≡ some preference)
                    × (is_e164 preference.phone_e164 ≡ true))
                  (sym same) (given_format calendar now cleaned (checked ∙ ap ok same) given),
            )
      ]
      | inr missing ↦ elim (Bool-cases consent) [
        | inl agreed ↦ absurd (ground arith)
        | inr unasked ↦
            let checked : check_format cleaned ≡ ok validated = ground arith in
            let same = kept_format cleaned validated checked in
            inr (
              unasked,
              ap (preference_of calendar now) same ∙ missing_format calendar now cleaned missing,
            )
      ]
    ]
