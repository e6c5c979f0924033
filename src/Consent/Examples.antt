-- ===== src/Consent/Examples.antt =====
-- The tables of a tenant with one purpose, and the theorem on Record at these.
use collectr.Prelude.{◌≡◌, refl, true, false, some, [], ◌∷◌, ok, err, chars}
use collectr.Consent.Identity.{phone_digits}
use collectr.Consent.Tables.{ConsentDb, RecordInput, Evidence, purpose_not_found}
use collectr.Consent.Log.{current_of, record_consents, has_active}
use collectr.Consent.Projection.{latest, IsDerived, record_consents-IsDerived}

national_number : phone_digits (chars "0912 345 678") ≡ chars "912345678"
unfolding phone_digits
national_number = refl

international_number : phone_digits (chars "+84 912-345-678") ≡ chars "912345678"
unfolding phone_digits
international_number = refl

abbrev one_purpose : ConsentDb
one_purpose = record {
  subjects = [];
  purposes = record { id = 6; code = "service"; is_required = true } ∷ [];
  documents = [];
  records = [];
  current = [];
}

abbrev shown : Evidence
shown = record {
  rendered_hash = 4 ∷ [];
  method = "checkbox";
  ip_prefix = "";
  user_agent = "";
  locale = "vi";
  client_time = 99;
}

-- The purpose is granted and then refused in one call.
abbrev twice : RecordInput
twice = record {
  subject = 9;
  document = 2;
  submission = some 20;
  form_version = some 5;
  grants =
      record { purpose_code = "service"; granted = true }
      ∷ record { purpose_code = "service"; granted = false }
      ∷ [];
  evidence = shown;
}

abbrev after_twice : ConsentDb
after_twice = record one_purpose {
  records =
      record {
        id = 1;
        subject = 9;
        purpose = 6;
        submission = some 20;
        form_version = some 5;
        granted = false;
        document = 2;
        evidence = shown;
      }
      ∷ record {
        id = 0;
        subject = 9;
        purpose = 6;
        submission = some 20;
        form_version = some 5;
        granted = true;
        document = 2;
        evidence = shown;
      }
      ∷ [];
  current = record { subject = 9; purpose = 6; granted = false; last_record_id = 1 } ∷ [];
}

recorded_twice : record_consents (λ k. k) twice one_purpose ≡ ok after_twice
unfolding record_consents
recorded_twice = refl

not_active : has_active 9 "service" after_twice ≡ false
unfolding has_active
not_active = refl

unknown_purpose :
    record_consents (λ k. k) twice (record one_purpose { purposes = [] }) ≡ err purpose_not_found
unfolding record_consents
unknown_purpose = refl

one_purpose-IsDerived : IsDerived one_purpose
unfolding current_of latest
one_purpose-IsDerived s p = refl

record_consents-IsDerived_example : IsDerived after_twice
record_consents-IsDerived_example =
    record_consents-IsDerived (λ k. k) twice one_purpose after_twice one_purpose-IsDerived
      recorded_twice
