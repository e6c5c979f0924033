-- ===== src/Consent/Projection.antt =====
-- current_consents beside the log of records that it is derived from.
use collectr.Prelude.{
  ℕ, suc, ◌≡◌, refl, Bool, ◌&&◌, Option, none, some, List, [], ◌∷◌, eqb, if◌then◌else◌, ok, err,
  Returns, Returns-eq, arith, Option-cases, inl, inr,
}
use collectr.Consent.Tables.{
  ConsentGrant, RecordInput, ConsentRecord, CurrentConsent, ConsentDb, ConsentError,
}
use collectr.Consent.Log.{
  purpose_of_code, current_of, put_current, record_grant, record_grants, record_consents,
}

-- The newest record of a subject and a purpose.
unfoldable pub latest : List ConsentRecord → ℕ → ℕ → Option ConsentRecord
latest [] s p = none
latest (r ∷ rest) s p =
    let older = latest rest s p in if eqb r.subject s && eqb r.purpose p then some r else older

abbrev pub state_of_record : Option ConsentRecord → Option (Bool × ℕ)
state_of_record none = none
state_of_record (some r) = some (r.granted, r.id)

abbrev pub state_of_current : Option CurrentConsent → Option (Bool × ℕ)
state_of_current none = none
state_of_current (some c) = some (c.granted, c.last_record_id)

-- For each subject and purpose the derived row says what the newest record says.
abbrev pub IsDerived : ConsentDb → Type 0
IsDerived db =
    (s p : ℕ)
    → state_of_current (current_of db.current s p) ≡ state_of_record (latest db.records s p)

current_of-put_current :
    (c : CurrentConsent) (l : List CurrentConsent) (s p : ℕ)
    → current_of (put_current c l) s p
      ≡ (if eqb c.subject s && eqb c.purpose p then some c else current_of l s p)
unfolding current_of put_current
current_of-put_current c [] s p = refl
current_of-put_current c (d ∷ l) s p = ground (arith, current_of-put_current c l s p)

record_grant-IsDerived :
    (i : RecordInput) (id purpose : ℕ) (granted : Bool) (db : ConsentDb)
    → IsDerived db
    → IsDerived (record_grant i id purpose granted db)
unfolding record_grant latest
record_grant-IsDerived i id purpose granted db d s p = ground (
  arith,
  d s p,
  current_of-put_current
      (record { subject = i.subject; purpose = purpose; granted = granted; last_record_id = id })
      db.current s p,
)

record_grants-IsDerived :
    (new_id : ℕ → ℕ) (i : RecordInput) (k : ℕ) (gs : List ConsentGrant) (db : ConsentDb)
    → IsDerived db
    → Returns IsDerived (record_grants new_id i k gs db)
unfolding record_grants
record_grants-IsDerived new_id i k [] db d = d
record_grants-IsDerived new_id i k (g ∷ gs) db d =
    elim (purpose_of_code db.purposes g.purpose_code)
      as (λ o. Returns IsDerived (elim o [
        | none ↦ err ConsentError.purpose_not_found
        | some p ↦ record_grants new_id i (suc k) gs (record_grant i (new_id k) p.id g.granted db)
      ])) [
        | none ↦ tt
        | some p ↦
            record_grants-IsDerived new_id i (suc k) gs
              (record_grant i (new_id k) p.id g.granted db)
              (record_grant-IsDerived i (new_id k) p.id g.granted db d)
      ]

-- Record keeps current_consents what the log of records says: for each subject and purpose the
-- answer and the id of the newest record, or no row where there is no record.
pub record_consents-IsDerived :
    (new_id : ℕ → ℕ) (i : RecordInput) (db db' : ConsentDb)
    → IsDerived db
    → record_consents new_id i db ≡ ok db'
    → IsDerived db'
unfolding record_consents
record_consents-IsDerived new_id i db db' d q =
    Returns-eq IsDerived (record_grants new_id i 0 i.grants db)
      (record_grants-IsDerived new_id i 0 i.grants db d) q

-- Record writes no row of a subject.
abbrev pub SameSubjects : ConsentDb → ConsentDb → Type 0
SameSubjects db db' = db'.subjects ≡ db.subjects

record_grants-SameSubjects :
    (new_id : ℕ → ℕ) (i : RecordInput) (k : ℕ) (gs : List ConsentGrant) (db0 db : ConsentDb)
    → SameSubjects db0 db
    → Returns (SameSubjects db0) (record_grants new_id i k gs db)
unfolding record_grants record_grant
record_grants-SameSubjects new_id i k [] db0 db d = d
record_grants-SameSubjects new_id i k (g ∷ gs) db0 db d =
    elim (Option-cases (purpose_of_code db.purposes g.purpose_code)) [
      | inl q ↦ rw (q, record_grants) tt
      | inr (p, q) ↦
          rw (q, record_grants)
            (record_grants-SameSubjects new_id i (suc k) gs db0
              (record_grant i (new_id k) p.id g.granted db) d)
    ]

pub record_consents-SameSubjects :
    (new_id : ℕ → ℕ) (i : RecordInput) (db db' : ConsentDb)
    → record_consents new_id i db ≡ ok db'
    → SameSubjects db db'
unfolding record_consents
record_consents-SameSubjects new_id i db db' q =
    Returns-eq (SameSubjects db) (record_grants new_id i 0 i.grants db)
      (record_grants-SameSubjects new_id i 0 i.grants db db refl) q
