-- ===== src/Submit/Once.antt =====
-- What later submissions leave alone: idempotency keys and attached files, of submit.go and of Bind in
-- internal/modules/files/store/store.go.
use collectr.Prelude.{
  ℕ, ◌≡◌, refl, sym, subst, ap, ◌∙◌, String, true, false, not, some, List, [], ◌∷◌, ◌==◌, eqb,
  if◌then◌else◌, length, ok, >>=-eq-ok, ok_injective, require, require-eq-ok, arith, Bool-cases,
  inl, inr, eq_refl,
}
use mathlib.Core.Bool.{false≢true}
use collectr.Forms.Engine.Conditions.{Floats}
use collectr.Submit.Tables.{
  FileRow, IdempotencyRow, PublicForm, FormMeta, SubmitInput, SubmitResult, duplicate_request, Db,
  Env,
}
use collectr.Submit.Checks.{Checked, file_by_id, unattached}
use collectr.Submit.Store.{
  has_key, complete, bindable, bind_rows, count_bindable, bind_files, request_hash, reserve_key,
  reserve, stored_rows, submit,
}
use collectr.Submit.Steps.{IsStored}
use collectr.Submit.Minimal.{submit-steps}

has_key-complete :
    (submission : ℕ) (receipt key : String) (keys : List IdempotencyRow) (k : String)
    → has_key (complete submission receipt key keys) k ≡ has_key keys k
unfolding has_key complete
has_key-complete submission receipt key [] k = refl
has_key-complete submission receipt key (r ∷ keys) k =
    ground (arith, has_key-complete submission receipt key keys k)

-- A file that is attached is not attached again.
file_by_id-bind_rows :
    (tenant submission : ℕ) (ids : List ℕ) (files : List FileRow) (x s : ℕ) (f : FileRow)
    → file_by_id files x ≡ some f
    → f.submission ≡ some s
    → file_by_id (bind_rows tenant submission ids files) x ≡ some f
unfolding file_by_id bind_rows bindable unattached
file_by_id-bind_rows tenant submission ids [] x s f q a = cc
file_by_id-bind_rows tenant submission ids (g ∷ files) x s f q a =
    ground (arith, q, a, file_by_id-bind_rows tenant submission ids files x s f)

file_by_id-bind_files :
    (tenant submission : ℕ) (ids : List ℕ) (files files' : List FileRow) (x s : ℕ) (f : FileRow)
    → bind_files tenant submission ids files ≡ ok files'
    → file_by_id files x ≡ some f
    → f.submission ≡ some s
    → file_by_id files' x ≡ some f
unfolding bind_files
file_by_id-bind_files tenant submission [] files files' x s f b q a =
    ap (λ l. file_by_id l x) (sym (ok_injective b)) ∙ q
file_by_id-bind_files tenant submission (y ∷ ids) files files' x s f b q a =
    elim (Bool-cases (eqb (count_bindable tenant (y ∷ ids) files) (length (y ∷ ids)))) [
      | inl fits ↦
          let same : bind_rows tenant submission (y ∷ ids) files ≡ files' =
            ground (arith, b, fits) in
          ap (λ l. file_by_id l x) (sym same)
          ∙ file_by_id-bind_rows tenant submission (y ∷ ids) files x s f q a
      | inr short ↦ absurd (ground (arith, b, short))
    ]

module _ {F : Type 0} where
  -- A reservation is of a key that was not taken.
  reserve_key-ok :
      (e : Env F) (i : SubmitInput F) (keys keys' : List IdempotencyRow)
      → reserve_key e i keys ≡ ok keys'
      → (has_key keys i.idempotency_key ≡ false)
        × ((k : String)
            → has_key keys' k ≡ (if i.idempotency_key == k then true else has_key keys k))
  unfolding reserve_key
  reserve_key-ok e i keys keys' q =
      let (hash, r1, q1) = >>=-eq-ok (request_hash e i) _ q in
      let (u, r2, q2) =
        >>=-eq-ok (require (not (has_key keys i.idempotency_key)) duplicate_request) _ q1 in
      let free = require-eq-ok (not (has_key keys i.idempotency_key)) duplicate_request r2 in
      (
        ground (arith, free),
        λ k.
            subst (λ l. has_key l k ≡ (if i.idempotency_key == k then true else has_key keys k))
              (ok_injective q2) (unfold has_key in refl),
      )

  -- A reservation keeps the keys that are taken.
  reserve_keeps :
      (e : Env F) (i : SubmitInput F) (keys keys' : List IdempotencyRow) (k : String)
      → reserve e i keys ≡ ok keys'
      → has_key keys k ≡ true
      → has_key keys' k ≡ true
  unfolding reserve
  reserve_keeps e i keys keys' k q h = elim (Bool-cases (i.idempotency_key == "")) [
    | inl blank ↦
        let same : keys ≡ keys' = ground (arith, q, blank) in subst (λ l. has_key l k ≡ true) same h
    | inr named ↦
        let taken = (reserve_key-ok e i keys keys' (ground (arith, q, named))).1 k in
        ground (arith, taken, h)
  ]

  -- Under a key that is not blank, a reservation takes it, and it was free.
  reserve_takes :
      (e : Env F) (i : SubmitInput F) (keys keys' : List IdempotencyRow)
      → (i.idempotency_key == "") ≡ false
      → reserve e i keys ≡ ok keys'
      → (has_key keys i.idempotency_key ≡ false) × (has_key keys' i.idempotency_key ≡ true)
  unfolding reserve
  reserve_takes e i keys keys' named q =
      let (free, taken) = reserve_key-ok e i keys keys' (ground (arith, q, named)) in
      (free, ground (arith, taken i.idempotency_key, eq_refl i.idempotency_key))

  -- The rows of a submission keep the keys that its reservation left.
  stored_keys :
      (e : Env F) (i : SubmitInput F) (pf : PublicForm F) (form : FormMeta) (c : Checked F)
      (db db' : Db F) (s : IsStored e i pf form c db db') (k : String)
      → has_key db'.keys k ≡ has_key s.keys k
  unfolding stored_rows
  stored_keys e i pf form c db db' s k =
      ap (λ (d : Db F). has_key d.keys k) s.rows ∙ (elim (Bool-cases (i.idempotency_key == "")) [
        | inl blank ↦ ground (arith, blank)
        | inr named ↦
            ground
              (arith, named, has_key-complete e.submission_id e.receipt i.idempotency_key s.keys k)
      ])

module _ (fl : Floats) where
  open fl use {Float}

  -- Submissions that went through, one after another.
  pub data Runs : Db Float → Db Float → Type 0 where
    done : {db : Db Float} → Runs db db
    then_submit :
        {db db' db'' : Db Float} (e : Env Float) (i : SubmitInput Float) (pf : PublicForm Float)
        (form : FormMeta) (r : SubmitResult)
        → submit fl e i pf form db ≡ ok (db', r)
        → Runs db' db''
        → Runs db db''

  keys_stay :
      {db db' : Db Float} (k : String)
      → Runs db db'
      → has_key db.keys k ≡ true
      → has_key db'.keys k ≡ true
  keys_stay k done h = h
  keys_stay k (then_submit {db} {db'} e i pf form r q later) h =
      let (c, _, s, _) = submit-steps fl e i pf form db db' r q in
      keys_stay k later
        (stored_keys e i pf form c db db' s k ∙ reserve_keeps e i db.keys s.keys k s.reserved h)

  -- Once a submission with a key that is not blank went through, no later one with that key does,
  -- whatever it brings and whatever other submissions come between.
  pub submit_once :
      (e e' : Env Float) (i i' : SubmitInput Float) (pf pf' : PublicForm Float)
      (form form' : FormMeta) (db db1 db2 db3 : Db Float) (r r' : SubmitResult)
      → (i.idempotency_key == "") ≡ false
      → i'.idempotency_key ≡ i.idempotency_key
      → submit fl e i pf form db ≡ ok (db1, r)
      → Runs db1 db2
      → ¬ (submit fl e' i' pf' form' db2 ≡ ok (db3, r'))
  submit_once e e' i i' pf pf' form form' db db1 db2 db3 r r' named same q run again =
      let (c, _, s, _) = submit-steps fl e i pf form db db1 r q in
      let (c', _, s', _) = submit-steps fl e' i' pf' form' db2 db3 r' again in
      let taken =
        stored_keys e i pf form c db db1 s i.idempotency_key
        ∙ (reserve_takes e i db.keys s.keys named s.reserved).1 in
      let still = keys_stay i.idempotency_key run taken in
      let free =
        (reserve_takes e' i' db2.keys s'.keys (ap (λ k. k == "") same ∙ named) s'.reserved).0 in
      false≢true (sym free ∙ ap (has_key db2.keys) same ∙ still)

  -- A file that is attached to a submission stays with it, whatever later submissions name it.
  pub attached_stays :
      (x s : ℕ) (f : FileRow) {db db' : Db Float}
      → Runs db db'
      → file_by_id db.files x ≡ some f
      → f.submission ≡ some s
      → file_by_id db'.files x ≡ some f
  unfolding stored_rows
  attached_stays x s f done q a = q
  attached_stays x s f (then_submit {db} {db'} e i pf form r p later) q a =
      let (c, _, w, _) = submit-steps fl e i pf form db db' r p in
      attached_stays x s f later
        (ap (λ (d : Db Float). file_by_id d.files x) w.rows
          ∙ file_by_id-bind_files pf.tenant_id e.submission_id c.attachments db.files w.files x s f
              w.binding q a)
        a
