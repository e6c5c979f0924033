-- ===== src/Forms/Diff/Order.antt =====
-- The order that BuildColumnRegistry of internal/modules/forms/domain/diff.go brings the versions into.
use collectr.Prelude.{
  ℕ, ◌≤◌, ◌≡◌, refl, true, false, List, [], ◌∷◌, leb, All, All-map, arith, Bool-cases, inl, inr,
}
use mathlib.Core.List.{Perm}
use mathlib.Core.List.Perm
use collectr.Forms.Diff.Grid.{VersionedSchema, insert_version, by_version}

module _ {F : Type 0} where
  -- Each version has a number that is at most those of the versions after it.
  pub IsAscending : List (VersionedSchema F) → Type 0
  IsAscending [] = Unit {0}
  IsAscending (v ∷ vs) = All (λ w. v.version_no ≤ w.version_no) vs × IsAscending vs

  insert_version-before :
      (v w : VersionedSchema F) (ws : List (VersionedSchema F))
      → leb v.version_no w.version_no ≡ true
      → insert_version v (w ∷ ws) ≡ v ∷ w ∷ ws
  unfolding insert_version
  insert_version-before v w ws h = rw h refl

  insert_version-after :
      (v w : VersionedSchema F) (ws : List (VersionedSchema F))
      → leb v.version_no w.version_no ≡ false
      → insert_version v (w ∷ ws) ≡ w ∷ insert_version v ws
  unfolding insert_version
  insert_version-after v w ws h = rw h refl

  insert_version-perm :
      (v : VersionedSchema F) (ws : List (VersionedSchema F)) → Perm (insert_version v ws) (v ∷ ws)
  insert_version-perm v [] = unfold insert_version in Perm.rfl
  insert_version-perm v (w ∷ ws) = elim (Bool-cases (leb v.version_no w.version_no)) [
    | inl t ↦ rw (insert_version-before v w ws t) Perm.rfl
    | inr f ↦
        rw (insert_version-after v w ws f)
          (Perm.trans (Perm.cons w (insert_version-perm v ws)) (Perm.swap v w ws))
  ]

  pub by_version-perm : (vs : List (VersionedSchema F)) → Perm (by_version vs) vs
  unfolding by_version
  by_version-perm [] = Perm.rfl
  by_version-perm (v ∷ vs) =
      Perm.trans (insert_version-perm v (by_version vs)) (Perm.cons v (by_version-perm vs))

  -- What is at most every number of a list and of an inserted version.
  insert_version-All :
      (n : ℕ) (v : VersionedSchema F) (ws : List (VersionedSchema F))
      → n ≤ v.version_no
      → All (λ w. n ≤ w.version_no) ws
      → All (λ w. n ≤ w.version_no) (insert_version v ws)
  insert_version-All n v [] h a = unfold insert_version in (h, tt)
  insert_version-All n v (w ∷ ws) h a = elim (Bool-cases (leb v.version_no w.version_no)) [
    | inl t ↦ rw (insert_version-before v w ws t) (h, a)
    | inr f ↦ rw (insert_version-after v w ws f) (a.0, insert_version-All n v ws h a.1)
  ]

  insert_version-IsAscending :
      (v : VersionedSchema F) (ws : List (VersionedSchema F))
      → IsAscending ws
      → IsAscending (insert_version v ws)
  unfolding IsAscending
  insert_version-IsAscending v [] s = unfold insert_version in (tt, tt)
  insert_version-IsAscending v (w ∷ ws) (least, s) =
      elim (Bool-cases (leb v.version_no w.version_no)) [
        | inl t ↦
            let small : v.version_no ≤ w.version_no = ground arith in
            let all = All-map _ _ ws (λ x h. omega (arith, h, small)) least in
            rw (insert_version-before v w ws t) ((small, all), (least, s))
        | inr f ↦
            let large : w.version_no ≤ v.version_no = ground arith in
            rw (insert_version-after v w ws f)
              (insert_version-All w.version_no v ws large least, insert_version-IsAscending v ws s)
      ]

  pub by_version-IsAscending : (vs : List (VersionedSchema F)) → IsAscending (by_version vs)
  unfolding by_version IsAscending
  by_version-IsAscending [] = tt
  by_version-IsAscending (v ∷ vs) =
      insert_version-IsAscending v (by_version vs) (by_version-IsAscending vs)
