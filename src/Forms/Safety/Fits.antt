-- ===== src/Forms/Safety/Fits.antt =====
-- What a clean verdict of Validate tells of each page and rule, for the engine's errors.
use collectr.Prelude.{
  ◌≡◌, ◌⊎◌, refl, String, true, none, List, [], ◌∷◌, arith, inl, inr, All, All-left, All-right,
}
use collectr.Forms.Schema.{FieldId, PageId, Op, Action, Rule, Schema, has_field}
use collectr.Forms.Engine.Conditions.{Floats, Error, between_needs_two, in_rule, two_elements}
use collectr.Forms.Engine.Errors.{FieldFits, ActionFits, RuleFits}
use collectr.Forms.Safety.Verdict.{PageFits, RuleDefined, ActionDefined}

-- The one error left: a rule compares by `between` with a value that is not a list of two.
abbrev pub BadBetween : {F : Type 0} → List (Rule F) → Error → Type 0
BadBetween [] e = ⊥
BadBetween (r ∷ rest) e =
    ((r.when.op ≡ Op.between)
      × (two_elements r.when.value ≡ none)
      × (e ≡ in_rule r.id between_needs_two))
    ⊎ BadBetween rest e

-- What a clean verdict has checked.
pub record Checked {F : Type 0} (s : Schema F) : Type 0 where
  pub pages_fit : All (PageFits s) s.pages
  pub rules_defined : All (RuleDefined s) s.rules

module _ (fl : Floats) where
  open fl use {Float}

  pub fields_fit :
      (s : Schema Float) (P : Error → Type 0) (pid : PageId) (fs : List FieldId)
      → All (λ fid. has_field s fid ≡ true) fs
      → All (FieldFits P pid s.fields) fs
  unfolding has_field
  fields_fit s P pid [] h = tt
  fields_fit s P pid (f ∷ fs) h =
      ((λ n. absurd (ground (arith, n, h.0))), fields_fit s P pid fs h.1)

  pub actions_fit :
      (s : Schema Float) (P : Error → Type 0) (id : String) (actions : List Action)
      → All (ActionDefined s) actions
      → All (ActionFits P id) actions
  actions_fit s P id [] h = tt
  actions_fit s P id (a ∷ rest) h = ((λ x e. absurd (h.0.0 x e)), actions_fit s P id rest h.1)

  pub rules_fit :
      (s : Schema Float) (rules all : List (Rule Float))
      → ((e : Error) → BadBetween rules e → BadBetween all e)
      → All (RuleDefined s) rules
      → All (RuleFits fl (BadBetween all)) rules
  rules_fit s [] all up h = tt
  rules_fit s (r ∷ rest) all up h = (
    record {
      op_fits = λ x e. absurd (h.0.op_known x e);
      between_fits = λ b t. up (in_rule r.id between_needs_two) (inl (b, t, refl));
      then_fits =
          actions_fit s (BadBetween all) r.id r.then_actions
            (All-left _ r.then_actions r.else_actions h.0.actions_defined);
      else_fits =
          actions_fit s (BadBetween all) r.id r.else_actions
            (All-right _ r.then_actions r.else_actions h.0.actions_defined);
    },
    rules_fit s rest all (λ e b. up e (inr b)) h.1,
  )
