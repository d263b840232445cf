-- ===== src/Rules/Service/Shortcut.antt =====
-- The pass over request-only PRE rules, before the features are loaded, anticipates the full pass.
use ojuri.Prelude.{
  ℕ, ◌≡◌, refl, ap, sym, ◌∙◌, String, Bool, true, false, not, Option, none, some, List, [], ◌∷◌,
  arith, if◌then◌else◌, Bool-cases, inl, inr, All,
}
use ojuri.Enums.{pre}
use ojuri.Rules.Value.{Value, Members, Host}
use ojuri.Rules.Evaluator.{RuleContext}
use ojuri.Rules.Evaluator.Features.{avoids_features, evaluate-features}
use ojuri.Rules.Service.{
  RuleRow, RuleRecord, RuleHit, reaches, scope, differs, tenant_mismatch, matches, holds, first_hit,
  first_request_only_hit, evaluate_stage, evaluate_request_only_pre, reload, note_all,
  feature_dependent_cutoff, records, is_pre, list_active_ordered,
}
use ojuri.Rules.Service.Cutoff.{note_all-IsCovered}
use ojuri.Rules.Service.Ordered.{RulesFrom, IsOrdered, list_active_ordered-IsOrdered}

-- One round of both passes at a request-only rule.
both_passes {ℓ} :
    {H : Type ℓ} (only cut foreign hits : Bool) (here rest target : Option H) (hit : H)
    → only ≡ true
    → (rest ≡ some hit → target ≡ some hit)
    → (if not only
        then rest
        else if cut
        then none
        else if foreign
        then rest
        else if hits
        then here
        else rest)
      ≡ some hit
    → (if foreign then target else if hits then here else target) ≡ some hit
both_passes false cut foreign hits here rest target hit o h e = cc
both_passes true true foreign hits here rest target hit o h e = cc
both_passes true false true hits here rest target hit o h e = h e
both_passes true false false true here rest target hit o h e = e
both_passes true false false false here rest target hit o h e = h e

module _ (js : Host) where
  open js use {Num}

  -- A rule that is classed as reading the request alone does so.
  abbrev pub IsClassed : RuleRecord Num → Type 0
  IsClassed r = r.request_only ≡ true → avoids_features r.expression ≡ true

  module _ (ctx : RuleContext Num) (loaded : Members Num) where
    abbrev full : RuleContext Num
    full = record ctx { features = loaded }

    matches-features :
        (r : RuleRecord Num)
        → avoids_features r.expression ≡ true
        → matches js r ctx ≡ matches js r full
    unfolding matches
    matches-features r h = ap (holds js) (evaluate-features js ctx loaded r.expression h)

    mismatch-features : (r : RuleRecord Num) → tenant_mismatch js r ctx ≡ tenant_mismatch js r full
    unfolding tenant_mismatch
    mismatch-features r = refl

    mismatch-named :
        (r : RuleRecord Num) (s : String)
        → scope ctx.tenant_id ≡ some s
        → tenant_mismatch js r full ≡ differs (scope r.tenant_id) (some s)
    unfolding tenant_mismatch
    mismatch-named r s named = ap (differs (scope r.tenant_id)) named

    module _ (cutoff : Option ℕ) where
      -- Past the cutoff the pass finds nothing.
      past_cutoff :
          (p : ℕ) (rules : List (RuleRecord Num))
          → reaches p cutoff ≡ true
          → RulesFrom p rules
          → first_request_only_hit js cutoff rules ctx ≡ none
      unfolding first_request_only_hit
      past_cutoff p [] h f = refl
      past_cutoff p (r ∷ rules) h (k, f) = ground (arith, past_cutoff p rules h f)

      anticipates :
          (s : String) (rules : List (RuleRecord Num)) (hit : RuleHit Num)
          → scope ctx.tenant_id ≡ some s
          → All
              (λ r.
                r.request_only ≡ false
                → differs (scope r.tenant_id) (some s) ≡ false
                → reaches r.priority cutoff ≡ true)
              rules
          → All IsClassed rules
          → IsOrdered rules
          → first_request_only_hit js cutoff rules ctx ≡ some hit
          → first_hit js pre rules full ≡ some hit
      unfolding first_request_only_hit first_hit
      anticipates s [] hit named c a o e = cc
      anticipates s (r ∷ rules) hit named (covered, c) (classed, a) (from, o) e =
          let later = anticipates s rules hit named c a o in
          let same = mismatch-named r s named in
          elim (Bool-cases r.request_only) [
            | inr reads ↦ elim (Bool-cases (tenant_mismatch js r full)) [
              | inl foreign ↦ rw foreign (later (rw reads at e))
              | inr seen ↦
                  let nothing =
                    past_cutoff r.priority rules (covered reads (sym same ∙ seen)) from in
                  absurd (cc (sym nothing ∙ (rw reads at e)))
            ]
            | inl only ↦
                rw (← matches-features r (classed only), ← mismatch-features r)
                  (both_passes r.request_only (reaches r.priority cutoff) (tenant_mismatch js r ctx)
                    (matches js r ctx) (some (record { rule = r; stage = pre }))
                    (first_request_only_hit js cutoff rules ctx) (first_hit js pre rules full) hit
                    only later e)
          ]

  -- For a named tenant a hit of the request-only pass is the hit of the full ordered PRE pass, on
  -- whatever features are loaded later, provided that each rule classed as request-only reads no
  -- feature.
  pub shortcut_sound :
      (parse : String → Value Num) (table : List (RuleRow Num)) (ctx : RuleContext Num)
      (loaded : Members Num) (s : String) (hit : RuleHit Num)
      → scope ctx.tenant_id ≡ some s
      → All IsClassed (reload parse table).pre_rules
      → evaluate_request_only_pre js (reload parse table) ctx ≡ some hit
      → evaluate_stage js (reload parse table) pre (record ctx { features = loaded }) ≡ some hit
  unfolding evaluate_request_only_pre evaluate_stage reload
  shortcut_sound parse table ctx loaded s hit named classed e =
      let rules = records parse is_pre (list_active_ordered table) in
      let best = note_all rules (record { shared = none; by_tenant = [] }) in
      anticipates ctx loaded (feature_dependent_cutoff best ctx.tenant_id) s rules hit named
        (note_all-IsCovered ctx.tenant_id s named rules (record { shared = none; by_tenant = [] }))
        classed (list_active_ordered-IsOrdered parse is_pre table) e
