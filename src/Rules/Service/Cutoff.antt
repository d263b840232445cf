-- ===== src/Rules/Service/Cutoff.antt =====
-- The cutoffs of `reload` bound the priorities of the rules that they are made from.
use ojuri.Prelude.{
  ℕ, ◌≡◌, String, true, false, Option, none, some, List, [], ◌∷◌, eq_iff, arith, Bool-cases, inl,
  inr, All,
}
use ojuri.Prelude.Assoc
use ojuri.Prelude.Assoc.{get-set}
use ojuri.Rules.Service.{
  RuleRecord, Cutoffs, reaches, scope, differs, least, note_scoped, note_best, note_all,
  feature_dependent_cutoff,
}

-- For the tenant named `s`: priority `p` is not below the cutoff.
abbrev pub Covers : Option String → ℕ → Cutoffs → Type 0
Covers t p c = reaches p (feature_dependent_cutoff c t) ≡ true

module _ (t : Option String) (s : String) (named : scope t ≡ some s) where
  note_scoped-Covers :
      (u : Option String) (p q : ℕ) (c : Cutoffs) → Covers t p c → Covers t p (note_scoped u q c)
  unfolding note_scoped feature_dependent_cutoff
  note_scoped-Covers none p q c h = ground arith
  note_scoped-Covers (some u) p q c h =
      ground
        (arith, named, h, eq_iff u s, get-set c.by_tenant u (least (Assoc.get c.by_tenant u) q) s)

  -- A rule of everyone's, or of tenant `s`, lowers the cutoff of `s` to its priority.
  note_scoped_self :
      (u : Option String) (p : ℕ) (c : Cutoffs)
      → differs u (some s) ≡ false
      → Covers t p (note_scoped u p c)
  unfolding note_scoped feature_dependent_cutoff
  note_scoped_self none p c h = ground arith
  note_scoped_self (some u) p c h =
      ground
        (arith, named, h, eq_iff u s, get-set c.by_tenant u (least (Assoc.get c.by_tenant u) p) s)

  module _ {Num : Type 0} where
    note_best-Covers :
        (r : RuleRecord Num) (p : ℕ) (c : Cutoffs) → Covers t p c → Covers t p (note_best r c)
    unfolding note_best
    note_best-Covers r p c h = elim (Bool-cases r.request_only) [
      | inl only ↦ rw only h
      | inr reads ↦ rw reads (note_scoped-Covers (scope r.tenant_id) p r.priority c h)
    ]

    note_all-Covers :
        (rs : List (RuleRecord Num)) (p : ℕ) (c : Cutoffs)
        → Covers t p c
        → Covers t p (note_all rs c)
    unfolding note_all
    note_all-Covers [] p c h = h
    note_all-Covers (r ∷ rs) p c h = note_all-Covers rs p (note_best r c) (note_best-Covers r p c h)

    -- A rule that reads features and that the tenant sees.
    abbrev pub IsCovered : Cutoffs → RuleRecord Num → Type 0
    IsCovered c r =
        r.request_only ≡ false
        → differs (scope r.tenant_id) (some s) ≡ false
        → Covers t r.priority c

    pub note_all-IsCovered :
        (rs : List (RuleRecord Num)) (c : Cutoffs) → All (IsCovered (note_all rs c)) rs
    unfolding note_all note_best
    note_all-IsCovered [] c = tt
    note_all-IsCovered (r ∷ rs) c = (
      λ reads seen.
          note_all-Covers rs r.priority (note_best r c)
            (rw (reads) (note_scoped_self (scope r.tenant_id) r.priority c seen)),
      note_all-IsCovered rs (note_best r c),
    )
