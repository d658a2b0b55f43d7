-- ===== src/Analyses/Started.antt =====
-- knight.cpp: the two managers after `create_ast_consumer`.
use knight.Prelude.{ℕ, ◌≤◌, ◌≡◌, Bool, ◌&&◌, ◌||◌, List, All}
use knight.Prelude.Assoc.{IsMap}
use knight.Discrete.{has_key}
use knight.Analyses.{AnalysisManager, set_at}
use knight.Analyses.Degrees.{count}
use knight.Analyses.Pending.{IsClosed, HasAll, In, Says}
use knight.Analyses.Sorted.{IsSchedule}
use knight.Analyses.Required.{Asked, Requires}
use knight.Analyses.Startup.{
  CheckerManager, KnightContext, KnightFactory, enabled_ids, add_required_checkers, create_checkers,
  create_analyses,
}
use knight.Analyses.Created.{offered, IsCheckerRegistry, IsAnalysisRegistry}

module _ {St Ex Nd Cx Cb : Type 0} (ctx : KnightContext) (factory : KnightFactory St Ex Nd Cx Cb)
    (checker_manager : CheckerManager Cb) (m : AnalysisManager St Ex Nd Cx) where
  -- The checkers that are required once the enabled ones are added.
  abbrev pub checks : List ℕ
  checks =
      (add_required_checkers (enabled_ids ctx.is_check_enabled factory.checker_registry)
        checker_manager).required_checkers

  -- All that is asked for has the property.
  abbrev pub AllAsked : (ℕ → Type 0) → Type 0
  AllAsked P =
      Asked P checks checker_manager.checker_dependencies
        (enabled_ids ctx.is_analysis_directly_enabled factory.analysis_registry)
        (enabled_ids ctx.is_core_analysis_enabled factory.analysis_registry) m.required

  -- What the modules must have left in the factory and in the managers.
  pub record IsStartable : Type 0 where
    pub checker_laws : All (λ e. IsCheckerRegistry e.1) factory.checker_registry
    pub analysis_laws : All (λ e. IsAnalysisRegistry e.0 e.1) factory.analysis_registry
    pub has_keys : IsMap m.dependencies
    pub distinct : (k : ℕ) → count k m.analyses ≤ 1
    pub distinct_privileged : (k : ℕ) → count k m.privileged ≤ 1
    pub known_privileged :
        (k : ℕ) → In m.privileged k → In m.required k × In (offered factory.analysis_registry) k
    pub known :
        (k n : ℕ)
        → In (set_at k m.dependencies) n
        → In (offered factory.analysis_registry) k × In (offered factory.analysis_registry) n
    pub needed :
        (k n : ℕ)
        → In (set_at k m.dependencies) n
        → (p : ℕ → Bool) → IsClosed m.dependencies (Says p)
        → AllAsked (Says p)
        → Says p k

  -- What a run starts with.
  pub record IsStarted (r : AnalysisManager St Ex Nd Cx) : Type 0 where
    pub asked_for : AllAsked (In r.required)
    pub closed : IsClosed m.dependencies (In r.required)
    pub least :
        (p : ℕ → Bool)
        → IsClosed m.dependencies (Says p)
        → AllAsked (Says p)
        → HasAll (Says p) r.required
    pub registered :
        (k : ℕ)
        → has_key k r.analyses ≡ (
            has_key k m.analyses
            || (has_key k (offered factory.analysis_registry) && has_key k r.required))
    pub enabled :
        (k : ℕ)
        → has_key k r.enabled_analyses ≡ (
            has_key k m.enabled_analyses
            || (has_key k (offered factory.analysis_registry) && has_key k r.required))
    pub scheduled : IsSchedule m.dependencies r.analyses m.privileged r.full_order

  module _ (h : IsStartable) where
    abbrev Required : AnalysisManager St Ex Nd Cx → Type 0
    Required n =
        Requires checks checker_manager.checker_dependencies
          (enabled_ids ctx.is_analysis_directly_enabled factory.analysis_registry)
          (enabled_ids ctx.is_core_analysis_enabled factory.analysis_registry) m n

    unfoldable created : (n : AnalysisManager St Ex Nd Cx) → AnalysisManager St Ex Nd Cx
    created n = create_analyses factory.analysis_registry n

    unfoldable IsOrdered : AnalysisManager St Ex Nd Cx → AnalysisManager St Ex Nd Cx → Type 0
    IsOrdered n r =
        (r ≡ record (created n) { full_order = r.full_order })
        × IsSchedule m.dependencies (created n).analyses m.privileged r.full_order

  unfoldable created_checkers : CheckerManager Cb
  created_checkers = create_checkers factory.checker_registry (
      add_required_checkers (enabled_ids ctx.is_check_enabled factory.checker_registry)
        checker_manager)
