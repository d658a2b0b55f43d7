-- ===== src/Analyses/Startup.antt =====
-- analyzer/src/tooling/knight.cpp and factory.cpp: what `create_ast_consumer` does to the two managers
-- when a run starts. The compiler instance, the directories and the consumer that it returns are left
-- out; the objects that are created are their identifiers.
--
-- A checker or an analysis has one name, so the tables of the factory and the options of the context
-- go by the identifier. What an entry of a table does to its manager is a parameter.
use knight.Prelude.{ℕ, Bool, Option, some, ◌>>=◌, List, [], ◌∷◌, if◌then◌else◌}
use knight.Discrete.{has_key, insert_key}
use knight.Analyses.{AnalysisManager, is_analysis_required, require_analyses}
use knight.Analyses.Order.{compute_full_order_analyses_after_registry}

-- `CheckerManager`. `Cb` is what it holds of callbacks.
pub record CheckerManager (Cb : Type 0) : Type 0 where
  pub checkers : List ℕ
  pub enabled_checkers : List ℕ
  pub required_checkers : List ℕ
  pub checker_dependencies : List (ℕ × List ℕ)
  pub callbacks : Cb

-- The options that `create_ast_consumer` asks for.
pub record KnightContext : Type 0 where
  pub is_check_enabled : ℕ → Bool
  pub is_analysis_directly_enabled : ℕ → Bool
  pub is_core_analysis_enabled : ℕ → Bool

-- The tables of registry functions, in the order of iteration: a function gives the identifier of the
-- object that it creates, and changes the manager.
pub record KnightFactory (St Ex Nd Cx Cb : Type 0) : Type 0 where
  pub analysis_registry : List (ℕ × (AnalysisManager St Ex Nd Cx → ℕ × AnalysisManager St Ex Nd Cx))
  pub checker_registry : List (ℕ × (CheckerManager Cb → ℕ × CheckerManager Cb))

-- `get_enabled_checks` and the two like it.
unfoldable pub enabled_ids : {F : Type 0} → (ℕ → Bool) → List (ℕ × F) → List ℕ
enabled_ids is_enabled [] = []
enabled_ids is_enabled ((id, registry) ∷ rest) =
    let enabled = enabled_ids is_enabled rest in if is_enabled id then id ∷ enabled else enabled

module _ {Cb : Type 0} where
  unfoldable pub add_required_checkers : List ℕ → CheckerManager Cb → CheckerManager Cb
  unfolding insert_key
  add_required_checkers [] m = m
  add_required_checkers (id ∷ ids) m =
      add_required_checkers ids (record m { required_checkers = insert_key id m.required_checkers })

  unfoldable pub enable_checker : ℕ × CheckerManager Cb → CheckerManager Cb
  unfolding insert_key
  enable_checker (id, m) = record m { enabled_checkers = insert_key id m.enabled_checkers }

  unfoldable pub create_checkers :
      List (ℕ × (CheckerManager Cb → ℕ × CheckerManager Cb)) → CheckerManager Cb → CheckerManager Cb
  unfolding has_key enable_checker
  create_checkers [] m = m
  create_checkers ((id, registry) ∷ rest) m =
      create_checkers rest
        (if has_key id m.required_checkers then enable_checker (registry m) else m)

module _ {St Ex Nd Cx : Type 0} where
  -- `register_analysis` of the manager: `register_callback` is the analysis's own.
  unfoldable pub register_analysis :
      ℕ
      → (AnalysisManager St Ex Nd Cx → AnalysisManager St Ex Nd Cx)
      → AnalysisManager St Ex Nd Cx
      → ℕ × AnalysisManager St Ex Nd Cx
  unfolding insert_key
  register_analysis id register_callback m =
      (id, register_callback (record m { analyses = insert_key id m.analyses }))

  unfoldable pub enable_analysis : ℕ × AnalysisManager St Ex Nd Cx → AnalysisManager St Ex Nd Cx
  unfolding insert_key
  enable_analysis (id, m) = record m { enabled_analyses = insert_key id m.enabled_analyses }

  unfoldable pub create_analyses :
      List (ℕ × (AnalysisManager St Ex Nd Cx → ℕ × AnalysisManager St Ex Nd Cx))
      → AnalysisManager St Ex Nd Cx
      → AnalysisManager St Ex Nd Cx
  unfolding is_analysis_required enable_analysis
  create_analyses [] m = m
  create_analyses ((id, registry) ∷ rest) m =
      create_analyses rest (if is_analysis_required m id then enable_analysis (registry m) else m)

  unfoldable pub create_ast_consumer :
      {Cb : Type 0}
      → KnightContext
      → KnightFactory St Ex Nd Cx Cb
      → CheckerManager Cb
      → AnalysisManager St Ex Nd Cx
      → Option (CheckerManager Cb × AnalysisManager St Ex Nd Cx)
  unfolding enabled_ids add_required_checkers create_checkers create_analyses require_analyses
      compute_full_order_analyses_after_registry
  create_ast_consumer ctx factory checker_manager analysis_manager =
      let checker_manager1 = create_checkers factory.checker_registry (
        add_required_checkers (enabled_ids ctx.is_check_enabled factory.checker_registry)
          checker_manager) in
      do
        m ←
            require_analyses checker_manager1.required_checkers
              checker_manager1.checker_dependencies
              (enabled_ids ctx.is_analysis_directly_enabled factory.analysis_registry)
              (enabled_ids ctx.is_core_analysis_enabled factory.analysis_registry) analysis_manager
        r ← compute_full_order_analyses_after_registry (create_analyses factory.analysis_registry m)
        some (checker_manager1, r)
