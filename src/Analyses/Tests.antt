-- ===== src/Analyses/Tests.antt =====
-- The theorems on `AnalysisManager` at a manager of three analyses.
use knight.Prelude.Int.{◌+ℤ◌, ◌-ℤ◌}
use knight.Prelude.{
  arith, ◌<◌, ℕ, ◌≡◌, refl, true, some, none, false, ◌>>=◌, List, [], ◌∷◌, Returns, ◌==◌,
}
use knight.Analyses.{
  set_at, AnalysisManager, AnalysisCallBack, StmtAnalysisInfo, VisitStmtKind, run_analyses_for_stmt,
  run_analyses_for_begin_function, run_analyses_for_end_function, run_analyses_for_condition_filter,
  register_for_begin_function,
}
use knight.Discrete.{has_key}
use knight.Analyses.Order.{compute_topological_order}
use knight.Analyses.Degrees.{count}
use knight.Analyses.Kahn.{IsRegistry}
use knight.Analyses.Sorted.{IsSchedule, compute_topological_order_lem}
use knight.Analyses.Startup.{
  CheckerManager, KnightContext, KnightFactory, register_analysis, create_ast_consumer,
}
use knight.Analyses.Targets.{call_all, scheduled, chosen, only_required}
use knight.Analyses.Schedule.{selected, run_analyses_lem}

-- A callback that writes down its analysis and its number.
abbrev noted : {A : Type 0} → ℕ → ℕ → AnalysisCallBack A (List (ℕ × ℕ))
noted id n = record { get_id = id; callback = λ args ctx. (id, n) ∷ ctx }

abbrev on : ℕ → ℕ → ℕ → VisitStmtKind → StmtAnalysisInfo ℕ (List (ℕ × ℕ))
on id n stmt kind = record { anz_cb = noted id n; match_cb = λ s. s == stmt; kind = kind }

-- The second analysis has two callbacks for the statement 7, and depends on the third.
abbrev manager : AnalysisManager ℕ ℕ ℕ (List (ℕ × ℕ))
manager = record {
  analyses = 1 ∷ 2 ∷ 3 ∷ [];
  full_order = 3 ∷ 2 ∷ 1 ∷ [];
  dependencies = (2, 3 ∷ []) ∷ [];
  privileged = [];
  required = 2 ∷ 3 ∷ [];
  enabled_analyses = [];
  begin_function_analyses = noted 1 0 ∷ noted 2 0 ∷ [];
  end_function_analyses = noted 3 0 ∷ [];
  stmt_analyses =
      on 1 1 7 VisitStmtKind.pre
      ∷ on 2 2 7 VisitStmtKind.pre
      ∷ on 2 3 7 VisitStmtKind.pre
      ∷ on 3 4 7 VisitStmtKind.pre
      ∷ on 3 5 7 VisitStmtKind.eval
      ∷ [];
  condition_filters = noted 3 1 ∷ noted 1 1 ∷ [];
}

runs : run_analyses_for_stmt manager [] 7 VisitStmtKind.pre ≡ some ((2, 2) ∷ (3, 4) ∷ [])
unfolding run_analyses_for_stmt
runs = refl

run_analyses_lem_example :
    (run_analyses_for_stmt manager [] 7 VisitStmtKind.pre
      ≡ some (
          call_all
            (scheduled
              (chosen manager.required (selected manager 7 VisitStmtKind.pre manager.stmt_analyses))
              manager.full_order)
            7
            []))
    × ((run_analyses_for_begin_function manager []
          ≡ some (
              call_all
                (scheduled
                  (chosen manager.required manager.begin_function_analyses)
                  manager.full_order)
                tt
                []))
        × ((run_analyses_for_end_function manager [] 5
              ≡ some (
                  call_all
                    (scheduled
                      (chosen manager.required manager.end_function_analyses)
                      manager.full_order)
                    5
                    []))
            × (run_analyses_for_condition_filter manager [] 4 true
                ≡ call_all
                    (only_required manager.required manager.condition_filters)
                    (4, true)
                    [])))
run_analyses_lem_example = run_analyses_lem manager [] 7 VisitStmtKind.pre 5 4 true

-- The first depends on the second and the third, and the second on the third; the fourth is privileged.
abbrev needs : List (ℕ × List ℕ)
needs = (1, 2 ∷ 3 ∷ []) ∷ (2, 3 ∷ []) ∷ []

abbrev registered : List ℕ
registered = 3 ∷ 2 ∷ 1 ∷ 4 ∷ []

sorts : compute_topological_order needs registered (4 ∷ []) ≡ some (4 ∷ 1 ∷ 2 ∷ 3 ∷ [])
unfolding compute_topological_order ◌+ℤ◌ ◌-ℤ◌
sorts = refl

needs-IsRegistry : IsRegistry needs registered (4 ∷ [])
unfolding count has_key set_at
needs-IsRegistry = record {
  has_keys = (refl, (refl, tt));
  distinct = λ n. ground arith;
  distinct_privileged = λ n. ground arith;
  known_privileged = λ n e. ground arith;
  known = λ k n e. ground arith;
}

needs-rank : (k n : ℕ) → has_key n (set_at k needs) ≡ true → k < n
unfolding has_key set_at
needs-rank k n e = ground arith

compute_topological_order_lem_example :
    Returns
      (IsSchedule needs registered (4 ∷ []))
      (compute_topological_order needs registered (4 ∷ []))
compute_topological_order_lem_example =
    compute_topological_order_lem needs registered (4 ∷ []) needs-IsRegistry (λ n. n) needs-rank

-- The analysis 1, which is not registered, depends on 2: the assertion fails, though there is no cycle.
unregistered_dependent : compute_topological_order ((1, 2 ∷ []) ∷ []) (2 ∷ []) [] ≡ none
unfolding compute_topological_order ◌+ℤ◌ ◌-ℤ◌
unregistered_dependent = refl

-- The checker 5 depends on the analysis 1, which depends on 2; 3 is privileged, and 4 not asked for.
abbrev options : KnightContext
options = record {
  is_check_enabled = λ id. id == 5;
  is_analysis_directly_enabled = λ id. false;
  is_core_analysis_enabled = λ id. id == 3;
}

abbrev Managed : Type 0
Managed = AnalysisManager ℕ ℕ ℕ (List (ℕ × ℕ))

abbrev at_start : Managed
at_start = record {
  analyses = [];
  full_order = [];
  dependencies = (1, 2 ∷ []) ∷ [];
  privileged = 3 ∷ [];
  required = 3 ∷ [];
  enabled_analyses = [];
  begin_function_analyses = [];
  end_function_analyses = [];
  stmt_analyses = [];
  condition_filters = [];
}

abbrev checkers_at_start : CheckerManager ℕ
checkers_at_start = record {
  checkers = [];
  enabled_checkers = [];
  required_checkers = [];
  checker_dependencies = (5, 1 ∷ []) ∷ [];
  callbacks = 0;
}

-- The callbacks that an analysis registers.
abbrev with_callbacks : ℕ → Managed → Managed
with_callbacks id m = register_for_begin_function m (noted id 0)

abbrev modules : KnightFactory ℕ ℕ ℕ (List (ℕ × ℕ)) ℕ
modules = record {
  analysis_registry =
      (1, register_analysis 1 (with_callbacks 1))
      ∷ (2, register_analysis 2 (with_callbacks 2))
      ∷ (3, register_analysis 3 (with_callbacks 3))
      ∷ (4, register_analysis 4 (with_callbacks 4))
      ∷ [];
  checker_registry = (5, λ m. (5, record m { checkers = 5 ∷ m.checkers })) ∷ [];
}

starts :
    (create_ast_consumer options modules checkers_at_start at_start >>= λ r. some r.1.full_order)
    ≡ some (3 ∷ 1 ∷ 2 ∷ [])
unfolding create_ast_consumer register_analysis register_for_begin_function ◌+ℤ◌ ◌-ℤ◌
starts = refl
