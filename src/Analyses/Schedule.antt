-- ===== src/Analyses/Schedule.antt =====
-- analysis_manager.cpp: which callbacks the `run_analyses_for_*` call, and in which order.
use knight.Prelude.{
  ℕ, ◌≡◌, refl, inl, inr, Bool, ◌&&◌, Bool-cases, some, List, [], ◌∷◌, if◌then◌else◌,
}
use knight.Discrete.{has_key}
use knight.Analyses.{
  AnalysisManager, AnalysisCallBack, StmtAnalysisInfo, VisitStmtKind, same_visit_kind,
  is_analysis_required, collect, collect_stmt, filter_all, run_analyses_for_stmt,
  run_analyses_for_begin_function, run_analyses_for_end_function, run_analyses_for_condition_filter,
}
use knight.Analyses.Targets.{chosen, scheduled, call_all, only_required, ordered_lem}

module _ {St Ex Nd Cx : Type 0} (m : AnalysisManager St Ex Nd Cx) where
  -- The callbacks of a kind that match a statement.
  abbrev pub selected :
      St → VisitStmtKind → List (StmtAnalysisInfo St Cx) → List (AnalysisCallBack St Cx)
  selected stmt visit_kind [] = []
  selected stmt visit_kind (info ∷ infos) =
      let rest = selected stmt visit_kind infos in
      if same_visit_kind info.kind visit_kind && info.match_cb stmt
      then info.anz_cb ∷ rest
      else rest

  collect_stmt-selected :
      (stmt : St) (visit_kind : VisitStmtKind) (infos : List (StmtAnalysisInfo St Cx))
      (t : List ℕ × List (ℕ × AnalysisCallBack St Cx))
      → collect_stmt m stmt visit_kind infos t ≡ collect m (selected stmt visit_kind infos) t
  unfolding collect collect_stmt
  collect_stmt-selected stmt visit_kind [] t = refl
  collect_stmt-selected stmt visit_kind (info ∷ infos) t =
      elim (Bool-cases (same_visit_kind info.kind visit_kind)) [
        | inr e ↦ rw e (collect_stmt-selected stmt visit_kind infos t)
        | inl e ↦ elim (Bool-cases (info.match_cb stmt)) [
          | inr d ↦ rw (e, d) (collect_stmt-selected stmt visit_kind infos t)
          | inl d ↦ rw (e, d) (collect_stmt-selected stmt visit_kind infos _)
        ]
      ]

  filter_all-only_required :
      (cbs : List (AnalysisCallBack (Ex × Bool) Cx)) (args : Ex × Bool) (ctx : Cx)
      → filter_all m cbs args ctx ≡ call_all (only_required m.required cbs) args ctx
  unfolding filter_all is_analysis_required
  filter_all-only_required [] args ctx = refl
  filter_all-only_required (cb ∷ cbs) args ctx = elim (Bool-cases (has_key cb.get_id m.required)) [
    | inl e ↦ rw e (filter_all-only_required cbs args (cb.callback args ctx))
    | inr e ↦ rw e (filter_all-only_required cbs args ctx)
  ]

  -- A run for a statement, for the beginning or for the end of a function ends. It calls, in the
  -- manager's order, the first callback of each required analysis that has one for it (for a
  -- statement: of its kind, and matching). A filter of a condition calls the callbacks of the
  -- required analyses in the order of registration.
  pub run_analyses_lem :
      (ctx : Cx) (stmt : St) (visit_kind : VisitStmtKind) (node : Nd) (expr : Ex) (result : Bool)
      → (run_analyses_for_stmt m ctx stmt visit_kind
          ≡ some (
              call_all
                (scheduled
                  (chosen m.required (selected stmt visit_kind m.stmt_analyses))
                  m.full_order)
                stmt
                ctx))
        × ((run_analyses_for_begin_function m ctx
              ≡ some (
                  call_all
                    (scheduled (chosen m.required m.begin_function_analyses) m.full_order)
                    tt
                    ctx))
            × ((run_analyses_for_end_function m ctx node
                  ≡ some (
                      call_all
                        (scheduled (chosen m.required m.end_function_analyses) m.full_order)
                        node
                        ctx))
                × (run_analyses_for_condition_filter m ctx expr result
                    ≡ call_all (only_required m.required m.condition_filters) (expr, result) ctx)))
  unfolding run_analyses_for_stmt run_analyses_for_begin_function run_analyses_for_end_function
      run_analyses_for_condition_filter
  run_analyses_lem ctx stmt visit_kind node expr result = (
    rw (collect_stmt-selected stmt visit_kind m.stmt_analyses ([], []))
        (ordered_lem m (selected stmt visit_kind m.stmt_analyses) stmt ctx),
    (
      ordered_lem m m.begin_function_analyses tt ctx,
      (
        ordered_lem m m.end_function_analyses node ctx,
        filter_all-only_required m.condition_filters (expr, result) ctx,
      ),
    ),
  )
