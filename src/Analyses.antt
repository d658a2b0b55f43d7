-- ===== src/Analyses.antt =====
-- analyzer/include/analyzer/core/analysis_manager.hpp, analyzer/src/core/analysis_manager.cpp,
-- analyzer/src/core/checker_manager.cpp and analyzer/src/tooling/knight.cpp: which analyses are
-- required, and in which order the callbacks of the required ones are called.
--
-- Analyses and checkers are their identifiers. `St` is a statement, `Ex` an expression, `Nd` a node and
-- `Cx` the context that a callback changes. A null pointer that is called is `none`.
pub mod Order
pub mod Degrees
pub mod Pending
pub mod Queue
pub mod Places
pub mod Kahn
pub mod Sorted
pub mod Required
pub mod Targets
pub mod Schedule
pub mod Startup
pub mod Created
pub mod Started
mod Tests
use knight.Prelude.{
  ℕ, zero, suc, ◌+◌, Bool, true, false, not, ◌&&◌, ◌||◌, Option, none, some, ◌>>=◌, List, [], ◌∷◌,
  ◌++◌, length, if◌then◌else◌, ◌==◌,
}
use knight.Prelude.Assoc.{find, put}
use knight.Discrete.{has_key, insert_key}

pub data VisitStmtKind : Type 0 where
  pre eval post : VisitStmtKind

unfoldable pub same_visit_kind : VisitStmtKind → VisitStmtKind → Bool
same_visit_kind pre pre = true
same_visit_kind eval eval = true
same_visit_kind post post = true
same_visit_kind _ _ = false

-- `AnalysisCallBack`: its identifier, and the call with arguments `Ar` that changes the context.
pub record AnalysisCallBack (Ar Cx : Type 0) : Type 0 where
  pub get_id : ℕ
  pub callback : Ar → Cx → Cx

pub record StmtAnalysisInfo (St Cx : Type 0) : Type 0 where
  pub anz_cb : AnalysisCallBack St Cx
  pub match_cb : St → Bool
  pub kind : VisitStmtKind

pub record AnalysisManager (St Ex Nd Cx : Type 0) : Type 0 where
  pub analyses : List ℕ
  pub full_order : List ℕ
  pub dependencies : List (ℕ × List ℕ)
  pub privileged : List ℕ
  pub required : List ℕ
  pub enabled_analyses : List ℕ
  pub begin_function_analyses : List (AnalysisCallBack Unit Cx)
  pub end_function_analyses : List (AnalysisCallBack Nd Cx)
  pub stmt_analyses : List (StmtAnalysisInfo St Cx)
  pub condition_filters : List (AnalysisCallBack (Ex × Bool) Cx)

-- What the map `analysis -> set` has for a key, the empty set where it has no entry.
unfoldable pub set_at : ℕ → List (ℕ × List ℕ) → List ℕ
set_at id m = elim (find id m) [ none ↦ [] | some ids ↦ ids ]

-- `get_subset_order`.
unfoldable pub get_subset_order : List ℕ → List ℕ → List ℕ
unfolding has_key
get_subset_order [] subset = []
get_subset_order (id ∷ full_order) subset =
    let res = get_subset_order full_order subset in if has_key id subset then id ∷ res else res

-- `std::unordered_map::emplace`, which keeps an entry that is there.
unfoldable pub emplace {ℓ} : {A : Type ℓ} → ℕ → A → List (ℕ × A) → List (ℕ × A)
emplace k v [] = (k, v) ∷ []
emplace k v ((j, w) ∷ m) = let rest = emplace k v m in if j == k then (j, w) ∷ m else (j, w) ∷ rest

-- The loop of `compute_all_required_analyses_by_dependencies`: `q`, `visited` and the required ones.
unfoldable pub require_queue : ℕ → List (ℕ × List ℕ) → List ℕ → List ℕ → List ℕ → Option (List ℕ)
unfolding has_key insert_key set_at
require_queue _ dependencies [] visited required = some required
require_queue zero dependencies (id ∷ q) visited required = none
require_queue (suc fuel) dependencies (id ∷ q) visited required =
    let skip = require_queue fuel dependencies q visited required in
    let visit =
      require_queue fuel dependencies (q ++ set_at id dependencies) (insert_key id visited)
        (insert_key id required) in
    if has_key id visited then skip else visit

-- The number of dependencies that are listed.
unfoldable pub size_of : List (ℕ × List ℕ) → ℕ
size_of [] = 0
size_of ((id, ids) ∷ m) = length ids + size_of m

-- The loop over the ordered targets. `operator[]` gives a null pointer for a missing key.
unfoldable pub call_ordered :
    {Ar Cx : Type 0} → List ℕ → List (ℕ × AnalysisCallBack Ar Cx) → Ar → Cx → Option Cx
call_ordered [] callbacks args ctx = some ctx
call_ordered (id ∷ ids) callbacks args ctx = do
  cb ← find id callbacks
  call_ordered ids callbacks args (cb.callback args ctx)

module _ {St Ex Nd Cx : Type 0} where
  unfoldable pub is_analysis_required : AnalysisManager St Ex Nd Cx → ℕ → Bool
  unfolding has_key
  is_analysis_required m id = has_key id m.required

  unfoldable pub add_required_analysis :
      AnalysisManager St Ex Nd Cx → ℕ → AnalysisManager St Ex Nd Cx
  unfolding insert_key
  add_required_analysis m id = record m { required = insert_key id m.required }

  unfoldable pub get_analysis_dependencies : AnalysisManager St Ex Nd Cx → ℕ → List ℕ
  unfolding set_at
  get_analysis_dependencies m id = set_at id m.dependencies

  unfoldable pub set_analysis_privileged :
      AnalysisManager St Ex Nd Cx → ℕ → AnalysisManager St Ex Nd Cx
  unfolding insert_key
  set_analysis_privileged m id = record m {
    privileged = insert_key id m.privileged;
    required = insert_key id m.required;
  }

  unfoldable pub register_for_stmt :
      AnalysisManager St Ex Nd Cx
      → AnalysisCallBack St Cx
      → (St → Bool)
      → VisitStmtKind
      → AnalysisManager St Ex Nd Cx
  register_for_stmt m cb match_cb kind = record m {
    stmt_analyses =
        m.stmt_analyses ++ (record { anz_cb = cb; match_cb = match_cb; kind = kind } ∷ []);
  }

  unfoldable pub register_for_begin_function :
      AnalysisManager St Ex Nd Cx → AnalysisCallBack Unit Cx → AnalysisManager St Ex Nd Cx
  register_for_begin_function m cb = record m {
    begin_function_analyses = m.begin_function_analyses ++ (cb ∷ []);
  }

  unfoldable pub register_for_end_function :
      AnalysisManager St Ex Nd Cx → AnalysisCallBack Nd Cx → AnalysisManager St Ex Nd Cx
  register_for_end_function m cb = record m {
    end_function_analyses = m.end_function_analyses ++ (cb ∷ []);
  }

  unfoldable pub register_for_condition_filter :
      AnalysisManager St Ex Nd Cx → AnalysisCallBack (Ex × Bool) Cx → AnalysisManager St Ex Nd Cx
  register_for_condition_filter m cb = record m {
    condition_filters = m.condition_filters ++ (cb ∷ []);
  }

  unfoldable pub compute_all_required_analyses_by_dependencies :
      AnalysisManager St Ex Nd Cx → Option (AnalysisManager St Ex Nd Cx)
  unfolding require_queue size_of
  compute_all_required_analyses_by_dependencies m = do
    required ←
        require_queue (length m.required + size_of m.dependencies) m.dependencies m.required []
          m.required
    some (record m { required = required })

  -- The targets of a run and the first callback of each: the loop at the head of the
  -- `run_analyses_for_*` that take their callbacks in the order of `m_analysis_full_order`.
  unfoldable pub collect :
      {Ar : Type 0}
      → AnalysisManager St Ex Nd Cx
      → List (AnalysisCallBack Ar Cx)
      → List ℕ × List (ℕ × AnalysisCallBack Ar Cx)
      → List ℕ × List (ℕ × AnalysisCallBack Ar Cx)
  unfolding is_analysis_required insert_key emplace
  collect m [] targets = targets
  collect m (info ∷ infos) (tgt_ids, callbacks) =
      let id = info.get_id in
      collect m infos (
        if is_analysis_required m id
        then (insert_key id tgt_ids, emplace id info callbacks)
        else (tgt_ids, callbacks))

  -- The same loop over the callbacks for statements, with its `continue`.
  unfoldable pub collect_stmt :
      AnalysisManager St Ex Nd Cx
      → St
      → VisitStmtKind
      → List (StmtAnalysisInfo St Cx)
      → List ℕ × List (ℕ × AnalysisCallBack St Cx)
      → List ℕ × List (ℕ × AnalysisCallBack St Cx)
  unfolding is_analysis_required insert_key emplace same_visit_kind
  collect_stmt m stmt visit_kind [] targets = targets
  collect_stmt m stmt visit_kind (info ∷ infos) (tgt_ids, callbacks) =
      let callback = info.anz_cb in
      collect_stmt m stmt visit_kind infos (
        if not (same_visit_kind info.kind visit_kind) || not (info.match_cb stmt)
        then (tgt_ids, callbacks)
        else (if is_analysis_required m callback.get_id
            then (insert_key callback.get_id tgt_ids, emplace callback.get_id callback callbacks)
            else (tgt_ids, callbacks)))

  unfoldable pub run_analyses_for_stmt :
      AnalysisManager St Ex Nd Cx → Cx → St → VisitStmtKind → Option Cx
  unfolding collect_stmt get_subset_order call_ordered
  run_analyses_for_stmt m ctx stmt visit_kind =
      let targets = collect_stmt m stmt visit_kind m.stmt_analyses ([], []) in
      call_ordered (get_subset_order m.full_order targets.0) targets.1 stmt ctx

  unfoldable pub run_analyses_for_begin_function : AnalysisManager St Ex Nd Cx → Cx → Option Cx
  unfolding collect get_subset_order call_ordered
  run_analyses_for_begin_function m ctx =
      let targets = collect m m.begin_function_analyses ([], []) in
      call_ordered (get_subset_order m.full_order targets.0) targets.1 tt ctx

  unfoldable pub run_analyses_for_end_function : AnalysisManager St Ex Nd Cx → Cx → Nd → Option Cx
  unfolding collect get_subset_order call_ordered
  run_analyses_for_end_function m ctx node =
      let targets = collect m m.end_function_analyses ([], []) in
      call_ordered (get_subset_order m.full_order targets.0) targets.1 node ctx

  -- The loop of `run_analyses_for_condition_filter`, in the order of registration.
  unfoldable pub filter_all :
      AnalysisManager St Ex Nd Cx → List (AnalysisCallBack (Ex × Bool) Cx) → Ex × Bool → Cx → Cx
  unfolding is_analysis_required
  filter_all m [] args ctx = ctx
  filter_all m (cb ∷ cbs) args ctx =
      filter_all m cbs args (if is_analysis_required m cb.get_id then cb.callback args ctx else ctx)

  unfoldable pub run_analyses_for_condition_filter :
      AnalysisManager St Ex Nd Cx → Cx → Ex → Bool → Cx
  unfolding filter_all
  run_analyses_for_condition_filter m ctx expr assertion_result =
      filter_all m m.condition_filters (expr, assertion_result) ctx

  -- `CheckerManager`: the checkers that are required, and the analyses that each depends on.
  unfoldable pub require_all : AnalysisManager St Ex Nd Cx → List ℕ → AnalysisManager St Ex Nd Cx
  unfolding add_required_analysis
  require_all m [] = m
  require_all m (id ∷ ids) = require_all (add_required_analysis m id) ids

  -- The loop of `add_all_required_analyses_by_checker_dependencies`.
  unfoldable pub require_by_checkers :
      List ℕ → List (ℕ × List ℕ) → AnalysisManager St Ex Nd Cx → AnalysisManager St Ex Nd Cx
  unfolding has_key require_all
  require_by_checkers required_checkers [] m = m
  require_by_checkers required_checkers ((checker_id, analysis_ids) ∷ rest) m =
      require_by_checkers required_checkers rest
        (if has_key checker_id required_checkers then require_all m analysis_ids else m)

  -- The steps of `create_ast_consumer` between the creation of the checkers and that of the analyses:
  -- they decide which analyses are required, from what the checker manager then has.
  unfoldable pub require_analyses :
      List ℕ
      → List (ℕ × List ℕ)
      → List ℕ
      → List ℕ
      → AnalysisManager St Ex Nd Cx
      → Option (AnalysisManager St Ex Nd Cx)
  unfolding require_by_checkers require_all compute_all_required_analyses_by_dependencies
  require_analyses required_checkers checker_dependencies directly_enabled core_enabled m =
      compute_all_required_analyses_by_dependencies (
        require_all
          (require_all (require_by_checkers required_checkers checker_dependencies m)
            directly_enabled)
          core_enabled)
