-- ===== src/Analyses/Order.antt =====
-- analysis_manager.cpp: `compute_topological_order`, Kahn's algorithm over the analyses.
use knight.Prelude.{
  ℕ, zero, suc, ◌+◌, Bool, true, false, Option, none, some, ◌>>=◌, List, [], ◌∷◌, ◌++◌, length,
  if◌then◌else◌, ◌==◌,
}
use knight.Prelude.Int.{ℤ, pos, negsuc, ◌+ℤ◌, ◌-ℤ◌}
use knight.Prelude.Assoc.{find, put}
use knight.Discrete.{has_key}
use knight.Analyses.{AnalysisManager, set_at, size_of}

-- `in_degree[id]`, which is 0 for a new key.
unfoldable pub degree_at : ℕ → List (ℕ × ℤ) → ℤ
degree_at id in_degree = elim (find id in_degree) [ none ↦ pos 0 | some n ↦ n ]

unfoldable pub is_int_zero : ℤ → Bool
is_int_zero (pos zero) = true
is_int_zero (pos (suc n)) = false
is_int_zero (negsuc n) = false

-- The loop that sets the counts to 0.
unfoldable pub start_degrees : List ℕ → List (ℕ × ℤ) → List (ℕ × ℤ)
start_degrees [] in_degree = in_degree
start_degrees (id ∷ all_ids) in_degree = start_degrees all_ids (put id (pos 0) in_degree)

-- The loop over the dependencies of one analysis, and that over all of them.
unfoldable pub count_deps : List ℕ → List (ℕ × ℤ) → List (ℕ × ℤ)
unfolding degree_at
count_deps [] in_degree = in_degree
count_deps (dep ∷ deps) in_degree =
    count_deps deps (put dep (degree_at dep in_degree +ℤ pos 1) in_degree)

unfoldable pub count_all : List (ℕ × List ℕ) → List (ℕ × ℤ) → List (ℕ × ℤ)
unfolding count_deps
count_all [] in_degree = in_degree
count_all ((id, deps) ∷ dependencies) in_degree = count_all dependencies (count_deps deps in_degree)

unfoldable pub zero_ids : List ℕ → List (ℕ × ℤ) → List ℕ
unfolding degree_at is_int_zero
zero_ids [] in_degree = []
zero_ids (id ∷ all_ids) in_degree =
    let rest = zero_ids all_ids in_degree in
    if is_int_zero (degree_at id in_degree) then id ∷ rest else rest

-- The loop over the neighbors of the current analysis.
unfoldable pub release : List ℕ → List (ℕ × ℤ) → List ℕ → List (ℕ × ℤ) × List ℕ
unfolding degree_at is_int_zero
release [] in_degree q = (in_degree, q)
release (neighbor ∷ neighbors) in_degree q =
    let left = degree_at neighbor in_degree -ℤ pos 1 in
    release neighbors (put neighbor left in_degree)
      (if is_int_zero left then q ++ (neighbor ∷ []) else q)

-- The `while` loop: the queue, the counts and the analyses sorted so far.
unfoldable pub sort_queue : ℕ → List (ℕ × List ℕ) → List ℕ → List (ℕ × ℤ) → List ℕ → Option (List ℕ)
unfolding release set_at has_key
sort_queue _ dependencies [] in_degree sorted_ids = some sorted_ids
sort_queue zero dependencies (current ∷ q) in_degree sorted_ids = none
sort_queue (suc fuel) dependencies (current ∷ q) in_degree sorted_ids =
    let released = release (set_at current dependencies) in_degree q in
    sort_queue fuel dependencies released.1 released.0
      (if has_key current sorted_ids then sorted_ids else sorted_ids ++ (current ∷ []))

-- The run of the loop from the counts of the start.
unfoldable pub sort_all : List (ℕ × List ℕ) → List ℕ → List ℕ → Option (List ℕ)
unfolding sort_queue zero_ids count_all start_degrees size_of
sort_all dependencies all_ids privileged_ids =
    let in_degree = count_all dependencies (start_degrees all_ids []) in
    sort_queue (length all_ids + size_of dependencies) dependencies (zero_ids all_ids in_degree)
      in_degree privileged_ids

-- The assertion holds if there is no cycle.
unfoldable pub compute_topological_order : List (ℕ × List ℕ) → List ℕ → List ℕ → Option (List ℕ)
unfolding sort_all
compute_topological_order dependencies all_ids privileged_ids = do
  sorted_ids ← sort_all dependencies all_ids privileged_ids
  if length sorted_ids == length all_ids then some sorted_ids else none

module _ {St Ex Nd Cx : Type 0} where
  unfoldable pub compute_full_order_analyses_after_registry :
      AnalysisManager St Ex Nd Cx → Option (AnalysisManager St Ex Nd Cx)
  unfolding compute_topological_order
  compute_full_order_analyses_after_registry m = do
    full_order ← compute_topological_order m.dependencies m.analyses m.privileged
    some (record m { full_order = full_order })
