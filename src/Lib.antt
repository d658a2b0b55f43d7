-- ===== src/Lib.antt =====
-- Knight, a static analyzer for C and C++ programs: the numerical abstract domains that its fixpoint
-- engine computes with, the solver of linear constraints over intervals, the order in which the
-- engine visits a graph, the engine itself, and the manager that schedules the analyses.
--
-- The parts and how they interact. `ZNum` (an integer of any size, over GMP) is the number of every
-- domain. `Bound` adds the infinities to it, and `Interval` is a pair of bounds. `SeparateNumericalDom`
-- keeps one value, such as an interval, for each variable and assigns linear expressions. `IntervalDom`
-- is that domain over intervals; it refines them by linear constraints with a solver that propagates
-- until nothing changes or the work is used up. `DiscreteDom` is a set of keys, `MapDom` a table of abstract values. The engine walks a weak
-- topological order of the control flow graph, joins the states of a domain over the edges, widens and
-- narrows them at the heads of cycles, and then shows each node's states to the checkers. What a
-- statement does to a state is asked of the analyses, which `AnalysisManager` runs in an order of its
-- own.
--
-- Files, and the code they model (paths from the root of the repository, where Core is
-- analyzer/include/analyzer/core and Dom is Core/domain):
--   Prelude and its children: Boolean tests, the conditional, the monad of runs that may stop, lists,
--     association lists, and the integers over native numbers.
--   Num: Dom/num/znum.hpp. `ZNum` is ℤ. The calls of GMP that divide, shift or read bits are the
--     record `Gmp`, a parameter of the definitions that use them; Num/Quotient has the law that GMP
--     truncates quotients.
--   Bound: Dom/bound.hpp, class `Bound`. Bound/Order has its order, Bound/Sides the bounds that may
--     be lower or upper bounds of an interval.
--   Interval: Dom/interval.hpp, class `Interval`. Interval/Ops has the products, quotients, remainders,
--     shifts and bitwise operators; Interval/Members the integers of an interval and the invariant;
--     Lattice, Meet, Equality, Widening, Growth, Narrowing, Settling, Sums, Products, Times, Quotients,
--     Divide, Division and Trim the proofs on the operations they are named after.
--   Linear: `LinearExpr` of Core/constraint/linear.hpp; Linear/Build its free operators; Linear/Meaning
--     the value of an expression; Linear/Constraint the constraints and the systems, with Relations (the
--     comparison operators) and Holds (what they say).
--   Separate: Dom/map/separate_numerical_domain.hpp, class `SeparateNumericalDom`; Separate/Transfer its
--     assignments; Laws the interface to the class of the values, which OfIntervals fills; Lookup,
--     Concrete, Meets, MeetValue and Assign the proofs.
--   IntervalDom: the proofs' index. IntervalDom/Solver is `LinearConstraintSystemSolver` of
--     Dom/numerical/interval_dom.tpp, IntervalDom/Ops the operations of `IntervalDom` there and of
--     Dom/numerical/numerical_base.hpp. Live, Narrow, Residual, Pivot, Propagate, Loops, Triggers and Run
--     prove the solver from the refinement of one variable up to its two loops; Constrain, Compare and
--     Assign prove the operations that use it.
--   MapDom: Dom/map/map_domain.hpp, class `MapDom`; Sizes proves its order, Upper the upward operations.
--   Discrete: Dom/set/discrete_domain.hpp, class `DiscreteDom`; Keys and Sets the proofs.
--   Wto: analyzer/include/analyzer/util/wto.hpp, the nestings, the components and the builder of the
--     nestings; Nesting and Builder the proofs.
--   Fixpoint: Core/engine/wto_iterator.hpp, wto_iterator_impl.tpp and iterator.hpp, with the options of
--     Core/analyzer_options.hpp: `WtoBasedFixPointIterator` and its visitors. Inputs is the interface to
--     the domain and the analyses (operations and their laws), which OfIntervals fills for intervals;
--     Concrete the runs of the program; Tables, Vertices, Passes, Flows, Outcomes, Cycles, Stages and
--     Visits the proofs from one node up to the whole order; Runs and Checks what a run ends with.
--   Analyses: analyzer/include/analyzer/core/analysis_manager.hpp and
--     analyzer/src/core/analysis_manager.cpp, class `AnalysisManager`, with what
--     analyzer/src/core/checker_manager.cpp adds to the required analyses; Order is
--     `compute_topological_order`, Startup `create_ast_consumer` of analyzer/src/tooling/knight.cpp with
--     the loops of analyzer/src/tooling/factory.cpp. Pending, Queue and Required prove what is required,
--     Degrees, Places, Kahn and Sorted the order, Created and Started the state in which a run starts,
--     Targets and Schedule the runs of callbacks. What the modules' registry functions do to the
--     managers is a parameter with laws, which `register_analysis` meets.
--   Each Tests file applies the theorems of its part to small data.
--
-- How the code is read. An operation that changes `*this` is a function to the new value. A failed
-- assertion (`knight_assert`, `knight_unreachable`) is `none`; a theorem on such an operation says that
-- it ends (`Returns`). A hash map is an association list and a hash set a list of distinct keys, in the
-- order of iteration; variables, nodes and keys are numbers. Where the solver walks over a hash set,
-- the order of the walk is a parameter, any function on lists; the theorems ask nothing of it.
--
-- Fuel. `Interval::operator/` and `operator>>` call themselves on parts of their operands: they run on
-- fuel, 3 and 2 calls deep, since the parts do not contain zero and no longer split. The solver counts
-- its own work: the loop over small systems runs at most one more than `MaxCycles` times and the loop
-- over large ones stops once the counter is above `m_max_op`, which each round raises. The iterations of
-- a cycle of the order run on `max_widening_iterations + max_narrowing_iterations`, the limits that the
-- code checks itself. `compute_all_required_analyses_by_dependencies` runs on the length of the queue
-- and the number of dependencies: each round takes one key from the queue, and the dependencies of an
-- analysis are queued once. `compute_topological_order` runs on the number of analyses and of
-- dependencies, which is at least the number of keys that ever come into its queue.
--
-- Not modelled: the depth-first search that makes the weak topological order, which the theorems on
-- the engine take as given (`IsOrderOf`); machine integers and rationals; casts of
-- values; dumping and cloning; and the parts that stand on clang and LLVM (regions, symbols, program
-- states, the analyses and checkers themselves, tooling, the call graph extractor).
pub mod Prelude
pub mod Num
pub mod Analyses
pub mod Bound
pub mod Interval
pub mod IntervalDom
pub mod Linear
pub mod Separate
pub mod Discrete
pub mod MapDom
pub mod Wto
pub mod Fixpoint
