-- ===== src/Fixpoint/Inputs.antt =====
-- What the fixpoint iterator calls: the operations of `ProgramState`, the control flow graph, the virtual
-- transfer functions of the iterator's client and the options of the analyzer.
use knight.Prelude.{ℕ, Bool, true, false, Option, none, some, List}
use knight.Prelude.Int.{pos, ◌+ℤ◌, ◌-ℤ◌}
use knight.Num.{ZNum}
use knight.Wto.{NodeRef}

-- analyzer/include/analyzer/core/analyzer_options.hpp. The counts are not negative.
pub record AnalyzerOptions : Type 0 where
  pub widening_delay : ℕ
  pub max_widening_iterations : ℕ
  pub max_narrowing_iterations : ℕ
  pub analyze_with_threshold : Bool

abbrev pub default_options : AnalyzerOptions
default_options = record {
  widening_delay = 1;
  max_widening_iterations = 5;
  max_narrowing_iterations = 5;
  analyze_with_threshold = false;
}

-- The last condition of a block, without its parentheses and implicit casts, as `get_threshold` tells
-- the kinds apart. An operand of a comparison has the number that clang evaluates it to, if it does.
pub data ComparisonOpcode : Type 0 where
  bo_lt bo_gt other_comparison : ComparisonOpcode

pub data Condition : Type 0 where
  decl_ref : Condition
  logical_not : Condition
  comparison : ComparisonOpcode → Option ℕ → Option ℕ → Condition
  other_condition : Condition

-- The change of the threshold under a strict comparison; the first argument is `lhs_cst`.
unfoldable pub shift_threshold : Bool → ComparisonOpcode → ZNum → ZNum
shift_threshold true bo_lt threshold = threshold +ℤ pos 1
shift_threshold false bo_lt threshold = threshold -ℤ pos 1
shift_threshold true bo_gt threshold = threshold -ℤ pos 1
shift_threshold false bo_gt threshold = threshold +ℤ pos 1
shift_threshold lhs_cst other_comparison threshold = threshold

unfoldable pub condition_threshold : Condition → Option ZNum
unfolding shift_threshold
condition_threshold decl_ref = some (pos 0)
condition_threshold logical_not = some (pos 0)
condition_threshold (comparison op (some c) rhs) = some (shift_threshold true op (pos c))
condition_threshold (comparison op none (some c)) = some (shift_threshold false op (pos c))
condition_threshold (comparison op none none) = none
condition_threshold other_condition = none

pub record Analysis (S : Type 0) : Type 0 where
  -- `ProgramState`.
  pub bottom : S
  pub join : S → S → S
  pub join_at_loop_head : S → S → S
  pub join_consecutive_iter : S → S → S
  pub widen : S → S → S
  pub widen_with_threshold : S → S → ZNum → S
  pub narrow : S → S → S
  pub narrow_with_threshold : S → S → ZNum → S
  pub leq : S → S → Bool
  pub normalize : S → S
  -- `GraphTrait`.
  pub entry : NodeRef
  pub preds : NodeRef → List NodeRef
  pub last_condition : NodeRef → Option Condition
  -- The client.
  pub transfer_node : NodeRef → S → S
  pub transfer_edge : NodeRef → NodeRef → S → S
  pub options : AnalyzerOptions

module _ {S : Type 0} (a : Analysis S) where
  unfoldable pub get_threshold : NodeRef → Option ZNum
  unfolding condition_threshold
  get_threshold head = elim (a.last_condition head) [
    | none ↦ none
    | some cond ↦ condition_threshold cond
  ]
