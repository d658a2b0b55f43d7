-- ===== src/Separate.antt =====
-- analyzer/include/analyzer/core/domain/map/separate_numerical_domain.hpp: the class
-- `SeparateNumericalDom`, one numerical value for each variable. A variable without an entry has the
-- default value.
--
-- The class of the values is a template parameter: `Values` holds its operations.
pub mod Transfer
pub mod Lookup
pub mod Laws
pub mod Concrete
pub mod Meets
pub mod Assign
pub mod MeetValue
pub mod OfIntervals
mod Tests
use knight.Prelude.{
  Bool, true, false, not, ◌&&◌, Option, none, some, List, [], ◌∷◌, if◌then◌else◌, all, ◌>>=◌,
}
use knight.Prelude.Assoc.{find, put, erase}
use knight.Num.{ZNum}
use knight.Linear.{Var}

-- The operations of the class `SeparateNumericalValue`.
pub record Values (V : Type 0) : Type 0 where
  pub bottom_val : V
  pub default_val : V
  pub is_bottom_val : V → Bool
  pub is_top_val : V → Bool
  pub join_val : V → V → V
  pub join_at_loop_head_val : V → V → V
  pub join_consecutive_iter_val : V → V → V
  pub widen_val : V → V → V
  pub meet_val : V → V → V
  pub narrow_val : V → V → V
  pub widen_threshold_val : V → V → ZNum → Option V
  pub narrow_threshold_val : V → V → ZNum → V
  pub leq_val : V → V → Bool
  pub equals_val : V → V → Bool
  pub of_num : ZNum → V
  pub add_assign_val : V → V → Option V
  pub add_val : V → V → Option V
  pub sub_val : V → V → Option V
  pub mul_val : V → V → Option V
  pub div_val : V → V → Option V
  pub rem_val : V → V → Option V
  pub shl_val : V → V → Option V
  pub shr_val : V → V → Option V
  pub and_val : V → V → Option V
  pub or_val : V → V → Option V
  pub xor_val : V → V → Option V

pub record Dom (V : Type 0) : Type 0 where
  pub table : List (Var × V)
  pub bottom_flag : Bool

module _ {V : Type 0} where
  unfoldable pub top_dom : Dom V
  top_dom = record { table = []; bottom_flag = false }

  unfoldable pub bottom_dom : Dom V
  bottom_dom = record { table = []; bottom_flag = true }

  unfoldable pub forget : Dom V → Var → Dom V
  forget d x = if d.bottom_flag then d else record d { table = erase x d.table }

  unfoldable pub is_top_dom : Dom V → Bool
  is_top_dom d = not d.bottom_flag && (elim d.table [ [] ↦ true | _ ↦ false ])

  unfoldable pub set_to_bottom : Dom V → Dom V
  set_to_bottom d = record { table = []; bottom_flag = true }

  unfoldable pub set_to_top : Dom V → Dom V
  set_to_top d = record { table = []; bottom_flag = false }

  -- The body of the loops over `other.m_table`: a new entry, or one updated in place.
  unfoldable pub merge_entry : (V → V → V) → List (Var × V) → Var → V → List (Var × V)
  merge_entry f m k v = elim (find k m) [ none ↦ put k v m | some u ↦ put k (f u v) m ]

  unfoldable pub merge_tables : (V → V → V) → List (Var × V) → List (Var × V) → List (Var × V)
  unfolding merge_entry
  merge_tables f m [] = m
  merge_tables f m ((k, v) ∷ other) = merge_tables f (merge_entry f m k v) other

  -- The upward operations: `*this = other` for a bottom `*this`.
  unfoldable pub merge_up : (V → V → V) → Dom V → Dom V → Dom V
  unfolding merge_tables
  merge_up f d e =
      if e.bottom_flag
      then d
      else (if d.bottom_flag then e else record d { table = merge_tables f d.table e.table })

module _ {V : Type 0} (ops : Values V) where
  unfoldable pub get_value : Dom V → Var → V
  get_value d k =
      if d.bottom_flag
      then ops.bottom_val
      else (elim (find k d.table) [ some v ↦ v | none ↦ ops.default_val ])

  unfoldable pub set_value : Dom V → Var → V → Dom V
  unfolding forget set_to_bottom
  set_value d k v =
      if d.bottom_flag
      then d
      else (if ops.is_bottom_val v
          then set_to_bottom d
          else (if ops.is_top_val v then forget d k else record d { table = put k v d.table }))

  -- The update of a present entry by a downward operation, and the loop's early return.
  unfoldable pub meet_entry : Dom V → Var → V → Dom V
  unfolding set_to_bottom
  meet_entry d k w =
      let d1 = record d { table = put k w d.table } in
      if ops.is_bottom_val w then set_to_bottom d1 else d1

  unfoldable pub meet_value : Dom V → Var → V → Dom V
  unfolding set_to_bottom set_value meet_entry
  meet_value d k v =
      if d.bottom_flag
      then d
      else (let d1 = if ops.is_bottom_val v then set_to_bottom d else d in
          if ops.is_top_val v then d1 else (elim (find k d1.table) [
            | none ↦ set_value d1 k v
            | some u ↦ meet_entry d1 k (ops.meet_val u v)
          ]))

  unfoldable pub join_with : Dom V → Dom V → Dom V
  unfolding merge_up
  join_with d e = merge_up ops.join_val d e

  unfoldable pub join_with_at_loop_head : Dom V → Dom V → Dom V
  unfolding merge_up
  join_with_at_loop_head d e = merge_up ops.join_at_loop_head_val d e

  unfoldable pub join_consecutive_iter_with : Dom V → Dom V → Dom V
  unfolding merge_up
  join_consecutive_iter_with d e = merge_up ops.join_consecutive_iter_val d e

  unfoldable pub widen_with : Dom V → Dom V → Dom V
  unfolding merge_up
  widen_with d e = merge_up ops.widen_val d e

  -- The loop of `widen_with_threshold`.
  unfoldable pub threshold_tables : ZNum → List (Var × V) → List (Var × V) → Option (List (Var × V))
  threshold_tables t m [] = some m
  threshold_tables t m ((k, v) ∷ other) = elim (find k m) [
    | none ↦ threshold_tables t (put k v m) other
    | some u ↦ (do w ← ops.widen_threshold_val u v t; threshold_tables t (put k w m) other)
  ]

  unfoldable pub widen_with_threshold : Dom V → Dom V → ZNum → Option (Dom V)
  unfolding threshold_tables
  widen_with_threshold d e t =
      if e.bottom_flag
      then some d
      else (if d.bottom_flag
          then some e
          else (do m ← threshold_tables t d.table e.table; some (record d { table = m })))

  -- The loops that stop at the first entry that becomes bottom.
  unfoldable pub meet_tables : (V → V → V) → List (Var × V) → List (Var × V) → Dom V
  unfolding bottom_dom
  meet_tables f m [] = record { table = m; bottom_flag = false }
  meet_tables f m ((k, v) ∷ other) = elim (find k m) [
    | none ↦ meet_tables f (put k v m) other
    | some u ↦ elim (ops.is_bottom_val (f u v)) [
      | true ↦ bottom_dom
      | false ↦ meet_tables f (put k (f u v) m) other
    ]
  ]

  -- The downward operations: `*this = other` for a bottom `other`.
  unfoldable pub merge_down : (V → V → V) → Dom V → Dom V → Dom V
  unfolding meet_tables
  merge_down f d e =
      if d.bottom_flag then d else (if e.bottom_flag then e else meet_tables f d.table e.table)

  unfoldable pub meet_with : Dom V → Dom V → Dom V
  unfolding merge_down
  meet_with d e = merge_down ops.meet_val d e

  unfoldable pub narrow_with : Dom V → Dom V → Dom V
  unfolding merge_down
  narrow_with d e = merge_down ops.narrow_val d e

  unfoldable pub narrow_with_threshold : Dom V → Dom V → ZNum → Dom V
  unfolding merge_down
  narrow_with_threshold d e t = merge_down (λ u v. ops.narrow_threshold_val u v t) d e

  -- A bottom value is stored after `set_to_bottom`: the source does not return there.
  unfoldable pub refine : Dom V → Var → V → Dom V
  unfolding set_to_bottom meet_entry
  refine d x v =
      if d.bottom_flag
      then d
      else (if ops.is_top_val v
          then d
          else (let d1 = if ops.is_bottom_val v then set_to_bottom d else d in
              elim (find x d1.table) [
                | none ↦ record d1 { table = put x v d1.table }
                | some u ↦ meet_entry d1 x (ops.meet_val u v)
              ]))

  unfoldable pub leq_entry : List (Var × V) → Var × V → Bool
  leq_entry m (k, v) = elim (find k m) [ none ↦ ops.is_bottom_val v | some u ↦ ops.leq_val v u ]

  unfoldable pub leq : Dom V → Dom V → Bool
  unfolding leq_entry
  leq d e =
      if d.bottom_flag
      then true
      else (if e.bottom_flag then false else all (leq_entry e.table) d.table)

  unfoldable pub equals_entry : List (Var × V) → Var × V → Bool
  equals_entry m (k, v) = elim (find k m) [
    | none ↦ ops.is_bottom_val v
    | some u ↦ ops.equals_val v u
  ]

  -- The second loop of `equals`: what only `other` has is bottom.
  unfoldable pub known_entry : List (Var × V) → Var × V → Bool
  known_entry m (k, v) = elim (find k m) [ none ↦ ops.is_bottom_val v | some u ↦ true ]

  unfoldable pub equals : Dom V → Dom V → Bool
  unfolding equals_entry known_entry
  equals d e =
      if d.bottom_flag
      then e.bottom_flag
      else (if e.bottom_flag
          then false
          else all (equals_entry e.table) d.table && all (known_entry d.table) e.table)
