-- ===== src/MapDom.antt =====
-- analyzer/include/analyzer/core/domain/map/map_domain.hpp: the class `MapDom`, an abstract value for
-- each key. The class of the values is a template parameter: `MapValues` holds its operations. A read
-- through the end of the table is `none`.
pub mod Sizes
pub mod Upper
mod Tests
use knight.Prelude.{
  ℕ, Bool, true, false, not, ◌&&◌, Option, none, some, List, [], ◌∷◌, length, if◌then◌else◌, all,
  ltb, ◌==◌,
}
use knight.Prelude.Assoc.{find, put, erase}
use knight.Separate.{merge_tables}

pub record MapValues (V : Type 0) : Type 0 where
  pub bottom_val : V
  pub default_val : V
  pub is_bottom_val : V → Bool
  pub is_top_val : V → Bool
  pub join_val : V → V → V
  pub join_at_loop_head_val : V → V → V
  pub join_consecutive_iter_val : V → V → V
  pub widen_val : V → V → V
  pub meet_val : V → V → V
  pub narrow_val : V → V → V
  pub leq_val : V → V → Bool
  pub equals_val : V → V → Bool

pub record MapDom (V : Type 0) : Type 0 where
  pub table : List (ℕ × V)
  pub bottom_flag : Bool

module _ {V : Type 0} where
  unfoldable pub forget : MapDom V → ℕ → MapDom V
  forget d key = if d.bottom_flag then d else record d { table = erase key d.table }

  unfoldable pub is_top : MapDom V → Bool
  is_top d = not d.bottom_flag && length d.table == 0

  unfoldable pub set_to_bottom : MapDom V → MapDom V
  set_to_bottom d = record { table = []; bottom_flag = true }

  unfoldable pub set_to_top : MapDom V → MapDom V
  set_to_top d = record { table = []; bottom_flag = false }

  -- The upward operations, by what they do to two values of a key.
  unfoldable pub merge_up : (V → V → V) → MapDom V → MapDom V → MapDom V
  unfolding merge_tables
  merge_up f d e =
      if e.bottom_flag
      then d
      else (if d.bottom_flag then e else record d { table = merge_tables f d.table e.table })

module _ {V : Type 0} (ops : MapValues V) where
  unfoldable pub get_value : MapDom V → ℕ → V
  get_value d key =
      if d.bottom_flag
      then ops.bottom_val
      else (elim (find key d.table) [ some v ↦ v | none ↦ ops.default_val ])

  unfoldable pub set_value : MapDom V → ℕ → V → MapDom V
  unfolding forget set_to_bottom
  set_value d key value =
      if d.bottom_flag
      then d
      else (if ops.is_bottom_val value
          then set_to_bottom d
          else (if ops.is_top_val value
              then forget d key
              else record d { table = put key value d.table }))

  -- The source does not return after `set_to_bottom`, and uses the iterator of a missing key.
  unfoldable pub meet_value : MapDom V → ℕ → V → Option (MapDom V)
  unfolding set_to_bottom
  meet_value d key value =
      if d.bottom_flag
      then some d
      else (let d1 = if ops.is_bottom_val value then set_to_bottom d else d in
          if ops.is_top_val value then some d1 else (elim (find key d1.table) [
            | none ↦ none
            | some u ↦ some (record d1 { table = put key (ops.meet_val u value) d1.table })
          ]))

  unfoldable pub join_with : MapDom V → MapDom V → MapDom V
  unfolding merge_up
  join_with d e = merge_up ops.join_val d e

  unfoldable pub join_with_at_loop_head : MapDom V → MapDom V → MapDom V
  unfolding merge_up
  join_with_at_loop_head d e = merge_up ops.join_at_loop_head_val d e

  unfoldable pub join_consecutive_iter_with : MapDom V → MapDom V → MapDom V
  unfolding merge_up
  join_consecutive_iter_with d e = merge_up ops.join_consecutive_iter_val d e

  unfoldable pub widen_with : MapDom V → MapDom V → MapDom V
  unfolding merge_up
  widen_with d e = merge_up ops.widen_val d e

  unfoldable pub leq_entry : List (ℕ × V) → ℕ × V → Bool
  leq_entry m (key, value) = elim (find key m) [ none ↦ false | some u ↦ ops.leq_val value u ]

  unfoldable pub leq : MapDom V → MapDom V → Bool
  unfolding leq_entry
  leq d e =
      if d.bottom_flag
      then true
      else (if e.bottom_flag
          then false
          else (if ltb (length e.table) (length d.table)
              then false
              else all (leq_entry e.table) d.table))

  unfoldable pub equals_entry : List (ℕ × V) → ℕ × V → Bool
  equals_entry m (key, value) = elim (find key m) [ none ↦ false | some u ↦ ops.equals_val value u ]

  unfoldable pub equals : MapDom V → MapDom V → Bool
  unfolding equals_entry
  equals d e =
      if d.bottom_flag
      then e.bottom_flag
      else (if e.bottom_flag
          then false
          else (if not (length d.table == length e.table)
              then false
              else all (equals_entry e.table) d.table))
