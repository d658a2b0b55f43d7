-- ===== src/MapDom/Upper.antt =====
-- map_domain.hpp: the upward operations in the order of `leq`.
use knight.Prelude.{ℕ, ◌≡◌, refl, ◌∙◌, ◌⊎◌, inl, inr, true, false, Bool-cases, Option-cases, List}
use knight.Prelude.Assoc.{find, IsMap}
use knight.Separate.{merge_tables}
use knight.Separate.Lookup.{find-merge_tables, merge_tables-IsMap}
use knight.MapDom.{
  MapValues, MapDom, leq, merge_up, join_with, widen_with, join_with_at_loop_head,
  join_consecutive_iter_with,
}
use knight.MapDom.Sizes.{Below, leq-Below}

-- What the class of the values promises of an upward operation.
pub record IsUpper {V : Type 0} (ops : MapValues V) (f : V → V → V) : Type 0 where
  pub self : (v : V) → ops.leq_val v v ≡ true
  pub left : (u v : V) → ops.leq_val u (f u v) ≡ true
  pub right : (u v : V) → ops.leq_val v (f u v) ≡ true

-- The second is above the first, and its table has each key once.
abbrev pub IsAbove : {V : Type 0} → MapValues V → MapDom V → MapDom V → Type 0
IsAbove ops d r = (leq ops d r ≡ true) × IsMap r.table

module _ {V : Type 0} (ops : MapValues V) where
  module _ (f : V → V → V) (laws : IsUpper ops f) where
    Below-self : (m : List (ℕ × V)) → Below ops m m
    Below-self m k v e = (v, (e, laws.self v))

    Below-left : (m n : List (ℕ × V)) → IsMap n → Below ops m (merge_tables f m n)
    Below-left m n h k v e = elim (Option-cases (find k n)) [
      | inl o ↦ (v, (find-merge_tables f k m n h ∙ rw (e, o) refl, laws.self v))
      | inr (u, o) ↦ (f v u, (find-merge_tables f k m n h ∙ rw (e, o) refl, laws.left v u))
    ]

    Below-right : (m n : List (ℕ × V)) → IsMap n → Below ops n (merge_tables f m n)
    Below-right m n h k v e = elim (Option-cases (find k m)) [
      | inl o ↦ (v, (find-merge_tables f k m n h ∙ rw (o, e) refl, laws.self v))
      | inr (u, o) ↦ (f u v, (find-merge_tables f k m n h ∙ rw (o, e) refl, laws.right u v))
    ]

    up_left : (d e : MapDom V) → e.bottom_flag ≡ true → merge_up f d e ≡ d
    unfolding merge_up
    up_left d e b = rw b refl

    up_right : (d e : MapDom V) → e.bottom_flag ≡ false → d.bottom_flag ≡ true → merge_up f d e ≡ e
    unfolding merge_up
    up_right d e b c = rw (b, c) refl

    up_both :
        (d e : MapDom V)
        → e.bottom_flag ≡ false
        → d.bottom_flag ≡ false
        → merge_up f d e ≡ record d { table = merge_tables f d.table e.table }
    unfolding merge_up
    up_both d e b c = rw (b, c) refl

    merge_up-IsAbove :
        (d e : MapDom V)
        → IsMap d.table
        → IsMap e.table
        → IsAbove ops d (merge_up f d e) × IsAbove ops e (merge_up f d e)
    merge_up-IsAbove d e h g = elim (Bool-cases e.bottom_flag) [
      | inl b ↦
          rw (up_left d e b)
            (((leq-Below ops d d h).1 (self d), h), ((leq-Below ops e d g).1 (inl b), h))
      | inr b ↦ elim (Bool-cases d.bottom_flag) [
        | inl c ↦
            rw (up_right d e b c)
              (((leq-Below ops d e h).1 (inl c), g), ((leq-Below ops e e g).1 (self e), g))
        | inr c ↦
            let r : MapDom V = record d { table = merge_tables f d.table e.table } in
            let m = merge_tables-IsMap f d.table e.table h in
            rw (up_both d e b c) (
              ((leq-Below ops d r h).1 (inr (c, Below-left d.table e.table g)), m),
              ((leq-Below ops e r g).1 (inr (c, Below-right d.table e.table g)), m),
            )
      ]
    ]
      where
        self :
            (x : MapDom V)
            → (x.bottom_flag ≡ true) ⊎ ((x.bottom_flag ≡ false) × Below ops x.table x.table)
        self x = elim (Bool-cases x.bottom_flag) [
          | inl b ↦ inl b
          | inr b ↦ inr (b, Below-self x.table)
        ]

  -- For two domains whose tables have each key once, and values whose upward operations give upper
  -- bounds, each of the four upward operations gives a domain above both in the order of `leq`.
  pub upward-IsAbove :
      (d e : MapDom V)
      → IsMap d.table
      → IsMap e.table
      → IsUpper ops ops.join_val
      → IsUpper ops ops.join_at_loop_head_val
      → IsUpper ops ops.join_consecutive_iter_val
      → IsUpper ops ops.widen_val
      → (IsAbove ops d (join_with ops d e) × IsAbove ops e (join_with ops d e))
        × ((IsAbove ops d (join_with_at_loop_head ops d e)
              × IsAbove ops e (join_with_at_loop_head ops d e))
            × ((IsAbove ops d (join_consecutive_iter_with ops d e)
                  × IsAbove ops e (join_consecutive_iter_with ops d e))
                × (IsAbove ops d (widen_with ops d e) × IsAbove ops e (widen_with ops d e))))
  unfolding join_with join_with_at_loop_head join_consecutive_iter_with widen_with
  upward-IsAbove d e h g a b c w = (
    merge_up-IsAbove ops.join_val a d e h g,
    (
      merge_up-IsAbove ops.join_at_loop_head_val b d e h g,
      (
        merge_up-IsAbove ops.join_consecutive_iter_val c d e h g,
        merge_up-IsAbove ops.widen_val w d e h g,
      ),
    ),
  )
