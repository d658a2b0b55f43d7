-- ===== src/Separate/Laws.antt =====
-- What `SeparateNumericalDom` relies on in the class of its values: the integers that a value stands
-- for, and the laws of the operations.
use knight.Prelude.{◌≡◌, ◌⊎◌, ◌↔◌, true, Returns}
use knight.Prelude.Int.{ℤ, ◌+ℤ◌, ◌*ℤ◌}
use knight.Separate.{Values}

pub record IsNumerical (V : Type 0) (ops : Values V) : Type 1 where
  -- The integers of a value, and the class invariant.
  pub Has : V → ℤ → Type 0
  pub IsGood : V → Type 0
  pub bottom-good : IsGood ops.bottom_val
  pub default-good : IsGood ops.default_val
  pub of_num-good : (n : ℤ) → IsGood (ops.of_num n)
  pub bottom_empty : (v : V) (n : ℤ) → ops.is_bottom_val v ≡ true → ¬ Has v n
  pub bottom-empty : (n : ℤ) → ¬ Has ops.bottom_val n
  pub default-full : (n : ℤ) → Has ops.default_val n
  pub of_num-has : (n : ℤ) → Has (ops.of_num n) n
  pub top_full : (v : V) (n : ℤ) → IsGood v → ops.is_top_val v ≡ true → Has v n
  pub join-good : (u v : V) → IsGood u → IsGood v → IsGood (ops.join_val u v)
  pub join-has :
      (u v : V) (n : ℤ) → IsGood u → IsGood v → (Has u n ⊎ Has v n) → Has (ops.join_val u v) n
  pub widen-good : (u v : V) → IsGood u → IsGood v → IsGood (ops.widen_val u v)
  pub widen-has :
      (u v : V) (n : ℤ) → IsGood u → IsGood v → (Has u n ⊎ Has v n) → Has (ops.widen_val u v) n
  pub meet-good : (u v : V) → IsGood u → IsGood v → IsGood (ops.meet_val u v)
  pub meet-has :
      (u v : V) (n : ℤ) → IsGood u → IsGood v → Has (ops.meet_val u v) n ↔ (Has u n × Has v n)
  pub leq-has : (u v : V) (n : ℤ) → IsGood u → IsGood v → ops.leq_val u v ≡ true → Has u n → Has v n
  pub add_assign-has :
      (u v : V)
      → IsGood u
      → IsGood v
      → Returns
          (λ w. IsGood w × ((m n : ℤ) → Has u m → Has v n → Has w (m +ℤ n)))
          (ops.add_assign_val u v)
  pub mul-has :
      (u v : V)
      → IsGood u
      → IsGood v
      → Returns (λ w. IsGood w × ((m n : ℤ) → Has u m → Has v n → Has w (m *ℤ n))) (ops.mul_val u v)
