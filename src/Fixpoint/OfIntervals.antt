-- ===== src/Fixpoint/OfIntervals.antt =====
-- The fixpoint iterator over one interval: the operations of intervals meet the laws that it relies on.
use knight.Prelude.{◌≡◌, inl, inr, true, Option, none, some, List, Returns, arith}
use knight.Prelude.Int.{ℤ}
use knight.Num.{ZNum}
use knight.Interval.{
  Interval, contains, join_with, widen_with, widen_with_threshold, narrow_with, leq, bottom,
}
use knight.Interval.Members.{IsValid, bottom-IsValid}
use knight.Interval.Lattice.{join_with_sound, leq_iff}
use knight.Interval.Widening.{Widens, widen_with_sound}
use knight.Interval.Growth.{rank, rank_le_three}
use knight.Interval.Narrowing.{widen_with_threshold_sound}
use knight.Interval.Settling.{rank-settles, narrow_with-IsValid, narrow_with-contains}
use knight.Wto.{NodeRef}
use knight.Fixpoint.Inputs.{Analysis, default_options}
use knight.Fixpoint.Concrete.{Program, IsSound}
use knight.Fixpoint.Outcomes.{IsEnough}

pub record ValidInterval : Type 0 where
  pub interval : Interval
  pub valid : IsValid interval

-- The value of a run that ends.
abbrev pub result {ℓ} : {A : Type ℓ} (P : A → Type 0) (m : Option A) → Returns P m → (x : A) × P x
result P none h = absurd h
result P (some x) h = (x, h)

abbrev pub joined : ValidInterval → ValidInterval → ValidInterval
joined s t = record {
  interval = join_with s.interval t.interval;
  valid = (join_with_sound s.valid t.valid).0;
}

abbrev pub widened : ValidInterval → ValidInterval → ValidInterval
widened s t = record {
  interval = widen_with s.interval t.interval;
  valid = (widen_with_sound s.valid t.valid).valid;
}

pub threshold_result :
    (s t : ValidInterval) (k : ZNum) → (x : Interval) × Widens s.interval t.interval x
threshold_result s t k =
    result (Widens s.interval t.interval) (widen_with_threshold s.interval t.interval k)
      (widen_with_threshold_sound s.valid t.valid k)

abbrev pub widened_to : ValidInterval → ValidInterval → ZNum → ValidInterval
widened_to s t k = record {
  interval = (threshold_result s t k).0;
  valid = (threshold_result s t k).1.valid;
}

abbrev pub narrowed : ValidInterval → ValidInterval → ValidInterval
narrowed s t = record {
  interval = narrow_with s.interval t.interval;
  valid = narrow_with-IsValid s.valid t.valid;
}

abbrev pub Contains : ValidInterval → ℤ → Type 0
Contains s n = contains s.interval n ≡ true

pub above_left :
    {x y r : Interval}
    → IsValid x
    → Widens x y r
    → (n : ℤ) → contains x n ≡ true
    → contains r n ≡ true
above_left v w n = (leq_iff v w.valid).0 w.left n

pub above_right :
    {x y r : Interval}
    → IsValid y
    → Widens x y r
    → (n : ℤ) → contains y n ≡ true
    → contains r n ≡ true
above_right v w n = (leq_iff v w.valid).0 w.right n

pub off : ¬ (default_options.analyze_with_threshold ≡ true)
off o = cc (o)

-- A graph with a transfer function of its nodes. The edges pass the states on, as `transfer_edge` of
-- `IntraProceduralFixpointIterator` does.
module _ (entry : NodeRef) (preds : NodeRef → List NodeRef)
    (transfer_node : NodeRef → ValidInterval → ValidInterval) where
  abbrev pub interval_analysis : Analysis ValidInterval
  interval_analysis = record {
    bottom = record { interval = bottom; valid = bottom-IsValid };
    join = joined;
    join_at_loop_head = joined;
    join_consecutive_iter = joined;
    widen = widened;
    widen_with_threshold = widened_to;
    narrow = narrowed;
    narrow_with_threshold = λ s t k. narrowed s t;
    leq = λ s t. leq s.interval t.interval;
    normalize = λ s. s;
    entry = entry;
    preds = preds;
    last_condition = λ n. none;
    transfer_node = transfer_node;
    transfer_edge = λ m n s. s;
    options = default_options;
  }

  module _ (p : Program ℤ)
      (nodes : (n : NodeRef) (s : ValidInterval) (c d : ℤ)
        → Contains s c
        → p.exec n c d
        → Contains (transfer_node n s) d)
      (edges : (m n : NodeRef) (s : ValidInterval) (c d : ℤ)
        → Contains s c
        → p.flow m n c d
        → Contains s d) where
    abbrev pub interval_sound : IsSound interval_analysis p
    interval_sound = record {
      Has = Contains;
      join-has = λ s t. (join_with_sound s.valid t.valid).1;
      loop_head-has = λ s t. (join_with_sound s.valid t.valid).1;
      consecutive-has = λ s t. (join_with_sound s.valid t.valid).1;
      widen-has = λ s t c h. elim h [
        | inl l ↦ above_left s.valid (widen_with_sound s.valid t.valid) c l
        | inr r ↦ above_right t.valid (widen_with_sound s.valid t.valid) c r
      ];
      widen_threshold-has = λ s t k c h. elim h [
        | inl l ↦ above_left s.valid (threshold_result s t k).1 c l
        | inr r ↦ above_right t.valid (threshold_result s t k).1 c r
      ];
      narrow-has = λ s t. narrow_with-contains s.valid t.valid;
      narrow_threshold-has = λ s t k. narrow_with-contains s.valid t.valid;
      leq-has = λ s t c h. (leq_iff s.valid t.valid).0 h c;
      normalize-has = λ s c h. h;
      node-has = nodes;
      edge-has = edges;
      rank = λ s. rank s.interval;
      height = 3;
      rank-le = λ s. rank_le_three s.interval;
      rank-normalize = λ s. omega arith;
      rank-widen = λ s t. rank-settles s.valid t.valid;
      rank-widen_threshold = λ s t k o. absurd (off o);
    }

    -- The default options leave one interval just enough room.
    pub interval_enough : IsEnough interval_sound
    interval_enough = record { widenings = omega arith; narrowings = omega arith }
