-- ===== src/Fixpoint/Outcomes.antt =====
-- wto_iterator.hpp and wto_iterator_impl.tpp: the end of an iteration, in the two stages.
use knight.Prelude.{
  ℕ, ◌+◌, ◌≤◌, ◌<◌, ◌≡◌, refl, inl, inr, Bool, true, false, Option-cases, if◌then◌else◌, ltb,
  Option, none, some, arith,
}
use knight.Num.{ZNum}
use knight.Prelude.Assoc.{find}
use knight.Wto.{NodeRef}
use knight.Fixpoint.Inputs.{Analysis}
use knight.Fixpoint.{
  FixpointIterator, head_threshold, enlarge_at_head_when_increasing,
  refine_at_loop_head_when_decreasing,
}
use knight.Fixpoint.Concrete.{Program, IsSound}

-- The two iterators have the same states.
pub record SameStates {S : Type 0} (it r : FixpointIterator S) : Type 0 where
  pub pre : r.pre ≡ it.pre
  pub post : r.post ≡ it.post

pub SameStates-refl : {S : Type 0} (it : FixpointIterator S) → SameStates it it
SameStates-refl it = record { pre = refl; post = refl }

head_threshold-SameStates :
    {S : Type 0} (a : Analysis S) (it : FixpointIterator S) (h : NodeRef)
    → SameStates it (head_threshold a it h).1
unfolding head_threshold
head_threshold-SameStates a it h = elim (Option-cases (find h it.head_thresholds)) [
  | inl e ↦ rw (e, head_threshold) (record { pre = refl; post = refl })
  | inr (t, e) ↦ rw (e, head_threshold) (record { pre = refl; post = refl })
]

module _ {S C : Type 0} {a : Analysis S} {p : Program C} (laws : IsSound a p) where
  -- The bounds of the options leave the widenings room to settle, and one iteration to narrow.
  pub record IsEnough : Type 0 where
    pub widenings : laws.height + a.options.widening_delay + 1 ≤ a.options.max_widening_iterations
    pub narrowings : 1 ≤ a.options.max_narrowing_iterations

  pub record Enlarges (it : FixpointIterator S) (iter_cnt : ℕ) (before after : S)
      (r : S × FixpointIterator S) : Type 0 where
    pub same_states : SameStates it r.1
    pub covers : (c : C) → laws.Has after c → laws.Has r.0 c
    pub settles :
        a.options.widening_delay + 1 ≤ iter_cnt
        → a.leq (a.normalize r.0) before ≡ false
        → laws.rank (a.normalize r.0) < laws.rank before

  -- The choice between joining and widening, by its tests.
  abbrev enlarged :
      Bool
      → Bool
      → Option ZNum × FixpointIterator S
      → FixpointIterator S
      → S
      → S
      → S × FixpointIterator S
  enlarged early threshold cached it before after =
      if early
      then (a.join_consecutive_iter before after, it)
      else (if threshold
          then (
            elim cached.0 [
              | some k ↦ a.widen_with_threshold before after k
              | none ↦ a.widen before after
            ],
            cached.1,
          )
          else (a.widen before after, it))

  module _ (it : FixpointIterator S) (iter_cnt : ℕ) (before after : S) where
    enlarged-Enlarges :
        (early threshold : Bool) (cached : Option ZNum × FixpointIterator S)
        → SameStates it cached.1
        → (a.options.widening_delay + 1 ≤ iter_cnt → early ≡ false)
        → a.options.analyze_with_threshold ≡ threshold
        → Enlarges it iter_cnt before after (enlarged early threshold cached it before after)
    enlarged-Enlarges true threshold cached q late o = record {
      same_states = SameStates-refl it;
      covers = λ c g. laws.consecutive-has before after c (inr g);
      settles = λ d. (let l = late d in cc (l));
    }
    enlarged-Enlarges false false cached q late o = record {
      same_states = SameStates-refl it;
      covers = λ c g. laws.widen-has before after c (inr g);
      settles = λ d. laws.rank-widen before after;
    }
    enlarged-Enlarges false true (none, r) q late o = record {
      same_states = q;
      covers = λ c g. laws.widen-has before after c (inr g);
      settles = λ d. laws.rank-widen before after;
    }
    enlarged-Enlarges false true (some k, r) q late o = record {
      same_states = q;
      covers = λ c g. laws.widen_threshold-has before after k c (inr g);
      settles = λ d. laws.rank-widen_threshold before after k o;
    }

    pub enlarge-Enlarges :
        (h : NodeRef)
        → Enlarges it iter_cnt before after
            (enlarge_at_head_when_increasing a it h iter_cnt before after)
    unfolding enlarge_at_head_when_increasing
    enlarge-Enlarges h =
        enlarged-Enlarges (ltb iter_cnt (a.options.widening_delay + 1))
          a.options.analyze_with_threshold (head_threshold a it h)
          (head_threshold-SameStates a it h) (λ d. ground arith) refl

  pub record Refines (it : FixpointIterator S) (before after : S) (r : S × FixpointIterator S)
      : Type 0 where
    pub same_states : SameStates it r.1
    pub covers : (c : C) → laws.Has before c → laws.Has after c → laws.Has r.0 c

  abbrev refined :
      Bool → Option ZNum × FixpointIterator S → FixpointIterator S → S → S → S × FixpointIterator S
  refined threshold cached it before after =
      if threshold
      then (
        elim cached.0 [
          | some k ↦ a.narrow_with_threshold before after k
          | none ↦ a.narrow before after
        ],
        cached.1,
      )
      else (a.narrow before after, it)

  module _ (it : FixpointIterator S) (before after : S) where
    refined-Refines :
        (threshold : Bool) (cached : Option ZNum × FixpointIterator S)
        → SameStates it cached.1
        → Refines it before after (refined threshold cached it before after)
    refined-Refines false cached q = record {
      same_states = SameStates-refl it;
      covers = laws.narrow-has before after;
    }
    refined-Refines true (none, r) q = record {
      same_states = q;
      covers = laws.narrow-has before after;
    }
    refined-Refines true (some k, r) q = record {
      same_states = q;
      covers = laws.narrow_threshold-has before after k;
    }

    pub refine-Refines :
        (h : NodeRef)
        → Refines it before after (refine_at_loop_head_when_decreasing a it h before after)
    unfolding refine_at_loop_head_when_decreasing
    refine-Refines h =
        refined-Refines a.options.analyze_with_threshold (head_threshold a it h)
          (head_threshold-SameStates a it h)
