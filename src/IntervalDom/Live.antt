-- ===== src/IntervalDom/Live.antt =====
-- interval_dom.hpp: the domains that are not bottom and have no bottom interval, and `meet_value` on them.
use knight.Prelude.{◌≡◌, refl, ◌↔◌, inl, inr, true, false, List, arith, Bool-cases, ◌==◌}
use knight.Prelude.Int.{ℤ, pos}
use knight.Prelude.Assoc.{find, put, find-put}
use knight.Num.{Gmp}
use knight.Bound.{Bound, finite, make}
use knight.Bound.Order.{Le}
use knight.Bound.Sides.{IsLower, IsUpper}
use knight.Interval.{Interval, is_bottom, contains, meet_with}
use knight.Interval.Members.{IsValid, not_bottom_of_contains, le_of_not_bottom}
use knight.Interval.Meet.{meet_with_exact}
use knight.Linear.{Var}
use knight.Linear.Meaning.{Env}
use knight.Separate.{Dom, meet_value}
use knight.Separate.OfIntervals.{interval_values, interval_laws}
use knight.Separate.Concrete.{Describes, IsWellFormed, entry_value, get_value-of, bottom-Describes}
use knight.Separate.Assign.{get_value-good}
use knight.Separate.MeetValue.{live, Met, Met-of_live, meet_value-Describes}
use knight.IntervalDom.Solver.{to_interval}

module _ (gmp : Gmp) where
  -- The environments that the domain describes.
  unfoldable pub Allows : Dom Interval → Env → Type 0
  unfolding interval_laws
  Allows d env = Describes (interval_laws gmp) d env

  pub record IsLive (d : Dom Interval) : Type 0 where
    pub alive : d.bottom_flag ≡ false
    pub formed : IsWellFormed (interval_laws gmp) d.table
    pub full : (k : Var) → is_bottom (to_interval gmp d k) ≡ false

-- A valid interval that is not bottom holds an integer.
inhabited_bounds :
    (l u : Bound)
    → IsLower l
    → IsUpper u
    → Le l u
    → (n : ℤ) × (contains (record { lb = l; ub = u }) n ≡ true)
unfolding contains is_bottom finite make
inhabited_bounds l u (IsLower.fin a) (IsUpper.fin b) h = (a, ground arith)
inhabited_bounds l u IsLower.minus (IsUpper.fin b) h = (b, ground arith)
inhabited_bounds l u (IsLower.fin a) IsUpper.plus h = (a, ground arith)
inhabited_bounds l u IsLower.minus IsUpper.plus h = (pos 0, refl)

pub inhabited : {x : Interval} → IsValid x → is_bottom x ≡ false → (n : ℤ) × (contains x n ≡ true)
inhabited {x} v h = inhabited_bounds x.lb x.ub v.lower v.upper (le_of_not_bottom v h)

module _ (gmp : Gmp) where
  pub to_interval-IsValid :
      (d : Dom Interval) (x : Var) → IsLive gmp d → IsValid (to_interval gmp d x)
  unfolding to_interval interval_laws interval_values
  to_interval-IsValid d x w = get_value-good (interval_laws gmp) d x w.formed

  pub Allows-contains :
      (d : Dom Interval) (env : Env) (x : Var)
      → Allows gmp d env
      → contains (to_interval gmp d x) (env x) ≡ true
  unfolding to_interval Allows interval_laws
  Allows-contains d env x h = h x

  to_interval-live :
      (m : List (Var × Interval)) (k : Var)
      → to_interval gmp (live m) k ≡ entry_value (interval_laws gmp) (find k m)
  unfolding to_interval interval_laws
  to_interval-live m k = get_value-of (interval_laws gmp) (live m) k refl

  live-IsLive :
      (m : List (Var × Interval))
      → IsWellFormed (interval_laws gmp) m
      → ((k : Var) → is_bottom (entry_value (interval_laws gmp) (find k m)) ≡ false)
      → IsLive gmp (live m)
  live-IsLive m w h = record {
    alive = refl;
    formed = w;
    full = λ k. rw (to_interval-live m k) (h k);
  }

  put-full :
      (m : List (Var × Interval)) (x : Var) (v : Interval)
      → ((k : Var) → is_bottom (entry_value (interval_laws gmp) (find k m)) ≡ false)
      → is_bottom v ≡ false
      → (k : Var) → is_bottom (entry_value (interval_laws gmp) (find k (put x v m))) ≡ false
  put-full m x v h e k =
      rw (find-put x k v m) (elim (Bool-cases (x == k)) [ inl s ↦ rw s e | inr s ↦ rw s (h k) ])

  Met-IsLive :
      (m : List (Var × Interval)) (x : Var) (v : Interval) (r : Dom Interval) (n : ℤ)
      → IsWellFormed (interval_laws gmp) m
      → ((k : Var) → is_bottom (entry_value (interval_laws gmp) (find k m)) ≡ false)
      → IsWellFormed (interval_laws gmp) r.table
      → IsValid v
      → contains (entry_value (interval_laws gmp) (find x m)) n ≡ true
      → contains v n ≡ true
      → Met (interval_laws gmp) m x v r
      → IsLive gmp r
  unfolding interval_laws interval_values
  Met-IsLive m x v r n w h z g p q (Met.kept e t) = live-IsLive m w h
  Met-IsLive m x v r n w h z g p q (Met.added e f) = live-IsLive _ z (put-full m x v h e)
  Met-IsLive m x v r n w h z g p q (Met.narrowed u f e) =
      live-IsLive _ z (put-full m x (meet_with u v) h e)
  Met-IsLive m x v r n w h z g p q (Met.emptied (inl e)) =
      absurd (cc (e, not_bottom_of_contains g n q))
  Met-IsLive m x v r n w h z g p q (Met.emptied (inr (u, f, e))) =
      let good = w.good x u f in
      let both = ((meet_with_exact good g).1 n).1 (rw f at p, q) in
      absurd (cc (e, not_bottom_of_contains (meet_with_exact good g).0 n both))

  -- The interval of `x` in a live domain keeps an integer of the value it is met with.
  pub meet_value-IsLive :
      (d : Dom Interval) (x : Var) (v : Interval) (n : ℤ)
      → IsLive gmp d
      → IsValid v
      → contains (to_interval gmp d x) n ≡ true
      → contains v n ≡ true
      → IsLive gmp (meet_value (interval_values gmp) d x v)
  unfolding interval_laws to_interval
  meet_value-IsLive d x v n w g p q =
      let at_entry = λ (k : Var). get_value-of (interval_laws gmp) d k w.alive in
      Met-IsLive d.table x v _ n w.formed (λ k. rw (at_entry k) at (w.full k))
        (meet_value-Describes (interval_laws gmp) d x v w.formed g).0 g (rw (at_entry x) at p) q
        (Met-of_live (interval_laws gmp) d x v w.alive)

  pub meet_value-Allows :
      (d : Dom Interval) (x : Var) (v : Interval) (env : Env)
      → IsLive gmp d
      → IsValid v
      → Allows gmp (meet_value (interval_values gmp) d x v) env
        ↔ (Allows gmp d env × (contains v (env x) ≡ true))
  unfolding interval_laws Allows
  meet_value-Allows d x v env w g =
      (meet_value-Describes (interval_laws gmp) d x v w.formed g).1 env

  pub bottom-Allows : (d : Dom Interval) (env : Env) → d.bottom_flag ≡ true → ¬ Allows gmp d env
  unfolding interval_laws Allows
  bottom-Allows d env b a = bottom-Describes (interval_laws gmp) d env b a
