-- ===== src/Fixpoint/Stages.antt =====
-- wto_iterator_impl.tpp: the loop of the visit of a cycle, through its two stages.
use knight.Prelude.{
  ℕ, zero, suc, ◌+◌, ◌≤◌, ◌<◌, ◌≡◌, refl, ◌∙◌, inl, inr, Bool, true, false, Bool-cases, ◌==◌,
  if◌then◌else◌, leb, Option, some, ==_iff, arith, Returns, Returns-bind,
}
use knight.Wto.{NodeRef, WtoNesting, WtoComponents, NestingTable}
use knight.Fixpoint.Inputs.{Analysis}
use knight.Fixpoint.{
  FixpointIterator, IterationKind, increasing, decreasing, Outcome, finished, again, set_pre,
  start_iteration, split_preds, enlarge_at_head_when_increasing,
  refine_at_loop_head_when_decreasing, is_increasing_fixpoint_reached,
  is_decreasing_fixpoint_reached, end_decreasing, end_iteration, iterate,
}
use knight.Fixpoint.Concrete.{Program, IsSound, Visited, Seeded, has_node_in, IsHead}
use knight.Fixpoint.Passes.{Collects, split_preds-Collects, get_pre-start_iteration}
use knight.Fixpoint.Flows.{IsPass, at_head, in_body, flows, or_none, or_cases}
use knight.Fixpoint.Outcomes.{
  SameStates, SameStates-refl, IsEnough, Enlarges, enlarge-Enlarges, refine-Refines,
}
use knight.Fixpoint.Cycles.{
  SameStates-trans, HeadHas, Framed, Ready, Good, finished-Visited, Framed-after, whole,
}

module _ {S C : Type 0} {a : Analysis S} {p : Program C} (laws : IsSound a p)
    (enough : IsEnough laws) (h : NodeRef) (body : NodeRef → Bool)
    (origin : FixpointIterator S) where
  module _ {it after : FixpointIterator S} {s front : S}
      (w : IsPass laws h body origin it s front after)
      (f : Framed laws enough h body origin it) where
    narrowed-Good :
        {r : FixpointIterator S} (fuel iter_cnt : ℕ) (t : S) (b : Bool)
        → SameStates after r
        → HeadHas laws enough h body origin s
        → HeadHas laws enough h body origin t
        → iter_cnt ≤ a.options.max_narrowing_iterations
        → a.options.max_narrowing_iterations < suc fuel + iter_cnt
        → is_decreasing_fixpoint_reached a iter_cnt s t ≡ b
        → Good laws enough h body origin fuel
            (if b then finished (set_pre a r h t) else again decreasing (suc iter_cnt) r t)
    unfolding is_decreasing_fixpoint_reached
    narrowed-Good fuel iter_cnt t true q g z l m e =
        finished-Visited laws enough h body origin w f q t g z
    narrowed-Good fuel iter_cnt t false q g z l m e =
        let n = (or_none (iter_cnt == a.options.max_narrowing_iterations) _ e).0 in
        record {
          framed = Framed-after laws enough h body origin w f q;
          allowed = ground arith;
          fuelled = omega arith;
          holds = z;
        }

    -- A state at the head that takes in what comes back has all that arrives there, before and after.
    refined-HeadHas :
        (t : S)
        → HeadHas laws enough h body origin s
        → ((c : C) → laws.Has s c → laws.Has front c → laws.Has t c)
        → HeadHas laws enough h body origin t
    refined-HeadHas t g k c i = elim (flows laws h body origin it s front w (λ c i _. g c i) i) [
      | at_head _ m n ↦ k c m n
      | in_body b _ ↦ cc (b, w.fresh)
    ]

    closed-HeadHas :
        ((c : C) → laws.Has front c → laws.Has s c) → HeadHas laws enough h body origin s
    closed-HeadHas k c i = elim (flows laws h body origin it s front w (λ c i m. k c m) i) [
      | at_head _ m n ↦ m
      | in_body b _ ↦ cc (b, w.fresh)
    ]

    end_decreasing-Good :
        {r : FixpointIterator S} (fuel iter_cnt : ℕ)
        → SameStates after r
        → HeadHas laws enough h body origin s
        → iter_cnt ≤ a.options.max_narrowing_iterations
        → a.options.max_narrowing_iterations < suc fuel + iter_cnt
        → Good laws enough h body origin fuel (end_decreasing a r h iter_cnt s front)
    unfolding end_decreasing
    end_decreasing-Good {r} fuel iter_cnt q g l m =
        let refined = refine_at_loop_head_when_decreasing a r h s front in
        let facts = refine-Refines laws r s front h in
        narrowed-Good fuel iter_cnt (a.normalize refined.0) _ (SameStates-trans q facts.same_states)
          g
          (refined-HeadHas (a.normalize refined.0) g
            (λ c m n. laws.normalize-has refined.0 c (facts.covers c m n)))
          l m refl

    -- At the last widening that the options allow, the state is stable.
    stable :
        {r : S × FixpointIterator S} (iter_cnt : ℕ)
        → Enlarges laws after iter_cnt s front r
        → laws.rank s + iter_cnt ≤ laws.height + a.options.widening_delay + 1
        → is_increasing_fixpoint_reached a iter_cnt s (a.normalize r.0) ≡ true
        → a.leq (a.normalize r.0) s ≡ true
    unfolding is_increasing_fixpoint_reached
    stable {r} iter_cnt facts k e =
        elim (or_cases (iter_cnt == a.options.max_widening_iterations) _ e) [
          | inr (_, y) ↦ y
          | inl y ↦ elim (Bool-cases (a.leq (a.normalize r.0) s)) [
            | inl z ↦ z
            | inr z ↦
                let last : iter_cnt ≡ a.options.max_widening_iterations = (==_iff _ _).0 y in
                absurd (
                  omega (
                    arith,
                    enough.widenings,
                    last,
                    facts.settles (omega (arith, enough.widenings, last)) z,
                  ))
          ]
        ]

    -- Another widening is left if the state was not stable.
    settling_next :
        {r : S × FixpointIterator S} (iter_cnt : ℕ)
        → Enlarges laws after iter_cnt s front r
        → laws.rank s + iter_cnt ≤ laws.height + a.options.widening_delay + 1
        → a.leq (a.normalize r.0) s ≡ false
        → laws.rank (a.normalize r.0) + suc iter_cnt ≤ laws.height + a.options.widening_delay + 1
    settling_next {r} iter_cnt facts k e =
        elim (Bool-cases (leb (a.options.widening_delay + 1) iter_cnt)) [
          | inl late ↦ (let t = facts.settles (ground arith) e in omega (arith, t))
          | inr early ↦ (let t = laws.rank-le (a.normalize r.0) in ground (arith, t))
        ]

    widened-Good :
        (fuel iter_cnt : ℕ) (r : S × FixpointIterator S) (b : Bool)
        → Enlarges laws after iter_cnt s front r
        → iter_cnt ≤ a.options.max_widening_iterations
        → a.options.max_widening_iterations + a.options.max_narrowing_iterations
          < suc fuel + iter_cnt
        → laws.rank s + iter_cnt ≤ laws.height + a.options.widening_delay + 1
        → is_increasing_fixpoint_reached a iter_cnt s (a.normalize r.0) ≡ b
        → Good laws enough h body origin fuel (
            if b
            then end_decreasing a r.1 h 1 s front
            else again increasing (suc iter_cnt) r.1 (a.normalize r.0))
    unfolding is_increasing_fixpoint_reached
    widened-Good fuel iter_cnt r true facts l m k e =
        end_decreasing-Good fuel 1 facts.same_states
          (closed-HeadHas (λ c n.
            laws.leq-has (a.normalize r.0) s c (stable iter_cnt facts k e)
              (laws.normalize-has r.0 c (facts.covers c n))))
          enough.narrowings (omega (arith, enough.narrowings))
    widened-Good fuel iter_cnt r false facts l m k e =
        let n =
          or_none (iter_cnt == a.options.max_widening_iterations) (a.leq (a.normalize r.0) s) e in
        let n0 = n.0 in
        record {
          framed = Framed-after laws enough h body origin w f facts.same_states;
          allowed = ground arith;
          fuelled = omega arith;
          settling = settling_next iter_cnt facts k n.1;
        }

    end_iteration-Good :
        (fuel : ℕ) (kind : IterationKind) (iter_cnt : ℕ)
        → Ready laws enough h body origin (suc fuel) kind iter_cnt it s
        → Good laws enough h body origin fuel (end_iteration a kind after h iter_cnt s front)
    unfolding end_iteration
    end_iteration-Good fuel decreasing iter_cnt z =
        end_decreasing-Good fuel iter_cnt (SameStates-refl after) z.holds z.allowed z.fuelled
    end_iteration-Good fuel increasing iter_cnt z =
        widened-Good fuel iter_cnt (enlarge_at_head_when_increasing a after h iter_cnt s front) _
          (enlarge-Enlarges laws after iter_cnt s front h) z.allowed z.fuelled z.settling refl

  Framed-of :
      (it : FixpointIterator S) (s : S) (fuel : ℕ) (kind : IterationKind) (iter_cnt : ℕ)
      → Ready laws enough h body origin fuel kind iter_cnt it s
      → Framed laws enough h body origin it
  Framed-of it s fuel increasing iter_cnt z = z.framed
  Framed-of it s fuel decreasing iter_cnt z = z.framed

  Ready-normalize :
      (it : FixpointIterator S) (s : S) (fuel : ℕ) (kind : IterationKind) (iter_cnt : ℕ)
      → Ready laws enough h body origin fuel kind iter_cnt it s
      → Ready laws enough h body origin fuel kind iter_cnt it (a.normalize s)
  Ready-normalize it s fuel increasing iter_cnt z = record {
    framed = z.framed;
    allowed = z.allowed;
    fuelled = z.fuelled;
    settling = (let k = laws.rank-normalize s in let m = z.settling in omega (arith, k, m));
  }
  Ready-normalize it s fuel decreasing iter_cnt z = record {
    framed = z.framed;
    allowed = z.allowed;
    fuelled = z.fuelled;
    holds = λ c i. laws.normalize-has s c (z.holds c i);
  }

  continued :
      (rest : IterationKind → ℕ → FixpointIterator S → S → Option (FixpointIterator S)) (fuel : ℕ)
      (o : Outcome S)
      → Good laws enough h body origin fuel o
      → ((kind : IterationKind) (iter_cnt : ℕ) (it : FixpointIterator S) (s : S)
          → Ready laws enough h body origin fuel kind iter_cnt it s
          → Returns
              (Visited laws (whole laws enough h body origin) origin)
              (rest kind iter_cnt it s))
      → Returns (Visited laws (whole laws enough h body origin) origin) (elim o [
        | finished done ↦ some done
        | again kind iter_cnt it s ↦ rest kind iter_cnt it s
      ])
  continued rest fuel (finished done) g k = g
  continued rest fuel (again kind iter_cnt it s) g k = k kind iter_cnt it s g

  module _ (nestings : NestingTable) (nesting : WtoNesting) (cs : WtoComponents)
      (head : IsHead a nestings h cs) (at : (k : NodeRef) → body k ≡ has_node_in cs k)
      (visit : FixpointIterator S → Option (FixpointIterator S))
      (visits : (it : FixpointIterator S)
        → Seeded laws it
        → Returns (Visited laws body it) (visit it)) where
    started-Seeded :
        (it : FixpointIterator S) (s : S) → Seeded laws it → Seeded laws (start_iteration a it h s)
    started-Seeded it s g c i =
        rw (get_pre-start_iteration a it h s a.entry, head.not_entry) (g c i)

    pass :
        {it after : FixpointIterator S} {s front : S}
        → Framed laws enough h body origin it
        → Visited laws body (start_iteration a it h s) after
        → Collects laws after h front
        → IsPass laws h body origin it s front after
    pass f v k = record {
      fresh = at h ∙ head.fresh;
      not_entry = head.not_entry;
      outside = f.post;
      visited = v;
      collects = k;
    }

    -- The loop ends with the fuel that it is given, and covers the states that arrive in the cycle.
    pub iterate-Visited :
        (fuel : ℕ) (kind : IterationKind) (iter_cnt : ℕ) (it : FixpointIterator S) (s : S)
        → Ready laws enough h body origin fuel kind iter_cnt it s
        → Returns
            (Visited laws (whole laws enough h body origin) origin)
            (iterate a nestings nesting visit h fuel kind iter_cnt it s)
    unfolding iterate
    iterate-Visited zero increasing iter_cnt it s z =
        absurd (let k = z.fuelled in let m = z.allowed in omega (arith, k, m))
    iterate-Visited zero decreasing iter_cnt it s z =
        absurd (let k = z.fuelled in let m = z.allowed in omega (arith, k, m))
    iterate-Visited (suc fuel) kind iter_cnt it s z =
        let f = Framed-of it s (suc fuel) kind iter_cnt z in
        let t = a.normalize s in
        Returns-bind (Visited laws body (start_iteration a it h t)) _
          (visit (start_iteration a it h t)) _
          (visits (start_iteration a it h t) (started-Seeded it t f.seeded))
          (λ after v.
            Returns-bind (λ r. Collects laws after h (a.normalize (a.join_at_loop_head r.0 r.1))) _
              (split_preds a nestings nesting after h (a.preds h) a.bottom a.bottom) _
              (split_preds-Collects laws nestings nesting after h cs head)
              (λ r k.
                continued (iterate a nestings nesting visit h fuel) fuel _
                  (end_iteration-Good (pass f v k) f fuel kind iter_cnt
                    (Ready-normalize it s (suc fuel) kind iter_cnt z))
                  (iterate-Visited fuel)))
