-- ===== src/Fixpoint/Cycles.antt =====
-- wto_iterator_impl.tpp: what the loop on a cycle keeps, and what its `break` leaves.
use knight.Prelude.{
  ℕ, ◌+◌, ◌≤◌, ◌<◌, ◌≡◌, sym, ap, ◌∙◌, subst, inl, inr, Bool, true, false, Bool-cases, ◌==◌, ◌||◌,
  ==_iff,
}
use knight.Wto.{NodeRef}
use knight.Fixpoint.Inputs.{Analysis}
use knight.Fixpoint.{
  FixpointIterator, IterationKind, increasing, decreasing, Outcome, finished, again, get, get_pre,
  get_post, set_pre,
}
use knight.Fixpoint.Concrete.{Program, IsSound, Inflow, Visited, Seeded}
use knight.Fixpoint.Tables.{get_pre-set_pre, get_post-set_pre}
use knight.Fixpoint.Passes.{get_pre-start_iteration, get_post-start_iteration}
use knight.Fixpoint.Flows.{IsPass, at_head, in_body, flows, head_post, or_none}
use knight.Fixpoint.Outcomes.{SameStates, IsEnough}
use knight.Fixpoint.Vertices.{same}

module _ {S : Type 0} (a : Analysis S) {it r : FixpointIterator S} (q : SameStates it r)
    (k : NodeRef) where
  same_pre : get_pre a r k ≡ get_pre a it k
  unfolding get_pre
  same_pre = ap (λ m. get a m k) q.pre

  same_post : get_post a r k ≡ get_post a it k
  unfolding get_post
  same_post = ap (λ m. get a m k) q.post

pub SameStates-trans :
    {S : Type 0} {x y z : FixpointIterator S} → SameStates x y → SameStates y z → SameStates x z
SameStates-trans p q = record { pre = q.pre ∙ p.pre; post = q.post ∙ p.post }

module _ {S C : Type 0} {a : Analysis S} {p : Program C} (laws : IsSound a p)
    (enough : IsEnough laws) (h : NodeRef) (body : NodeRef → Bool)
    (origin : FixpointIterator S) where
  abbrev pub whole : NodeRef → Bool
  whole k = (h == k) || body k

  -- The state has what arrives at the head.
  abbrev pub HeadHas : S → Type 0
  HeadHas s = (c : C) → Inflow laws whole origin h c → laws.Has s c

  -- Nothing has changed outside the cycle.
  pub record Framed (it : FixpointIterator S) : Type 0 where
    pub pre : (k : NodeRef) → whole k ≡ false → get_pre a it k ≡ get_pre a origin k
    pub post : (k : NodeRef) → whole k ≡ false → get_post a it k ≡ get_post a origin k
    pub seeded : Seeded laws it

  -- What the loop needs for its next iterations.
  pub record ReadyIncreasing (fuel iter_cnt : ℕ) (it : FixpointIterator S) (s : S) : Type 0 where
    pub framed : Framed it
    pub allowed : iter_cnt ≤ a.options.max_widening_iterations
    pub fuelled :
        a.options.max_widening_iterations + a.options.max_narrowing_iterations < fuel + iter_cnt
    pub settling : laws.rank s + iter_cnt ≤ laws.height + a.options.widening_delay + 1

  pub record ReadyDecreasing (fuel iter_cnt : ℕ) (it : FixpointIterator S) (s : S) : Type 0 where
    pub framed : Framed it
    pub allowed : iter_cnt ≤ a.options.max_narrowing_iterations
    pub fuelled : a.options.max_narrowing_iterations < fuel + iter_cnt
    pub holds : HeadHas s

  abbrev pub Ready : ℕ → IterationKind → ℕ → FixpointIterator S → S → Type 0
  Ready fuel increasing iter_cnt it s = ReadyIncreasing fuel iter_cnt it s
  Ready fuel decreasing iter_cnt it s = ReadyDecreasing fuel iter_cnt it s

  abbrev pub Good : ℕ → Outcome S → Type 0
  Good fuel (finished r) = Visited laws whole origin r
  Good fuel (again kind iter_cnt it s) = Ready fuel kind iter_cnt it s

  module _ {it after r : FixpointIterator S} {s front : S}
      (w : IsPass laws h body origin it s front after) (f : Framed it)
      (q : SameStates after r) where
    pre_outside : (k : NodeRef) → whole k ≡ false → get_pre a r k ≡ get_pre a origin k
    pre_outside k o =
        let (n, b) = or_none (h == k) (body k) o in
        same_pre a q k
        ∙ w.visited.pre_kept k b
        ∙ get_pre-start_iteration a it h s k
        ∙ rw n (f.pre k o)

    post_outside : (k : NodeRef) → whole k ≡ false → get_post a r k ≡ get_post a origin k
    post_outside k o =
        let (n, b) = or_none (h == k) (body k) o in
        same_post a q k
        ∙ w.visited.post_kept k b
        ∙ get_post-start_iteration a it h s k
        ∙ rw n (f.post k o)

    pub Framed-after : Framed r
    Framed-after = record {
      pre = pre_outside;
      post = post_outside;
      seeded = λ c i.
          subst (λ (x : S). laws.Has x c) (sym (same_pre a q a.entry)) (w.visited.seeded c i);
    }

    not_head : (k : NodeRef) → body k ≡ true → (h == k) ≡ false
    not_head k b = elim (Bool-cases (h == k)) [
      | inl e ↦
          (let c : body h ≡ true = subst (λ (x : NodeRef). body x ≡ true) (sym (same h k e)) b in
            cc (c, w.fresh))
      | inr e ↦ e
    ]

    is_head : (k : NodeRef) → h ≡ k → (h == k) ≡ true
    is_head k e = (==_iff h k).1 e

    -- The break out of the loop.
    pub finished-Visited :
        (t : S) → HeadHas s → HeadHas t → Visited laws whole origin (set_pre a r h t)
    finished-Visited t g z = record {
      pre_kept =
          λ k o. get_pre-set_pre a r h k t ∙ rw (or_none (h == k) (body k) o).0 (pre_outside k o);
      post_kept = λ k o. get_post-set_pre a r h k t ∙ post_outside k o;
      seeded = λ c i. rw (get_pre-set_pre a r h a.entry t, w.not_entry) (Framed-after.seeded c i);
      covers_pre = λ k c i. elim (flows laws h body origin it s front w (λ c i _. g c i) i) [
        | at_head e _ _ ↦
            rw (get_pre-set_pre a r h k t, is_head k e)
              (laws.normalize-has t c
                (z c (subst (λ (x : NodeRef). Inflow laws whole origin x c) (sym e) i)))
        | in_body b j ↦
            rw (get_pre-set_pre a r h k t, not_head k b, same_pre a q k)
              (w.visited.covers_pre k c j)
      ];
      covers_post = λ k c d i x.
          rw (get_post-set_pre a r h k t, same_post a q k)
            (elim (flows laws h body origin it s front w (λ c i _. g c i) i) [
              | at_head e m _ ↦
                  subst (λ (y : NodeRef). laws.Has (get_post a after y) d) e
                    (rw (w.visited.post_kept h w.fresh) (
                      head_post laws h body origin it s front w (λ c i _. g c i) m
                        (subst (λ (y : NodeRef). p.exec y c d) (sym e) x)))
              | in_body b j ↦ w.visited.covers_post k c d j x
            ]);
    }
