-- ===== src/Fixpoint/Passes.antt =====
-- wto_iterator_impl.tpp: one iteration of the loop on a cycle, up to the states that come back to the head.
use knight.Prelude.{
  ◌≡◌, refl, sym, subst, ◌⊎◌, inl, inr, Bool, true, false, Bool-cases, List, [], ◌∷◌, any, ◌==◌,
  ==_iff, if◌then◌else◌, some, Returns, Returns-imp, ◌>>=◌,
}
use knight.Prelude.Assoc.{find}
use knight.Wto.{NodeRef, WtoNesting, WtoComponents, NestingTable, leb_nesting}
use knight.Fixpoint.Inputs.{Analysis}
use knight.Fixpoint.{
  FixpointIterator, get_pre, get_post, set_pre, incoming, start_iteration, split_preds, enter_cycle,
  is_outside,
}
use knight.Fixpoint.Concrete.{Program, IsSound, is_pred, IsHead}
use knight.Fixpoint.Tables.{get_pre-set_pre, get_post-set_post}
use knight.Fixpoint.Vertices.{same}

module _ {S : Type 0} (a : Analysis S) (it : FixpointIterator S) (h : NodeRef) (s : S)
    (k : NodeRef) where
  pub get_pre-start_iteration :
      get_pre a (start_iteration a it h s) k ≡ (if h == k then a.normalize s else get_pre a it k)
  unfolding start_iteration get_pre
  get_pre-start_iteration = get_pre-set_pre a it h k s

  pub get_post-start_iteration :
      get_post a (start_iteration a it h s) k
      ≡ (if h == k then a.normalize (a.transfer_node h s) else get_post a it k)
  unfolding start_iteration get_post
  get_post-start_iteration = get_post-set_post a (set_pre a it h s) h k (a.transfer_node h s)

-- What is known of the nestings of some nodes; `nesting` is that of the head.
module _ {S : Type 0} (a : Analysis S) (nestings : NestingTable) (nesting : WtoNesting)
    (h : NodeRef) where
  abbrev Known : NodeRef → Type 0
  Known m = (n : WtoNesting) × (find m nestings ≡ some n)

  abbrev AllKnown : List NodeRef → Type 0
  AllKnown ms = (m : NodeRef) → any (λ x. x == m) ms ≡ true → Known m

  AllKnown-tail : (m : NodeRef) (ms : List NodeRef) → AllKnown (m ∷ ms) → AllKnown ms
  AllKnown-tail m ms g k e = g k (elim (Bool-cases (m == k)) [ inl q ↦ rw q refl | inr q ↦ rw q e ])

  AllKnown-head : (m : NodeRef) (ms : List NodeRef) → AllKnown (m ∷ ms) → Known m
  AllKnown-head m ms g = g m (rw ((==_iff m m).1 refl) refl)

  is_outside-Known :
      (m : NodeRef) → Known m → (b : Bool) × (is_outside a nestings nesting m ≡ some b)
  unfolding is_outside
  is_outside-Known m (k, f) = (leb_nesting k nesting, rw f refl)

  pub enter_cycle-Returns :
      (it : FixpointIterator S) (ms : List NodeRef) (s : S)
      → AllKnown ms
      → Returns (λ r. Unit {0}) (enter_cycle a nestings nesting it h ms s)
  unfolding enter_cycle
  enter_cycle-Returns it [] s g = tt
  enter_cycle-Returns it (m ∷ ms) s g =
      let b = is_outside-Known m (AllKnown-head m ms g) in
      rw (b.1, ◌>>=◌)
        (enter_cycle-Returns it ms (if b.0 then a.join s (incoming a it h m) else s)
          (AllKnown-tail m ms g))

module _ {S C : Type 0} {a : Analysis S} {p : Program C} (laws : IsSound a p) where
  abbrev Either : S × S → C → Type 0
  Either r c = laws.Has r.0 c ⊎ laws.Has r.1 c

  record Splits (it : FixpointIterator S) (h : NodeRef) (ms : List NodeRef) (q r : S × S)
      : Type 0 where
    keeps : (c : C) → Either q c → Either r c
    takes :
        (m : NodeRef) (c d : C)
        → any (λ x. x == m) ms ≡ true
        → laws.Has (get_post a it m) c
        → p.flow m h c d
        → Either r d

  -- Where one predecessor is joined.
  abbrev joined_to : Bool → S × S → S → S × S
  joined_to b q x = (if b then a.join q.0 x else q.0, if b then q.1 else a.join q.1 x)

  joined_to-keeps : (b : Bool) (q : S × S) (x : S) (c : C) → Either q c → Either (joined_to b q x) c
  joined_to-keeps true q x c (inl h) = inl (laws.join-has _ _ c (inl h))
  joined_to-keeps true q x c (inr h) = inr h
  joined_to-keeps false q x c (inl h) = inl h
  joined_to-keeps false q x c (inr h) = inr (laws.join-has _ _ c (inl h))

  joined_to-takes :
      (b : Bool) (q : S × S) (x : S) (c : C) → laws.Has x c → Either (joined_to b q x) c
  joined_to-takes true q x c h = inl (laws.join-has _ _ c (inr h))
  joined_to-takes false q x c h = inr (laws.join-has _ _ c (inr h))

  -- The state at the head takes what each predecessor sends.
  abbrev pub Collects : FixpointIterator S → NodeRef → S → Type 0
  Collects it h front =
      (m : NodeRef) (c d : C)
      → is_pred a m h ≡ true
      → laws.Has (get_post a it m) c
      → p.flow m h c d
      → laws.Has front d

  module _ (nestings : NestingTable) (nesting : WtoNesting) (it : FixpointIterator S)
      (h : NodeRef) where
    Splits-step :
        (b : Bool) (q r : S × S) (m : NodeRef) (ms : List NodeRef)
        → Splits it h ms (joined_to b q (incoming a it h m)) r
        → Splits it h (m ∷ ms) q r
    Splits-step b q r m ms w = record {
      keeps = λ c e. w.keeps c (joined_to-keeps b q (incoming a it h m) c e);
      takes = λ k c d e g f. elim (Bool-cases (m == k)) [
        | inl t ↦ w.keeps d (
            joined_to-takes b q (incoming a it h m) d (
              subst (λ (x : NodeRef). laws.Has (incoming a it h x) d) (sym (same m k t))
                (laws.edge-has k h _ c d g f)))
        | inr t ↦ w.takes k c d (rw t at e) g f
      ];
    }

    split_preds-Splits :
        (ms : List NodeRef) (q : S × S)
        → AllKnown a nestings nesting h ms
        → Returns (Splits it h ms q) (split_preds a nestings nesting it h ms q.0 q.1)
    unfolding split_preds
    split_preds-Splits [] q g = record { keeps = λ c e. e; takes = λ m c d e g f. cc (e) }
    split_preds-Splits (m ∷ ms) q g =
        let b =
          is_outside-Known a nestings nesting h m (AllKnown-head a nestings nesting h m ms g) in
        rw (b.1, ◌>>=◌)
          (Returns-imp (Splits it h ms (joined_to b.0 q (incoming a it h m))) _
            (split_preds a nestings nesting it h ms (joined_to b.0 q (incoming a it h m)).0
              (joined_to b.0 q (incoming a it h m)).1)
            (λ r w. Splits-step b.0 q r m ms w)
            (split_preds-Splits ms (joined_to b.0 q (incoming a it h m))
              (AllKnown-tail a nestings nesting h m ms g)))

    pub split_preds-Collects :
        (cs : WtoComponents)
        → IsHead a nestings h cs
        → Returns
            (λ r. Collects it h (a.normalize (a.join_at_loop_head r.0 r.1)))
            (split_preds a nestings nesting it h (a.preds h) a.bottom a.bottom)
    split_preds-Collects cs w =
        Returns-imp (Splits it h (a.preds h) (a.bottom, a.bottom)) _
          (split_preds a nestings nesting it h (a.preds h) a.bottom a.bottom)
          (λ r t m c d e g f.
            laws.normalize-has _ d (laws.loop_head-has _ _ d (t.takes m c d e g f)))
          (split_preds-Splits (a.preds h) (a.bottom, a.bottom) w.preds_known)
