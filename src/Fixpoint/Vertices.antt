-- ===== src/Fixpoint/Vertices.antt =====
-- wto_iterator_impl.tpp: the visit of a vertex.
use knight.Prelude.{
  ◌≡◌, refl, sym, ◌∙◌, subst, inl, inr, true, false, Bool-cases, List, [], ◌∷◌, any, ◌==◌, ==_iff,
  if◌then◌else◌,
}
use knight.Wto.{NodeRef, vertex}
use knight.Fixpoint.Inputs.{Analysis}
use knight.Fixpoint.{
  FixpointIterator, get_pre, get_post, set_pre, join_preds, visit_vertex, incoming,
}
use knight.Fixpoint.Concrete.{Program, IsSound, Inflow, inside, Visited, Seeded, has_node, is_pred}
use knight.Fixpoint.Tables.{get_pre-set_pre, get_post-set_post}

pub same : (m n : NodeRef) → (m == n) ≡ true → m ≡ n
same m n h = (==_iff m n).0 h

module _ {S C : Type 0} {a : Analysis S} {p : Program C} (laws : IsSound a p) where
  join_preds-keeps :
      (it : FixpointIterator S) (n : NodeRef) (ms : List NodeRef) (s : S) (c : C)
      → laws.Has s c
      → laws.Has (join_preds a it n ms s) c
  unfolding join_preds
  join_preds-keeps it n [] s c h = h
  join_preds-keeps it n (m ∷ ms) s c h =
      join_preds-keeps it n ms (a.join s (incoming a it n m)) c (laws.join-has _ _ c (inl h))

  join_preds-takes :
      (it : FixpointIterator S) (n : NodeRef) (ms : List NodeRef) (s : S) (m : NodeRef) (c d : C)
      → any (λ x. x == m) ms ≡ true
      → laws.Has (get_post a it m) c
      → p.flow m n c d
      → laws.Has (join_preds a it n ms s) d
  unfolding join_preds
  join_preds-takes it n [] s m c d e h f = cc (e)
  join_preds-takes it n (k ∷ ms) s m c d e h f = elim (Bool-cases (k == m)) [
    | inl q ↦ join_preds-keeps it n ms (a.join s (incoming a it n k)) d (
        laws.join-has _ _ d (
          inr (
            subst (λ (x : NodeRef). laws.Has (incoming a it n x) d) (sym (same k m q))
              (laws.edge-has m n _ c d h f))))
    | inr q ↦ join_preds-takes it n ms (a.join s (incoming a it n k)) m c d (rw q at e) h f
  ]

  module _ (it : FixpointIterator S) (n : NodeRef) where
    abbrev joined : S
    joined = join_preds a it n (a.preds n) (get_pre a it n)

    pre-visit_vertex :
        (k : NodeRef)
        → get_pre a (visit_vertex a it n) k
          ≡ (if n == k then a.normalize joined else get_pre a it k)
    unfolding visit_vertex
    pre-visit_vertex k = get_pre-set_pre a it n k joined

    post-visit_vertex :
        (k : NodeRef)
        → get_post a (visit_vertex a it n) k
          ≡ (if n == k then a.normalize (a.transfer_node n joined) else get_post a it k)
    unfolding visit_vertex
    post-visit_vertex k = get_post-set_post a (set_pre a it n joined) n k (a.transfer_node n joined)

    arrives :
        is_pred a n n ≡ false
        → Seeded laws it
        → {k : NodeRef} {c : C} → Inflow laws (has_node (vertex n)) it k c
        → laws.Has joined c
    arrives q w {k} {c} (Inflow.seed h e i) =
        join_preds-keeps it n (a.preds n) (get_pre a it n) c
          (subst (λ (x : NodeRef). laws.Has (get_pre a it x) c) (sym (same n k h ∙ e)) (w c i))
    arrives q w {k} {c = d} (Inflow.enter {m = m} {c = c} o h e g f) =
        join_preds-takes it n (a.preds n) (get_pre a it n) m c d
          (subst (λ (x : NodeRef). is_pred a m x ≡ true) (sym (same n k h)) e) g
          (subst (λ (x : NodeRef). p.flow m x c d) (sym (same n k h)) f)
    arrives q w {k} {c = d} (Inflow.inner {m = m} i x h e f) =
        let loop : is_pred a n n ≡ true =
          subst (λ (y : NodeRef). is_pred a n y ≡ true) (sym (same n k h))
            (subst (λ (y : NodeRef). is_pred a y k ≡ true) (sym (same n m (inside laws i))) e) in
        cc (q, loop)

    -- The visit of a node that is not its own predecessor covers what arrives there.
    pub visit_vertex-Visited :
        is_pred a n n ≡ false
        → Seeded laws it
        → Visited laws (has_node (vertex n)) it (visit_vertex a it n)
    visit_vertex-Visited q w = record {
      pre_kept = λ k h. pre-visit_vertex k ∙ rw h refl;
      post_kept = λ k h. post-visit_vertex k ∙ rw h refl;
      seeded = λ c i. rw (pre-visit_vertex a.entry) (elim (Bool-cases (n == a.entry)) [
        | inl h ↦
            rw h (laws.normalize-has joined c (arrives q w (Inflow.seed {n = a.entry} h refl i)))
        | inr h ↦ rw h (w c i)
      ]);
      covers_pre = λ k c i.
          rw (pre-visit_vertex k, inside laws i) (laws.normalize-has joined c (arrives q w i));
      covers_post = λ k c d i x.
          rw (post-visit_vertex k, inside laws i)
            (laws.normalize-has _ d (
              laws.node-has n joined c d (arrives q w i)
                (subst (λ (y : NodeRef). p.exec y c d) (sym (same n k (inside laws i))) x)));
    }
