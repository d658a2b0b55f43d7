-- ===== src/Analyses/Required.antt =====
-- analysis_manager.cpp, checker_manager.cpp and knight.cpp: the analyses that are required in the end.
use knight.Prelude.{
  ℕ, ◌+◌, ◌≡◌, refl, sym, subst, ap, ◌∙◌, ◌↔◌, inl, inr, Bool, true, Bool-cases, some, List, [],
  ◌∷◌, length, arith, Returns, Returns-imp, Returns-bind, All, if◌then◌else◌,
}
use knight.Discrete.{has_key, insert_key}
use knight.Analyses.{
  AnalysisManager, size_of, require_queue, compute_all_required_analyses_by_dependencies,
  require_all, require_by_checkers, require_analyses, add_required_analysis,
}
use knight.Analyses.Queue.{
  IsLeast, require_queue_lem, insert_has, insert_keeps, insert_was, nil_has, cons_has, first_has,
  rest_has,
}
use knight.Analyses.Pending.{IsClosed, HasAll, In, Says, pending-le}

-- The analyses that are asked for have the property: those of the required checkers, and the lists.
abbrev pub Asked : (ℕ → Type 0) → List ℕ → List (ℕ × List ℕ) → List ℕ → List ℕ → List ℕ → Type 0
Asked P required_checkers checker_dependencies directly_enabled core_enabled required =
    All (λ e. has_key e.0 required_checkers ≡ true → HasAll P e.1) checker_dependencies
    × (HasAll P directly_enabled × (HasAll P core_enabled × HasAll P required))

HasAll-insert :
    (P : ℕ → Type 0) (id : ℕ) (s : List ℕ) → HasAll P (insert_key id s) ↔ (P id × HasAll P s)
HasAll-insert P id s = (
  λ h. (h id (insert_has id s), λ k e. h k (insert_keeps id k s e)),
  λ h k e. elim (insert_was id k s e) [ inl d ↦ subst P d h.0 | inr d ↦ h.1 k d ],
)

HasAll-cons : (P : ℕ → Type 0) (id : ℕ) (s : List ℕ) → HasAll P (id ∷ s) ↔ (P id × HasAll P s)
HasAll-cons P id s = (
  λ h. (h id (first_has id s), λ k e. h k (rest_has id k s e)),
  λ h k e. elim (cons_has id k s e) [ inl d ↦ subst P d h.0 | inr d ↦ h.1 k d ],
)

module _ {St Ex Nd Cx : Type 0} where
  require_all-frame :
      (m : AnalysisManager St Ex Nd Cx) (ids : List ℕ)
      → require_all m ids ≡ record m { required = (require_all m ids).required }
  unfolding require_all add_required_analysis
  require_all-frame m [] = refl
  require_all-frame m (id ∷ ids) = require_all-frame (add_required_analysis m id) ids

  require_all-HasAll :
      (P : ℕ → Type 0) (m : AnalysisManager St Ex Nd Cx) (ids : List ℕ)
      → HasAll P (require_all m ids).required ↔ (HasAll P ids × HasAll P m.required)
  unfolding require_all add_required_analysis
  require_all-HasAll P m [] = (λ h. (λ k e. absurd (nil_has k e), h), λ h. h.1)
  require_all-HasAll P m (id ∷ ids) = (
    λ h.
        let rest = (require_all-HasAll P (add_required_analysis m id) ids).0 h in
        let first = (HasAll-insert P id m.required).0 rest.1 in
        ((HasAll-cons P id ids).1 (first.0, rest.0), first.1),
    λ h.
        let first = (HasAll-cons P id ids).0 h.0 in
        (require_all-HasAll P (add_required_analysis m id) ids).1
          (first.1, (HasAll-insert P id m.required).1 (first.0, h.1)),
  )

  -- The round of the loop for one checker.
  unfoldable round : List ℕ → ℕ → List ℕ → AnalysisManager St Ex Nd Cx → AnalysisManager St Ex Nd Cx
  round c id ids m = if has_key id c then require_all m ids else m

  round-frame :
      (c : List ℕ) (id : ℕ) (ids : List ℕ) (m : AnalysisManager St Ex Nd Cx)
      → round c id ids m ≡ record m { required = (round c id ids m).required }
  unfolding round
  round-frame c id ids m = elim (Bool-cases (has_key id c)) [
    | inl e ↦ rw e (require_all-frame m ids)
    | inr e ↦ rw e refl
  ]

  round-HasAll :
      (P : ℕ → Type 0) (c : List ℕ) (id : ℕ) (ids : List ℕ) (m : AnalysisManager St Ex Nd Cx)
      → HasAll P (round c id ids m).required
        ↔ ((has_key id c ≡ true → HasAll P ids) × HasAll P m.required)
  unfolding round
  round-HasAll P c id ids m = elim (Bool-cases (has_key id c)) [
    | inl e ↦ rw e (
      λ h. (λ t. ((require_all-HasAll P m ids).0 h).0, ((require_all-HasAll P m ids).0 h).1),
      λ h. (require_all-HasAll P m ids).1 (h.0 refl, h.1),
    )
    | inr e ↦ rw e (λ h. (λ t. absurd (ground (arith, t)), h), λ h. h.1)
  ]

  require_by_checkers-frame :
      (c : List ℕ) (d : List (ℕ × List ℕ)) (m : AnalysisManager St Ex Nd Cx)
      → require_by_checkers c d m ≡ record m { required = (require_by_checkers c d m).required }
  unfolding require_by_checkers round
  require_by_checkers-frame c [] m = refl
  require_by_checkers-frame c ((id, ids) ∷ d) m =
      require_by_checkers-frame c d (round c id ids m)
      ∙ ap {A = AnalysisManager St Ex Nd Cx}
          (λ n. record n { required = (require_by_checkers c d (round c id ids m)).required })
          (round-frame c id ids m)

  require_by_checkers-HasAll :
      (P : ℕ → Type 0) (c : List ℕ) (d : List (ℕ × List ℕ)) (m : AnalysisManager St Ex Nd Cx)
      → HasAll P (require_by_checkers c d m).required
        ↔ (All (λ e. has_key e.0 c ≡ true → HasAll P e.1) d × HasAll P m.required)
  unfolding require_by_checkers round
  require_by_checkers-HasAll P c [] m = (λ h. (tt, h), λ h. h.1)
  require_by_checkers-HasAll P c ((id, ids) ∷ d) m = (
    λ h.
        let rest = (require_by_checkers-HasAll P c d (round c id ids m)).0 h in
        let first = (round-HasAll P c id ids m).0 rest.1 in ((first.0, rest.0), first.1),
    λ h.
        (require_by_checkers-HasAll P c d (round c id ids m)).1
          (h.0.1, (round-HasAll P c id ids m).1 (h.0.0, h.1)),
  )

  -- What is asked for, before the closure under dependencies.
  unfoldable asked :
      List ℕ
      → List (ℕ × List ℕ)
      → List ℕ
      → List ℕ
      → AnalysisManager St Ex Nd Cx
      → AnalysisManager St Ex Nd Cx
  asked c d directly core m = require_all (require_all (require_by_checkers c d m) directly) core

  asked-HasAll :
      (P : ℕ → Type 0) (c : List ℕ) (d : List (ℕ × List ℕ)) (directly core : List ℕ)
      (m : AnalysisManager St Ex Nd Cx)
      → HasAll P (asked c d directly core m).required ↔ Asked P c d directly core m.required
  unfolding asked
  asked-HasAll P c d directly core m =
      let n = require_by_checkers c d m in
      (
        λ h.
            let last = (require_all-HasAll P (require_all n directly) core).0 h in
            let middle = (require_all-HasAll P n directly).0 last.1 in
            let first = (require_by_checkers-HasAll P c d m).0 middle.1 in
            (first.0, (middle.0, (last.0, first.1))),
        λ h. (require_all-HasAll P (require_all n directly) core).1 (
          h.1.1.0,
          (require_all-HasAll P n directly).1
              (h.1.0, (require_by_checkers-HasAll P c d m).1 (h.0, h.1.1.1)),
        ),
      )

  asked-frame :
      (c : List ℕ) (d : List (ℕ × List ℕ)) (directly core : List ℕ)
      (m : AnalysisManager St Ex Nd Cx)
      → asked c d directly core m ≡ record m { required = (asked c d directly core m).required }
  unfolding asked
  asked-frame c d directly core m =
      let n = require_by_checkers c d m in
      require_all-frame (require_all n directly) core
      ∙ ap {A = AnalysisManager St Ex Nd Cx}
          (λ k. record k { required = (asked c d directly core m).required })
          (require_all-frame n directly ∙ with_directly (require_by_checkers-frame c d m))
    where
      with_directly :
          {k j : AnalysisManager St Ex Nd Cx}
          → k ≡ j
          → record k { required = (require_all (require_by_checkers c d m) directly).required }
            ≡ record j { required = (require_all (require_by_checkers c d m) directly).required }
      with_directly e =
          ap {A = AnalysisManager St Ex Nd Cx}
            (λ k. record k {
              required = (require_all (require_by_checkers c d m) directly).required;
            })
            e

  unfoldable IsClosure : AnalysisManager St Ex Nd Cx → AnalysisManager St Ex Nd Cx → Type 0
  IsClosure n r =
      IsLeast n.dependencies n.required n.required r.required
      × (r ≡ record n { required = r.required })

  compute_all-IsClosure :
      (n : AnalysisManager St Ex Nd Cx)
      → Returns (IsClosure n) (compute_all_required_analyses_by_dependencies n)
  unfolding compute_all_required_analyses_by_dependencies IsClosure
  compute_all-IsClosure n =
      Returns-bind (IsLeast n.dependencies n.required n.required) (IsClosure n)
        (require_queue (length n.required + size_of n.dependencies) n.dependencies n.required []
          n.required)
        (λ required. some (record n { required = required }))
        (require_queue_lem n.dependencies (length n.required + size_of n.dependencies) n.required []
          n.required (omega (arith, pending-le n.dependencies)) (λ k e. absurd (nil_has k e))
          (record { waits = λ k e. inl e; follows = λ k dep e d. absurd (nil_has k e) }))
        (λ required h. (h, refl))

  pub record Requires (c : List ℕ) (d : List (ℕ × List ℕ)) (directly core : List ℕ)
      (m r : AnalysisManager St Ex Nd Cx) : Type 0 where
    pub asked_for : Asked (In r.required) c d directly core m.required
    pub closed : IsClosed m.dependencies (In r.required)
    pub least :
        (p : ℕ → Bool)
        → IsClosed m.dependencies (Says p)
        → Asked (Says p) c d directly core m.required
        → HasAll (Says p) r.required
    pub frame : r ≡ record m { required = r.required }

  -- The steps between the creation of the checkers and that of the analyses end with a manager that
  -- requires all that is asked for and the dependencies of what it requires, and nothing that these
  -- two do not force; these steps leave the rest of the manager as it was.
  pub require_analyses_lem :
      (c : List ℕ) (d : List (ℕ × List ℕ)) (directly core : List ℕ)
      (m : AnalysisManager St Ex Nd Cx)
      → Returns (Requires c d directly core m) (require_analyses c d directly core m)
  unfolding require_analyses asked IsClosure
  require_analyses_lem c d directly core m =
      Returns-imp (IsClosure n) (Requires c d directly core m)
        (compute_all_required_analyses_by_dependencies n) closure (compute_all-IsClosure n)
    where
      n : AnalysisManager St Ex Nd Cx
      n = asked c d directly core m

      same : n.dependencies ≡ m.dependencies
      same = ap (λ k. k.dependencies) (asked-frame c d directly core m)

      closure : (r : AnalysisManager St Ex Nd Cx) → IsClosure n r → Requires c d directly core m r
      closure r h = record {
        asked_for = (asked-HasAll (In r.required) c d directly core m).0 h.0.grows;
        closed = subst (λ e. IsClosed e (In r.required)) same h.0.closed;
        least = λ p a b.
            let all = (asked-HasAll (Says p) c d directly core m).1 b in
            h.0.least p (subst (λ e. IsClosed e (Says p)) (sym same) a) all all;
        frame =
            h.1
            ∙ ap {A = AnalysisManager St Ex Nd Cx} (λ k. record k { required = r.required })
                (asked-frame c d directly core m);
      }
