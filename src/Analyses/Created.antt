-- ===== src/Analyses/Created.antt =====
-- factory.cpp: what the creation of the checkers and of the analyses leaves in the managers.
use knight.Prelude.{
  ℕ, ◌≤◌, ◌≡◌, refl, sym, ap, subst, ◌∙◌, inl, inr, Bool, true, false, ◌&&◌, ◌||◌, Bool-cases, List,
  [], ◌∷◌, All, if◌then◌else◌, ◌==◌, ==_iff, arith,
}
use knight.Discrete.{has_key, insert_key}
use knight.Discrete.Keys.{has_key-insert_key}
use knight.Analyses.{AnalysisManager, is_analysis_required}
use knight.Analyses.Degrees.{count, count_has}
use knight.Analyses.Places.{count_cons_eq}
use knight.Analyses.Startup.{
  CheckerManager, enable_checker, create_checkers, enable_analysis, create_analyses,
}

-- The identifiers of a table.
abbrev pub offered : {F : Type 0} → List (ℕ × F) → List ℕ
offered [] = []
offered ((id, registry) ∷ rest) = id ∷ offered rest

-- A registry function of the checker manager decides nothing on what is required.
pub record IsCheckerRegistry {Cb : Type 0} (f : CheckerManager Cb → ℕ × CheckerManager Cb)
    : Type 0 where
  pub same_required : (m : CheckerManager Cb) → (f m).1.required_checkers ≡ m.required_checkers
  pub same_dependencies :
      (m : CheckerManager Cb) → (f m).1.checker_dependencies ≡ m.checker_dependencies

module _ {Cb : Type 0} where
  pub create_checkers-same :
      (table : List (ℕ × (CheckerManager Cb → ℕ × CheckerManager Cb))) (m : CheckerManager Cb)
      → All (λ e. IsCheckerRegistry e.1) table
      → ((create_checkers table m).required_checkers ≡ m.required_checkers)
        × ((create_checkers table m).checker_dependencies ≡ m.checker_dependencies)
  unfolding create_checkers enable_checker
  create_checkers-same [] m h = (refl, refl)
  create_checkers-same ((id, f) ∷ rest) m h = elim (Bool-cases (has_key id m.required_checkers)) [
    | inl e ↦
        let step = create_checkers-same rest (enable_checker (f m)) h.1 in
        rw (create_checkers, e) (step.0 ∙ h.0.same_required m, step.1 ∙ h.0.same_dependencies m)
    | inr e ↦ rw (create_checkers, e) (create_checkers-same rest m h.1)
  ]

insert_once : (k id : ℕ) (s : List ℕ) → count k s ≤ 1 → count k (insert_key id s) ≤ 1
unfolding insert_key
insert_once k id s h = elim (Bool-cases (has_key id s)) [
  | inl e ↦ rw e h
  | inr e ↦ rw e (ground (arith, h, count_cons_eq k id s, count_has id s, (==_iff id k).0))
]

with_id :
    (id k : ℕ) (s required : List ℕ)
    → has_key id required ≡ true
    → (id == k || has_key k s) ≡ (has_key k s || (has_key k (id ∷ []) && has_key k required))
unfolding has_key
with_id id k s required h = elim (Bool-cases (id == k)) [
  | inl d ↦
      let g = subst (λ j. has_key j required ≡ true) ((==_iff id k).0 d) h in ground (arith, d, g)
  | inr d ↦ ground (arith, d)
]

without_id :
    (id k : ℕ) (s required : List ℕ)
    → has_key id required ≡ false
    → has_key k s ≡ (has_key k s || (has_key k (id ∷ []) && has_key k required))
unfolding has_key
without_id id k s required h = elim (Bool-cases (id == k)) [
  | inl d ↦
      let g = subst (λ j. has_key j required ≡ false) ((==_iff id k).0 d) h in ground (arith, d, g)
  | inr d ↦ ground (arith, d)
]

joined :
    (id : ℕ) (ids : List ℕ) (k : ℕ) (b c : Bool)
    → ((b || (has_key k (id ∷ []) && c)) || (has_key k ids && c))
      ≡ (b || (has_key k (id ∷ ids) && c))
unfolding has_key
joined id ids k b c = ground arith

module _ {St Ex Nd Cx : Type 0} where
  -- What `register_analysis` does of an analysis whose own function only registers callbacks.
  pub record IsAnalysisRegistry (id : ℕ)
      (f : AnalysisManager St Ex Nd Cx → ℕ × AnalysisManager St Ex Nd Cx) : Type 0 where
    pub same_id : (m : AnalysisManager St Ex Nd Cx) → (f m).0 ≡ id
    pub adds_id : (m : AnalysisManager St Ex Nd Cx) → (f m).1.analyses ≡ insert_key id m.analyses
    pub same_dependencies :
        (m : AnalysisManager St Ex Nd Cx) → (f m).1.dependencies ≡ m.dependencies
    pub same_privileged : (m : AnalysisManager St Ex Nd Cx) → (f m).1.privileged ≡ m.privileged
    pub same_required : (m : AnalysisManager St Ex Nd Cx) → (f m).1.required ≡ m.required
    pub same_enabled :
        (m : AnalysisManager St Ex Nd Cx) → (f m).1.enabled_analyses ≡ m.enabled_analyses

  -- The manager after the creation of those of the analyses that are required.
  pub record IsCreated (ids : List ℕ) (m r : AnalysisManager St Ex Nd Cx) : Type 0 where
    pub dependencies_eq : r.dependencies ≡ m.dependencies
    pub privileged_eq : r.privileged ≡ m.privileged
    pub required_eq : r.required ≡ m.required
    pub registered :
        (k : ℕ)
        → has_key k r.analyses ≡ (has_key k m.analyses || (has_key k ids && has_key k m.required))
    pub enabled :
        (k : ℕ)
        → has_key k r.enabled_analyses
          ≡ (has_key k m.enabled_analyses || (has_key k ids && has_key k m.required))
    pub once : (k : ℕ) → count k m.analyses ≤ 1 → count k r.analyses ≤ 1

  unfoldable create_one :
      ℕ
      → (AnalysisManager St Ex Nd Cx → ℕ × AnalysisManager St Ex Nd Cx)
      → AnalysisManager St Ex Nd Cx
      → AnalysisManager St Ex Nd Cx
  create_one id f m = if is_analysis_required m id then enable_analysis (f m) else m

  create_one-IsCreated :
      (id : ℕ) (f : AnalysisManager St Ex Nd Cx → ℕ × AnalysisManager St Ex Nd Cx)
      (m : AnalysisManager St Ex Nd Cx)
      → IsAnalysisRegistry id f
      → IsCreated (id ∷ []) m (create_one id f m)
  unfolding create_one enable_analysis is_analysis_required
  create_one-IsCreated id f m l = elim (Bool-cases (has_key id m.required)) [
    | inl e ↦ rw e (record {
      dependencies_eq = l.same_dependencies m;
      privileged_eq = l.same_privileged m;
      required_eq = l.same_required m;
      registered = λ k.
          ap (has_key k) (l.adds_id m)
          ∙ (has_key-insert_key k id m.analyses ∙ with_id id k m.analyses m.required e);
      enabled = λ k.
          has_key-insert_key k (f m).0 (f m).1.enabled_analyses
          ∙ (rw (l.same_id m, l.same_enabled m) (with_id id k m.enabled_analyses m.required e));
      once = λ k h. subst (λ s. count k s ≤ 1) (sym (l.adds_id m)) (insert_once k id m.analyses h);
    })
    | inr e ↦ rw e (record {
      dependencies_eq = refl;
      privileged_eq = refl;
      required_eq = refl;
      registered = λ k. without_id id k m.analyses m.required e;
      enabled = λ k. without_id id k m.enabled_analyses m.required e;
      once = λ k h. h;
    })
  ]

  no_ids-IsCreated : (m : AnalysisManager St Ex Nd Cx) → IsCreated [] m m
  unfolding has_key
  no_ids-IsCreated m = record {
    dependencies_eq = refl;
    privileged_eq = refl;
    required_eq = refl;
    registered = λ k. ground arith;
    enabled = λ k. ground arith;
    once = λ k h. h;
  }

  then-IsCreated :
      (id : ℕ) (ids : List ℕ) (m n r : AnalysisManager St Ex Nd Cx)
      → IsCreated (id ∷ []) m n
      → IsCreated ids n r
      → IsCreated (id ∷ ids) m r
  then-IsCreated id ids m n r a b = record {
    dependencies_eq = b.dependencies_eq ∙ a.dependencies_eq;
    privileged_eq = b.privileged_eq ∙ a.privileged_eq;
    required_eq = b.required_eq ∙ a.required_eq;
    registered = λ k.
        b.registered k
        ∙ rw (a.registered k, a.required_eq)
            (joined id ids k (has_key k m.analyses) (has_key k m.required));
    enabled = λ k.
        b.enabled k
        ∙ rw (a.enabled k, a.required_eq)
            (joined id ids k (has_key k m.enabled_analyses) (has_key k m.required));
    once = λ k h. b.once k (a.once k h);
  }

  pub create_analyses-IsCreated :
      (table : List (ℕ × (AnalysisManager St Ex Nd Cx → ℕ × AnalysisManager St Ex Nd Cx)))
      (m : AnalysisManager St Ex Nd Cx)
      → All (λ e. IsAnalysisRegistry e.0 e.1) table
      → IsCreated (offered table) m (create_analyses table m)
  unfolding create_analyses create_one
  create_analyses-IsCreated [] m h = no_ids-IsCreated m
  create_analyses-IsCreated ((id, f) ∷ rest) m h =
      then-IsCreated id (offered rest) m (create_one id f m)
        (create_analyses rest (create_one id f m)) (create_one-IsCreated id f m h.0)
        (create_analyses-IsCreated rest (create_one id f m) h.1)
