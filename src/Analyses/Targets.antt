-- ===== src/Analyses/Targets.antt =====
-- analysis_manager.cpp: the targets of a run and the calls of their callbacks.
use knight.Prelude.{
  ℕ, ◌≡◌, refl, sym, ap, ◌∙◌, inl, inr, Bool, true, false, ◌&&◌, ◌||◌, Bool-cases, Option-cases,
  Option, none, some, List, [], ◌∷◌, ◌==◌, ==_iff, if◌then◌else◌, arith,
}
use knight.Prelude.Assoc.{find}
use knight.Discrete.{has_key, insert_key}
use knight.Discrete.Keys.{has_key-insert_key}
use knight.Analyses.{
  AnalysisManager, AnalysisCallBack, emplace, get_subset_order, is_analysis_required, collect,
  call_ordered,
}

unfoldable is_some {ℓ} : {A : Type ℓ} → Option A → Bool
is_some none = false
is_some (some a) = true

unfoldable or_else {ℓ} : {A : Type ℓ} → Option A → Option A → Option A
or_else none o = o
or_else (some a) o = some a

nothing_has : (V : Type 0) (id : ℕ) → has_key id [] ≡ is_some (find {V = V} id [])
unfolding has_key is_some
nothing_has V id = refl

module _ {Ar Cx : Type 0} where
  -- The first callback of an analysis in the order of registration.
  abbrev pub first_with : ℕ → List (AnalysisCallBack Ar Cx) → Option (AnalysisCallBack Ar Cx)
  first_with id [] = none
  first_with id (cb ∷ cbs) =
      let rest = first_with id cbs in if cb.get_id == id then some cb else rest

  -- The callback that stands for an analysis: its first one, if the analysis is required.
  abbrev pub chosen : List ℕ → List (AnalysisCallBack Ar Cx) → ℕ → Option (AnalysisCallBack Ar Cx)
  chosen required cbs id = if has_key id required then first_with id cbs else none

  abbrev pub with_first :
      Option (AnalysisCallBack Ar Cx)
      → List (AnalysisCallBack Ar Cx)
      → List (AnalysisCallBack Ar Cx)
  with_first none cbs = cbs
  with_first (some cb) cbs = cb ∷ cbs

  -- The callbacks of an order of analyses.
  abbrev pub scheduled :
      (ℕ → Option (AnalysisCallBack Ar Cx)) → List ℕ → List (AnalysisCallBack Ar Cx)
  scheduled choice [] = []
  scheduled choice (id ∷ ids) = with_first (choice id) (scheduled choice ids)

  abbrev pub call_all : List (AnalysisCallBack Ar Cx) → Ar → Cx → Cx
  call_all [] args ctx = ctx
  call_all (cb ∷ cbs) args ctx = call_all cbs args (cb.callback args ctx)

  -- The required callbacks, in the order of registration.
  abbrev pub only_required : List ℕ → List (AnalysisCallBack Ar Cx) → List (AnalysisCallBack Ar Cx)
  only_required required [] = []
  only_required required (cb ∷ cbs) =
      let rest = only_required required cbs in
      if has_key cb.get_id required then cb ∷ rest else rest

  find-emplace :
      (k j : ℕ) (v : AnalysisCallBack Ar Cx) (m : List (ℕ × AnalysisCallBack Ar Cx))
      → find k (emplace j v m) ≡ or_else (find k m) (if j == k then some v else none)
  unfolding emplace or_else
  find-emplace k j v [] = refl
  find-emplace k j v ((i, w) ∷ m) = ground (arith, find-emplace k j v m)

  call_ordered_lem :
      (choice : ℕ → Option (AnalysisCallBack Ar Cx)) (tgt_ids : List ℕ)
      (callbacks : List (ℕ × AnalysisCallBack Ar Cx))
      → ((id : ℕ) → find id callbacks ≡ choice id)
      → ((id : ℕ) → has_key id tgt_ids ≡ is_some (choice id))
      → (order : List ℕ) (args : Ar) (ctx : Cx)
      → call_ordered (get_subset_order order tgt_ids) callbacks args ctx
        ≡ some (call_all (scheduled choice order) args ctx)
  unfolding call_ordered get_subset_order is_some
  call_ordered_lem choice tgt_ids callbacks f t [] args ctx = refl
  call_ordered_lem choice tgt_ids callbacks f t (id ∷ order) args ctx =
      elim (Option-cases (choice id)) [
        | inl e ↦ rw (t id, e) (call_ordered_lem choice tgt_ids callbacks f t order args ctx)
        | inr (cb, e) ↦
            rw (t id, e, f id, e)
              (call_ordered_lem choice tgt_ids callbacks f t order args (cb.callback args ctx))
      ]

  -- The targets of a run are the analyses that have a callback in it.
  unfoldable IsAligned : List ℕ × List (ℕ × AnalysisCallBack Ar Cx) → Type 0
  IsAligned t = (id : ℕ) → has_key id t.0 ≡ is_some (find id t.1)

  -- What the loop does for one callback.
  unfoldable taken :
      List ℕ
      → AnalysisCallBack Ar Cx
      → List ℕ × List (ℕ × AnalysisCallBack Ar Cx)
      → List ℕ × List (ℕ × AnalysisCallBack Ar Cx)
  taken required cb t =
      if has_key cb.get_id required then (insert_key cb.get_id t.0, emplace cb.get_id cb t.1) else t

  aligned_or :
      (b : Bool) (o : Option (AnalysisCallBack Ar Cx)) (cb : AnalysisCallBack Ar Cx)
      → (b || is_some o) ≡ is_some (or_else o (if b then some cb else none))
  unfolding is_some or_else
  aligned_or true none cb = refl
  aligned_or true (some w) cb = refl
  aligned_or false none cb = refl
  aligned_or false (some w) cb = refl

  or_none : (o : Option (AnalysisCallBack Ar Cx)) → o ≡ or_else o none
  unfolding or_else
  or_none none = refl
  or_none (some w) = refl

  taken-IsAligned :
      (required : List ℕ) (cb : AnalysisCallBack Ar Cx)
      (t : List ℕ × List (ℕ × AnalysisCallBack Ar Cx))
      → IsAligned t
      → IsAligned (taken required cb t)
  unfolding IsAligned taken
  taken-IsAligned required cb t h id = elim (Bool-cases (has_key cb.get_id required)) [
    | inl e ↦ rw e (
        has_key-insert_key id cb.get_id t.0
        ∙ (rw (h id) (aligned_or (cb.get_id == id) (find id t.1) cb)
            ∙ ap is_some (sym (find-emplace id cb.get_id cb t.1))))
    | inr e ↦ rw e (h id)
  ]

  find-taken :
      (required : List ℕ) (cb : AnalysisCallBack Ar Cx)
      (t : List ℕ × List (ℕ × AnalysisCallBack Ar Cx)) (id : ℕ)
      → find id (taken required cb t).1
        ≡ or_else
            (find id t.1)
            (if has_key cb.get_id required && cb.get_id == id then some cb else none)
  unfolding taken
  find-taken required cb t id = elim (Bool-cases (has_key cb.get_id required)) [
    | inl e ↦ rw e (find-emplace id cb.get_id cb t.1)
    | inr e ↦ rw e (or_none (find id t.1))
  ]

  none_chosen :
      (required : List ℕ) (id : ℕ) (o : Option (AnalysisCallBack Ar Cx))
      → o ≡ or_else o (chosen required [] id)
  none_chosen required id o = elim (Bool-cases (has_key id required)) [
    | inl e ↦ rw e (or_none o)
    | inr e ↦ rw e (or_none o)
  ]

  either_way :
      (a b c : Bool) (cb : AnalysisCallBack Ar Cx) (o : Option (AnalysisCallBack Ar Cx))
      → (c ≡ true → a ≡ b)
      → or_else (if a && c then some cb else none) (if b then o else none)
        ≡ (if b then (if c then some cb else o) else none)
  unfolding or_else
  either_way true true true cb o h = refl
  either_way true false true cb o h = absurd (ground (arith, h refl))
  either_way false true true cb o h = absurd (ground (arith, h refl))
  either_way false false true cb o h = refl
  either_way true true false cb o h = refl
  either_way true false false cb o h = refl
  either_way false true false cb o h = refl
  either_way false false false cb o h = refl

  chosen-cons :
      (required : List ℕ) (cb : AnalysisCallBack Ar Cx) (infos : List (AnalysisCallBack Ar Cx))
      (id : ℕ) (o : Option (AnalysisCallBack Ar Cx))
      → or_else
          (or_else o (if has_key cb.get_id required && cb.get_id == id then some cb else none))
          (chosen required infos id)
        ≡ or_else o (chosen required (cb ∷ infos) id)
  unfolding or_else
  chosen-cons required cb infos id (some w) = refl
  chosen-cons required cb infos id none =
      either_way (has_key cb.get_id required) (has_key id required) (cb.get_id == id) cb
        (first_with id infos) (λ e. ap (λ k. has_key k required) ((==_iff cb.get_id id).0 e))

  or_else-none : (o : Option (AnalysisCallBack Ar Cx)) → or_else none o ≡ o
  unfolding or_else
  or_else-none o = refl

  module _ {St Ex Nd : Type 0} (m : AnalysisManager St Ex Nd Cx) where
    collect_lem :
        (infos : List (AnalysisCallBack Ar Cx)) (t : List ℕ × List (ℕ × AnalysisCallBack Ar Cx))
        → IsAligned t
        → IsAligned (collect m infos t)
          × ((id : ℕ)
              → find id (collect m infos t).1 ≡ or_else (find id t.1) (chosen m.required infos id))
    unfolding collect is_analysis_required taken
    collect_lem [] t h = (h, λ id. none_chosen m.required id (find id t.1))
    collect_lem (cb ∷ infos) t h =
        let rest = collect_lem infos (taken m.required cb t) (taken-IsAligned m.required cb t h) in
        (
          rest.0,
          λ id.
              rest.1 id
              ∙ (ap (λ o. or_else o (chosen m.required infos id)) (find-taken m.required cb t id)
                  ∙ chosen-cons m.required cb infos id (find id t.1)),
        )

    pub ordered_lem :
        (infos : List (AnalysisCallBack Ar Cx)) (args : Ar) (ctx : Cx)
        → call_ordered
            (get_subset_order m.full_order (collect m infos ([], [])).0)
            (collect m infos ([], [])).1
            args
            ctx
          ≡ some (call_all (scheduled (chosen m.required infos) m.full_order) args ctx)
    unfolding IsAligned
    ordered_lem infos args ctx =
        call_ordered_lem (chosen m.required infos) t.0 t.1 found
          (λ id. done.0 id ∙ ap is_some (found id)) m.full_order args ctx
      where
        t : List ℕ × List (ℕ × AnalysisCallBack Ar Cx)
        t = collect m infos ([], [])

        done : IsAligned t × ((id : ℕ) → find id t.1 ≡ or_else none (chosen m.required infos id))
        done = collect_lem infos ([], []) (nothing_has (AnalysisCallBack Ar Cx))

        found : (id : ℕ) → find id t.1 ≡ chosen m.required infos id
        found id = done.1 id ∙ or_else-none (chosen m.required infos id)
