-- ===== src/Analyses/Kahn.antt =====
-- analysis_manager.cpp: the `while` loop of `compute_topological_order`.
use knight.Prelude.{
  ℕ, zero, suc, ◌+◌, ◌≤◌, ◌≡◌, refl, sym, ap, subst, ◌∙◌, ◌⊎◌, inl, inr, true, false, Bool-cases,
  List, [], ◌∷◌, ◌++◌, length, if◌then◌else◌, ◌==◌, ==_iff, arith, Returns,
}
use knight.Prelude.Int.{ℤ, pos}
use knight.Prelude.Assoc.{IsMap}
use knight.Discrete.{has_key, insert_key}
use knight.Analyses.{set_at}
use knight.Analyses.Order.{release, sort_queue}
use knight.Analyses.Degrees.{
  count, edges, edges-done, edges-has, count_has, Counts, arrivals, release-Counts,
}
use knight.Analyses.Queue.{cons_has, first_has, rest_has}
use knight.Analyses.Pending.{In, pending, pending-visit}
use knight.Analyses.Places.{
  is_before, before-has, before-last, has_last, Status, step-Status, length-release, count_cons_eq,
}

-- What registration leaves: maps and sets without a second copy of a key, and dependencies and
-- privileged analyses that are registered.
pub record IsRegistry (d : List (ℕ × List ℕ)) (all_ids privileged : List ℕ) : Type 0 where
  pub has_keys : IsMap d
  pub distinct : (n : ℕ) → count n all_ids ≤ 1
  pub distinct_privileged : (n : ℕ) → count n privileged ≤ 1
  pub known_privileged : (n : ℕ) → In privileged n → In all_ids n
  pub known : (k n : ℕ) → In (set_at k d) n → In all_ids k × In all_ids n

pub count_last :
    (n x : ℕ) (s : List ℕ)
    → count n (s ++ (x ∷ [])) ≡ (if x == n then suc (count n s) else count n s)
unfolding count
count_last n x [] = ground arith
count_last n x (y ∷ s) = ground (arith, count_last n x s)

insert_key-new : (k : ℕ) (s : List ℕ) → has_key k s ≡ false → insert_key k s ≡ k ∷ s
unfolding insert_key
insert_key-new k s e = rw e refl

module _ (d : List (ℕ × List ℕ)) (all_ids privileged : List ℕ) where
  pub record IsRun (q : List ℕ) (in_degree : List (ℕ × ℤ)) (done sorted : List ℕ) : Type 0 where
    pub counts : Counts in_degree (λ n. edges d n done)
    pub status : (n : ℕ) → Status (has_key n all_ids) (count n q + count n done) (edges d n done)
    pub placed : (n : ℕ) → In done n → In sorted n
    pub ordered :
        (k n : ℕ)
        → In sorted n
        → has_key n privileged ≡ false
        → In (set_at k d) n
        → is_before k n sorted ≡ true
    pub once : (n : ℕ) → count n sorted ≤ 1
    pub queued : (n : ℕ) → In q n → In all_ids n
    pub listed : (n : ℕ) → In sorted n → In all_ids n

  current_fresh :
      (cur : ℕ) (q : List ℕ) (in_degree : List (ℕ × ℤ)) (done sorted : List ℕ)
      → IsRun (cur ∷ q) in_degree done sorted
      → (has_key cur done ≡ false) × (edges d cur done ≡ 0)
  unfolding Status
  current_fresh cur q in_degree done sorted h = elim (h.status cur) [
    | inl s ↦ absurd (ground (arith, s.0, count_cons_eq cur cur q))
    | inr (inl s) ↦ (ground (arith, s.0, count_cons_eq cur cur q, count_has cur done), s.1)
    | inr (inr s) ↦ absurd (ground (arith, s.0, count_cons_eq cur cur q))
  ]

  unfoldable add_sorted : ℕ → List ℕ → List ℕ
  add_sorted cur sorted = if has_key cur sorted then sorted else sorted ++ (cur ∷ [])

  sorted_keeps : (n cur : ℕ) (sorted : List ℕ) → In sorted n → In (add_sorted cur sorted) n
  unfolding add_sorted
  sorted_keeps n cur sorted h = ground (arith, has_last n cur sorted)

  sorted_has : (cur : ℕ) (sorted : List ℕ) → In (add_sorted cur sorted) cur
  unfolding add_sorted
  sorted_has cur sorted = ground (arith, has_last cur cur sorted)

  -- What an analysis without open dependencies follows is done.
  follows_done : (k n : ℕ) (done : List ℕ) → edges d n done ≡ 0 → In (set_at k d) n → In done k
  follows_done k n done e h = elim (Bool-cases (has_key k done)) [
    | inl c ↦ c
    | inr c ↦ absurd (omega (arith, edges-has d n k done h c))
  ]

  was_sorted :
      (n cur : ℕ) (sorted : List ℕ) → In (add_sorted cur sorted) n → (cur ≡ n) ⊎ In sorted n
  unfolding add_sorted
  was_sorted n cur sorted h = ground (arith, has_last n cur sorted)

  before_keeps :
      (k n cur : ℕ) (sorted : List ℕ)
      → is_before k n sorted ≡ true
      → is_before k n (add_sorted cur sorted) ≡ true
  unfolding add_sorted
  before_keeps k n cur sorted h = elim (Bool-cases (has_key cur sorted)) [
    | inl e ↦ rw e h
    | inr e ↦ rw e (before-has k n sorted (cur ∷ []) h)
  ]

  before_new :
      (k cur : ℕ) (sorted : List ℕ)
      → In sorted k
      → has_key cur sorted ≡ false
      → is_before k cur (add_sorted cur sorted) ≡ true
  unfolding add_sorted
  before_new k cur sorted h e = rw e (before-last k cur sorted h e)

  ordered_step :
      (cur : ℕ) (q : List ℕ) (in_degree : List (ℕ × ℤ)) (done sorted : List ℕ)
      → IsRun (cur ∷ q) in_degree done sorted
      → (k n : ℕ) → In (add_sorted cur sorted) n
      → has_key n privileged ≡ false
      → In (set_at k d) n
      → is_before k n (add_sorted cur sorted) ≡ true
  ordered_step cur q in_degree done sorted h k n i p e = elim (Bool-cases (has_key n sorted)) [
    | inl c ↦ before_keeps k n cur sorted (h.ordered k n c p e)
    | inr c ↦ elim (was_sorted n cur sorted i) [
      | inr w ↦ absurd (ground (arith, w, c))
      | inl w ↦
          subst (λ j. is_before k j (add_sorted cur sorted) ≡ true) w
            (before_new k cur sorted
              (h.placed k (
                follows_done k cur done (current_fresh cur q in_degree done sorted h).1
                  (subst (In (set_at k d)) (sym w) e)))
              (subst (λ j. has_key j sorted ≡ false) (sym w) c))
    ]
  ]

  sorted_once :
      (n cur : ℕ) (sorted : List ℕ) → count n sorted ≤ 1 → count n (add_sorted cur sorted) ≤ 1
  unfolding add_sorted
  sorted_once n cur sorted h = elim (Bool-cases (has_key cur sorted)) [
    | inl e ↦ rw e h
    | inr e ↦ rw e (ground (arith, count_last n cur sorted, count_has cur sorted, ==_iff cur n))
  ]

  step-IsRun :
      IsRegistry d all_ids privileged
      → (cur : ℕ) (q : List ℕ) (in_degree : List (ℕ × ℤ)) (done sorted : List ℕ)
      → IsRun (cur ∷ q) in_degree done sorted
      → IsRun
          (release (set_at cur d) in_degree q).1
          (release (set_at cur d) in_degree q).0
          (cur ∷ done)
          (add_sorted cur sorted)
  step-IsRun m cur q in_degree done sorted h = record {
    counts = released.0;
    status = λ n.
        subst (λ a. Status (has_key n all_ids) (a + count n (cur ∷ done)) (edges d n (cur ∷ done)))
          (sym (released.1 n))
          (rw (count_cons_eq n cur done) (
            step-Status (cur == n) (has_key n all_ids) (count n q) (count n done)
              (edges d n (cur ∷ done)) (count n (set_at cur d)) (edges d n done) (gone n)
              (rw⁻¹ (count_cons_eq n cur q) (h.status n))));
    placed = λ n e. elim (cons_has cur n done e) [
      | inl c ↦ subst (In (add_sorted cur sorted)) c (sorted_has cur sorted)
      | inr c ↦ sorted_keeps n cur sorted (h.placed n c)
    ];
    ordered = ordered_step cur q in_degree done sorted h;
    once = λ n. sorted_once n cur sorted (h.once n);
    queued = λ n e. elim (Bool-cases (has_key n q)) [
      | inl c ↦ h.queued n (rest_has cur n q c)
      | inr c ↦ (m.known cur n (arrived n c e)).1
    ];
    listed = λ n e. elim (was_sorted n cur sorted e) [
      | inl c ↦ h.queued n (subst (In (cur ∷ q)) c (first_has cur q))
      | inr c ↦ h.listed n c
    ];
  }
    where
      gone : (n : ℕ) → edges d n (cur ∷ done) + count n (set_at cur d) ≡ edges d n done
      gone n = edges-done d n cur done m.has_keys (current_fresh cur q in_degree done sorted h).0

      released :
          Counts (release (set_at cur d) in_degree q).0 (λ n. edges d n (cur ∷ done))
          × ((n : ℕ)
              → count n (release (set_at cur d) in_degree q).1
                ≡ count n q + arrivals (edges d n (cur ∷ done)) (count n (set_at cur d)))
      released =
          release-Counts (set_at cur d) in_degree q (λ n. edges d n (cur ∷ done))
            (λ n. h.counts n ∙ ap (λ c. pos c) (omega (arith, gone n)))

      arrived :
          (n : ℕ)
          → has_key n q ≡ false
          → In (release (set_at cur d) in_degree q).1 n
          → In (set_at cur d) n
      arrived n c e = ground (
        arith,
        released.1 n,
        count_has n (release (set_at cur d) in_degree q).1,
        count_has n q,
        count_has n (set_at cur d),
      )

  -- What the loop ends with.
  unfoldable pub Finished : List ℕ → Type 0
  Finished sorted = (in_degree : List (ℕ × ℤ)) × ((done : List ℕ) × IsRun [] in_degree done sorted)

  pending-done :
      (cur : ℕ) (done : List ℕ)
      → has_key cur done ≡ false
      → pending d (cur ∷ done) + length (set_at cur d) ≤ pending d done
  pending-done cur done e =
      subst (λ l. pending d l + length (set_at cur d) ≤ pending d done) (insert_key-new cur done e)
        (pending-visit d cur done e)

  pub sort_queue_lem :
      IsRegistry d all_ids privileged
      → (fuel : ℕ) (q : List ℕ) (in_degree : List (ℕ × ℤ)) (done sorted : List ℕ)
      → length q + pending d done ≤ fuel
      → IsRun q in_degree done sorted
      → Returns Finished (sort_queue fuel d q in_degree sorted)
  unfolding sort_queue Finished add_sorted
  sort_queue_lem m fuel [] in_degree done sorted l h = (in_degree, (done, h))
  sort_queue_lem m zero (cur ∷ q) in_degree done sorted l h = absurd (omega arith)
  sort_queue_lem m (suc fuel) (cur ∷ q) in_degree done sorted l h =
      let fresh = current_fresh cur q in_degree done sorted h in
      sort_queue_lem m fuel (release (set_at cur d) in_degree q).1
        (release (set_at cur d) in_degree q).0 (cur ∷ done) (add_sorted cur sorted)
        (omega (arith, pending-done cur done fresh.0, length-release (set_at cur d) in_degree q))
        (step-IsRun m cur q in_degree done sorted h)
