-- ===== src/Analyses/Sorted.antt =====
-- analysis_manager.cpp: the order that `compute_topological_order` gives.
use knight.Prelude.{
  ℕ, zero, suc, ◌+◌, ◌≤◌, ◌<◌, ◌≡◌, refl, sym, subst, inl, inr, true, false, Bool-cases, none, some,
  List, [], ◌∷◌, length, if◌then◌else◌, ◌==◌, ==_iff, arith, Returns, Returns-bind,
}
use knight.Prelude.Int.{ℤ}
use knight.Prelude.Assoc.{find, IsMap}
use knight.Discrete.{has_key, erase_key}
use knight.Analyses.{set_at, size_of}
use knight.Analyses.Order.{zero_ids, count_all, start_degrees, sort_all, compute_topological_order}
use knight.Analyses.Degrees.{count, edges, count_has, initial-Counts, count-zero_ids}
use knight.Analyses.Queue.{nil_has}
use knight.Analyses.Pending.{In, pending-le}
use knight.Analyses.Kahn.{IsRegistry, IsRun, Finished, sort_queue_lem}
use knight.Analyses.Places.{Status, is_before, count_cons_eq}

count_nothing : (n : ℕ) → count n [] ≡ 0
unfolding count
count_nothing n = refl

length-zero_ids : (ids : List ℕ) (m : List (ℕ × ℤ)) → length (zero_ids ids m) ≤ length ids
unfolding zero_ids
length-zero_ids [] m = ground arith
length-zero_ids (id ∷ ids) m = ground (arith, length-zero_ids ids m)

set_at-cons :
    (k id : ℕ) (ids : List ℕ) (m : List (ℕ × List ℕ))
    → set_at k ((id, ids) ∷ m) ≡ (if id == k then ids else set_at k m)
unfolding set_at
set_at-cons k id ids m = elim (Bool-cases (id == k)) [
  | inl e ↦ rw (set_at, e) refl
  | inr e ↦ rw (set_at, e) refl
]

set_at-absent : (k : ℕ) (m : List (ℕ × List ℕ)) → find k m ≡ none → set_at k m ≡ []
unfolding set_at
set_at-absent k m h = rw (set_at, h) refl

set_at-later :
    (k id n : ℕ) (ids : List ℕ) (m : List (ℕ × List ℕ))
    → find id m ≡ none
    → In (set_at k m) n
    → In (set_at k ((id, ids) ∷ m)) n
set_at-later k id n ids m h i = elim (Bool-cases (id == k)) [
  | inl e ↦ absurd (
      nil_has n (
        subst (λ s. In s n) (set_at-absent id m h)
          (subst (λ j. In (set_at j m) n) (sym ((==_iff id k).0 e)) i)))
  | inr e ↦ rw (set_at-cons k id ids m, e) i
]

set_at-first :
    (id n : ℕ) (ids : List ℕ) (m : List (ℕ × List ℕ)) → In ids n → In (set_at id ((id, ids) ∷ m)) n
set_at-first id n ids m h = rw (set_at-cons id id ids m, (==_iff id id).1 refl) h

-- An open dependency on `n` is one of an analysis that is not done.
edges-open :
    (m : List (ℕ × List ℕ)) (n : ℕ) (done : List ℕ)
    → IsMap m
    → 1 ≤ edges m n done
    → (k : ℕ) × (In (set_at k m) n × (has_key k done ≡ false))
unfolding edges
edges-open [] n done h l = absurd (omega arith)
edges-open ((id, ids) ∷ m) n done h l = elim (Bool-cases (has_key id done)) [
  | inl e ↦
      let rest = edges-open m n done h.1 (ground arith) in
      (rest.0, (set_at-later rest.0 id n ids m h.0 rest.1.0, rest.1.1))
  | inr e ↦ elim (Bool-cases (has_key n ids)) [
    | inl c ↦ (id, (set_at-first id n ids m c, e))
    | inr c ↦
        let rest = edges-open m n done h.1 (ground (arith, count_has n ids)) in
        (rest.0, (set_at-later rest.0 id n ids m h.0 rest.1.0, rest.1.1))
  ]
]

erase_one :
    (n k : ℕ) (s : List ℕ)
    → In s k
    → count n s ≡ (if k == n then suc (count n (erase_key k s)) else count n (erase_key k s))
unfolding count erase_key has_key
erase_one n k [] h = absurd (ground arith)
erase_one n k (x ∷ s) h = elim (Bool-cases (x == k)) [
  | inl e ↦ rw (e, (==_iff x k).0 e) refl
  | inr e ↦ ground (arith, erase_one n k s)
]

length-erase_key : (k : ℕ) (s : List ℕ) → In s k → length s ≡ suc (length (erase_key k s))
unfolding erase_key has_key
length-erase_key k [] h = absurd (ground arith)
length-erase_key k (x ∷ s) h = ground (arith, length-erase_key k s)

same_head :
    (x : ℕ) (a b : List ℕ)
    → ((n : ℕ) → count n (x ∷ a) ≡ count n b)
    → In b x × ((n : ℕ) → count n a ≡ count n (erase_key x b))
same_head x a b h = (has, λ n. ground (arith, h n, erase_one n x b has, count_cons_eq n x a))
  where
    has : In b x
    has = ground (arith, h x, count_cons_eq x x a, count_has x b)

same_length : (a b : List ℕ) → ((n : ℕ) → count n a ≡ count n b) → length a ≡ length b
same_length [] [] h = refl
same_length [] (x ∷ b) h = absurd (ground (arith, h x, count_nothing x, count_cons_eq x x b))
same_length (x ∷ a) b h =
    let rest = same_head x a b h in
    omega (arith, same_length a (erase_key x b) rest.1, length-erase_key x b rest.0)

module _ (d : List (ℕ × List ℕ)) (all_ids privileged : List ℕ) where
  -- Each analysis once, and each that is not privileged after those that depend on it.
  pub record IsSchedule (sorted : List ℕ) : Type 0 where
    pub each_once : (n : ℕ) → count n sorted ≡ count n all_ids
    pub respects :
        (k n : ℕ) → has_key n privileged ≡ false → In (set_at k d) n → is_before k n sorted ≡ true

module _ (d : List (ℕ × List ℕ)) (all_ids privileged : List ℕ)
    (m : IsRegistry d all_ids privileged) where
  unfoldable start : List (ℕ × ℤ)
  start = count_all d (start_degrees all_ids [])

  count-queue :
      (n : ℕ)
      → count n (zero_ids all_ids start) ≡ (if edges d n [] == 0 then count n all_ids else 0)
  unfolding start
  count-queue n =
      count-zero_ids all_ids (count_all d (start_degrees all_ids [])) (λ k. edges d k []) n
        (initial-Counts d all_ids)

  start-Status :
      (n : ℕ)
      → Status (has_key n all_ids) (count n (zero_ids all_ids start) + count n []) (edges d n [])
  unfolding Status
  start-Status n = elim (Bool-cases (edges d n [] == 0)) [
    | inr e ↦ inl (ground (arith, count-queue n, count_nothing n))
    | inl e ↦ elim (Bool-cases (has_key n all_ids)) [
      | inl c ↦
          inr (
            inl (ground (arith, count-queue n, count_nothing n, count_has n all_ids, m.distinct n)))
      | inr c ↦ inr (inr (ground (arith, count-queue n, count_nothing n, count_has n all_ids)))
    ]
  ]

  start-IsRun : IsRun d all_ids privileged (zero_ids all_ids start) start [] privileged
  unfolding start
  start-IsRun = record {
    counts = initial-Counts d all_ids;
    status = start-Status;
    placed = λ n e. absurd (nil_has n e);
    ordered = λ k n i p e. absurd (ground (arith, i, p));
    once = m.distinct_privileged;
    queued = λ n e.
        ground (arith, count-queue n, count_has n all_ids, count_has n (zero_ids all_ids start));
    listed = m.known_privileged;
  }

  sort_all-Finished : Returns (Finished d all_ids privileged) (sort_all d all_ids privileged)
  unfolding sort_all start
  sort_all-Finished =
      sort_queue_lem d all_ids privileged m (length all_ids + size_of d) (zero_ids all_ids start)
        start [] privileged (omega (arith, length-zero_ids all_ids start, pending-le d)) start-IsRun

  -- Without a cycle each analysis is done in the end.
  all_done :
      (rank : ℕ → ℕ)
      → ((k n : ℕ) → In (set_at k d) n → rank k < rank n)
      → (in_degree : List (ℕ × ℤ)) (done sorted : List ℕ)
      → IsRun d all_ids privileged [] in_degree done sorted
      → (bound n : ℕ) → rank n < bound
      → In all_ids n
      → In done n
  unfolding Status
  all_done rank r in_degree done sorted h zero n l i = absurd (omega arith)
  all_done rank r in_degree done sorted h (suc bound) n l i = elim (h.status n) [
    | inl s ↦
        let waits = edges-open d n done m.has_keys s.1 in
        absurd (
          ground (
            arith,
            waits.1.1,
            all_done rank r in_degree done sorted h bound waits.0
                (omega (arith, r waits.0 n waits.1.0)) (m.known waits.0 n waits.1.0).0,
          ))
    | inr (inl s) ↦ ground (arith, s.0, count_nothing n, count_has n done)
    | inr (inr s) ↦ absurd (ground (arith, s.1.1, i))
  ]

  Finished-IsSchedule :
      (rank : ℕ → ℕ)
      → ((k n : ℕ) → In (set_at k d) n → rank k < rank n)
      → (sorted : List ℕ) → Finished d all_ids privileged sorted
      → IsSchedule d all_ids privileged sorted
  unfolding Finished
  Finished-IsSchedule rank r sorted (in_degree, (done, h)) = record {
    each_once = λ n. equal n;
    respects = λ k n p e. h.ordered k n (here n (m.known k n e).1) p e;
  }
    where
      here : (n : ℕ) → In all_ids n → In sorted n
      here n i =
          h.placed n (all_done rank r in_degree done sorted h (suc (rank n)) n (omega arith) i)

      equal : (n : ℕ) → count n sorted ≡ count n all_ids
      equal n = elim (Bool-cases (has_key n all_ids)) [
        | inl e ↦
            ground
              (arith, here n e, h.once n, m.distinct n, count_has n sorted, count_has n all_ids)
        | inr e ↦ ground (arith, h.listed n, count_has n sorted, count_has n all_ids)
      ]

  -- If registration left no second copy of a key and only registered dependencies and privileged
  -- analyses, and no analysis depends on itself, at once or by others, `compute_topological_order`
  -- ends and its assertion holds. The order has each registered analysis once, and each that is not
  -- privileged after all the analyses that depend on it.
  pub compute_topological_order_lem :
      (rank : ℕ → ℕ)
      → ((k n : ℕ) → In (set_at k d) n → rank k < rank n)
      → Returns (IsSchedule d all_ids privileged) (compute_topological_order d all_ids privileged)
  unfolding compute_topological_order
  compute_topological_order_lem rank r =
      Returns-bind (Finished d all_ids privileged) (IsSchedule d all_ids privileged)
        (sort_all d all_ids privileged)
        (λ sorted. if length sorted == length all_ids then some sorted else none) sort_all-Finished
        (λ sorted h. checked sorted (Finished-IsSchedule rank r sorted h))
    where
      checked :
          (sorted : List ℕ)
          → IsSchedule d all_ids privileged sorted
          → Returns
              (IsSchedule d all_ids privileged)
              (if length sorted == length all_ids then some sorted else none)
      checked sorted h =
          rw ((==_iff (length sorted) (length all_ids)).1 (same_length sorted all_ids h.each_once))
            h
