-- ===== src/Analyses/Queue.antt =====
-- analysis_manager.cpp: the loop of `compute_all_required_analyses_by_dependencies` over its queue.
use knight.Prelude.{
  ℕ, zero, suc, ◌+◌, ◌≤◌, ◌≡◌, refl, sym, subst, ◌⊎◌, inl, inr, Bool, true, false, Bool-cases, some,
  List, [], ◌∷◌, ◌++◌, length, arith, Returns, Returns-imp,
}
use knight.Discrete.{has_key, insert_key}
use knight.Discrete.Keys.{has_key-insert_key}
use knight.Analyses.{set_at, require_queue}
use knight.Analyses.Pending.{
  IsClosed, HasAll, In, Says, pending, pending-visit, has_key-append, length-append,
}

-- What the loop keeps: the required ones wait or are visited, and so are what the visited ones
-- depend on.
pub record IsQueued (m : List (ℕ × List ℕ)) (q visited required : List ℕ) : Type 0 where
  pub waits : (id : ℕ) → In required id → In q id ⊎ In visited id
  pub follows : (id dep : ℕ) → In visited id → In (set_at id m) dep → In q dep ⊎ In visited dep

-- What the loop ends with.
pub record IsLeast (m : List (ℕ × List ℕ)) (q required result : List ℕ) : Type 0 where
  pub grows : HasAll (In result) required
  pub closed : IsClosed m (In result)
  pub least :
      (p : ℕ → Bool)
      → IsClosed m (Says p)
      → HasAll (Says p) q
      → HasAll (Says p) required
      → HasAll (Says p) result

pub first_has : (id : ℕ) (q : List ℕ) → In (id ∷ q) id
unfolding has_key
first_has id q = ground arith

pub rest_has : (id k : ℕ) (q : List ℕ) → In q k → In (id ∷ q) k
unfolding has_key
rest_has id k q e = ground arith

pub cons_has : (id k : ℕ) (q : List ℕ) → In (id ∷ q) k → (id ≡ k) ⊎ In q k
unfolding has_key
cons_has id k q e = ground arith

pub nil_has : (k : ℕ) → In [] k → ⊥
unfolding has_key
nil_has k e = ground arith

pub insert_has : (k : ℕ) (s : List ℕ) → In (insert_key k s) k
insert_has k s = ground (arith, has_key-insert_key k k s)

pub insert_keeps : (k id : ℕ) (s : List ℕ) → In s id → In (insert_key k s) id
insert_keeps k id s h = ground (arith, has_key-insert_key id k s)

pub insert_was : (k id : ℕ) (s : List ℕ) → In (insert_key k s) id → (k ≡ id) ⊎ In s id
insert_was k id s h = ground (arith, has_key-insert_key id k s)

module _ (m : List (ℕ × List ℕ)) where
  skip-IsQueued :
      (id : ℕ) (q visited required : List ℕ)
      → In visited id
      → IsQueued m (id ∷ q) visited required
      → IsQueued m q visited required
  skip-IsQueued id q visited required v h = record {
    waits = λ k e. still k (h.waits k e);
    follows = λ k dep e d. still dep (h.follows k dep e d);
  }
    where
      still : (k : ℕ) → In (id ∷ q) k ⊎ In visited k → In q k ⊎ In visited k
      still k (inr e) = inr e
      still k (inl e) = elim (cons_has id k q e) [
        | inl d ↦ inr (subst (In visited) d v)
        | inr d ↦ inl d
      ]

  visit-IsQueued :
      (id : ℕ) (q visited required : List ℕ)
      → IsQueued m (id ∷ q) visited required
      → IsQueued m (q ++ set_at id m) (insert_key id visited) (insert_key id required)
  visit-IsQueued id q visited required h = record {
    waits = λ k e. elim (insert_was id k required e) [
      | inl d ↦ inr (subst (In (insert_key id visited)) d (insert_has id visited))
      | inr d ↦ still k (h.waits k d)
    ];
    follows = λ k dep e d. elim (insert_was id k visited e) [
      | inl c ↦ inl (queued dep (subst (λ i. In (set_at i m) dep) (sym c) d))
      | inr c ↦ still dep (h.follows k dep c d)
    ];
  }
    where
      queued : (k : ℕ) → In (set_at id m) k → In (q ++ set_at id m) k
      queued k e = ground (arith, has_key-append k q (set_at id m))

      still :
          (k : ℕ)
          → In (id ∷ q) k ⊎ In visited k
          → In (q ++ set_at id m) k ⊎ In (insert_key id visited) k
      still k (inr e) = inr (insert_keeps id k visited e)
      still k (inl e) = elim (cons_has id k q e) [
        | inl d ↦ inr (subst (In (insert_key id visited)) d (insert_has id visited))
        | inr d ↦ inl (ground (arith, has_key-append k q (set_at id m)))
      ]

  done-IsLeast :
      (visited required : List ℕ)
      → HasAll (In required) visited
      → IsQueued m [] visited required
      → IsLeast m [] required required
  done-IsLeast visited required v h = record {
    grows = λ id e. e;
    closed = λ id dep e d. v dep (arrived dep (h.follows id dep (arrived id (h.waits id e)) d));
    least = λ p c a b. b;
  }
    where
      arrived : (k : ℕ) → In [] k ⊎ In visited k → In visited k
      arrived k (inr e) = e
      arrived k (inl e) = absurd (nil_has k e)

  skip-IsLeast :
      (id : ℕ) (q required result : List ℕ)
      → IsLeast m q required result
      → IsLeast m (id ∷ q) required result
  skip-IsLeast id q required result h = record {
    grows = h.grows;
    closed = h.closed;
    least = λ p c a b. h.least p c (λ k e. a k (rest_has id k q e)) b;
  }

  visit-IsLeast :
      (id : ℕ) (q required result : List ℕ)
      → IsLeast m (q ++ set_at id m) (insert_key id required) result
      → IsLeast m (id ∷ q) required result
  visit-IsLeast id q required result h = record {
    grows = λ k e. h.grows k (insert_keeps id k required e);
    closed = h.closed;
    least = λ p c a b. h.least p c (queued p c a) (added p a b);
  }
    where
      queued :
          (p : ℕ → Bool)
          → IsClosed m (Says p)
          → HasAll (Says p) (id ∷ q)
          → HasAll (Says p) (q ++ set_at id m)
      queued p c a k e = elim (Bool-cases (has_key k q)) [
        | inl d ↦ a k (rest_has id k q d)
        | inr d ↦ c id k (a id (first_has id q)) (ground (arith, has_key-append k q (set_at id m)))
      ]

      added :
          (p : ℕ → Bool)
          → HasAll (Says p) (id ∷ q)
          → HasAll (Says p) required
          → HasAll (Says p) (insert_key id required)
      added p a b k e = elim (insert_was id k required e) [
        | inl d ↦ subst (Says p) d (a id (first_has id q))
        | inr d ↦ b k d
      ]

  require_queue-visit :
      (fuel id : ℕ) (q visited required : List ℕ)
      → has_key id visited ≡ false
      → require_queue (suc fuel) m (id ∷ q) visited required
        ≡ require_queue fuel m (q ++ set_at id m) (insert_key id visited) (insert_key id required)
  unfolding require_queue
  require_queue-visit fuel id q visited required e = rw e refl

  require_queue-skip :
      (fuel id : ℕ) (q visited required : List ℕ)
      → has_key id visited ≡ true
      → require_queue (suc fuel) m (id ∷ q) visited required
        ≡ require_queue fuel m q visited required
  unfolding require_queue
  require_queue-skip fuel id q visited required e = rw e refl

  require_queue-nil :
      (fuel : ℕ) (visited required : List ℕ)
      → require_queue fuel m [] visited required ≡ some required
  unfolding require_queue
  require_queue-nil fuel visited required = refl

  -- With fuel for the queue and for what is still to be queued the loop ends.
  pub require_queue_lem :
      (fuel : ℕ) (q visited required : List ℕ)
      → length q + pending m visited ≤ fuel
      → HasAll (In required) visited
      → IsQueued m q visited required
      → Returns (IsLeast m q required) (require_queue fuel m q visited required)
  require_queue_lem fuel [] visited required l v h =
      rw (require_queue-nil fuel visited required) (done-IsLeast visited required v h)
  require_queue_lem zero (id ∷ q) visited required l v h = absurd (omega arith)
  require_queue_lem (suc fuel) (id ∷ q) visited required l v h =
      elim (Bool-cases (has_key id visited)) [
        | inl e ↦ rw (require_queue-skip fuel id q visited required e) (
            Returns-imp (IsLeast m q required) (IsLeast m (id ∷ q) required)
              (require_queue fuel m q visited required) (skip-IsLeast id q required)
              (require_queue_lem fuel q visited required (omega arith) v
                (skip-IsQueued id q visited required e h)))
        | inr e ↦ rw (require_queue-visit fuel id q visited required e) (
            Returns-imp (IsLeast m (q ++ set_at id m) (insert_key id required))
              (IsLeast m (id ∷ q) required)
              (require_queue fuel m (q ++ set_at id m) (insert_key id visited)
                (insert_key id required))
              (visit-IsLeast id q required)
              (require_queue_lem fuel (q ++ set_at id m) (insert_key id visited)
                (insert_key id required)
                (omega (arith, pending-visit m id visited e, length-append q (set_at id m)))
                (both id visited required v) (visit-IsQueued id q visited required h)))
      ]
    where
      both :
          (id : ℕ) (visited required : List ℕ)
          → HasAll (In required) visited
          → HasAll (In (insert_key id required)) (insert_key id visited)
      both id visited required v k e = elim (insert_was id k visited e) [
        | inl d ↦ subst (In (insert_key id required)) d (insert_has id required)
        | inr d ↦ insert_keeps id k required (v k d)
      ]
