-- ===== src/Analyses/Degrees.antt =====
-- analysis_manager.cpp: the counts of `compute_topological_order`.
use knight.Prelude.{
  ℕ, zero, suc, ◌+◌, ◌≤◌, ◌≡◌, refl, sym, ap, subst, ◌∙◌, inl, inr, true, false, not, ◌&&◌,
  Bool-cases, none, List, [], ◌∷◌, ◌++◌, if◌then◌else◌, ◌==◌, ==_iff, arith,
}
use knight.Prelude.Int.{ℤ, pos, ◌+ℤ◌, ◌-ℤ◌}
use knight.Prelude.Assoc.{find, put, find-put, IsMap}
use knight.Discrete.{has_key}
use knight.Analyses.{set_at}
use knight.Analyses.Order.{
  degree_at, is_int_zero, start_degrees, count_deps, count_all, zero_ids, release,
}

unfoldable pub count : ℕ → List ℕ → ℕ
count n [] = 0
count n (x ∷ s) = let rest = count n s in if x == n then suc rest else rest

-- The dependencies on `n` of analyses that are not done.
unfoldable pub edges : List (ℕ × List ℕ) → ℕ → List ℕ → ℕ
unfolding has_key count
edges [] n done = 0
edges ((id, ids) ∷ m) n done =
    let rest = edges m n done in if has_key id done then rest else count n ids + rest

edges-absent :
    (m : List (ℕ × List ℕ)) (n cur : ℕ) (done : List ℕ)
    → find cur m ≡ none
    → edges m n (cur ∷ done) ≡ edges m n done
unfolding edges has_key
edges-absent [] n cur done h = refl
edges-absent ((id, ids) ∷ m) n cur done h = ground (arith, edges-absent m n cur done)

pub edges-done :
    (m : List (ℕ × List ℕ)) (n cur : ℕ) (done : List ℕ)
    → IsMap m
    → has_key cur done ≡ false
    → edges m n (cur ∷ done) + count n (set_at cur m) ≡ edges m n done
unfolding edges has_key set_at count
edges-done [] n cur done h e = ground arith
edges-done ((id, ids) ∷ m) n cur done h e = elim (Bool-cases (id == cur)) [
  | inl d ↦ ground (
    arith,
    edges-absent m n cur done (subst (λ k. find k m ≡ none) ((==_iff id cur).0 d) h.0),
    (==_iff id cur).0 d,
  )
  | inr d ↦ ground (arith, edges-done m n cur done h.1 e)
]

-- The counts are the numbers of a function.
abbrev pub Counts : List (ℕ × ℤ) → (ℕ → ℕ) → Type 0
Counts in_degree f = (n : ℕ) → degree_at n in_degree ≡ pos (f n)

degree_at-put :
    (n k : ℕ) (d : ℤ) (m : List (ℕ × ℤ))
    → degree_at n (put k d m) ≡ (if k == n then d else degree_at n m)
unfolding degree_at
degree_at-put n k d m =
    rw (degree_at, find-put k n d m)
      (elim (Bool-cases (k == n)) [ inl e ↦ rw e refl | inr e ↦ rw e refl ])

pos-suc : (n : ℕ) → pos (suc n) -ℤ pos 1 ≡ pos n
unfolding ◌-ℤ◌
pos-suc n = ground arith

pos-plus : (n : ℕ) → pos n +ℤ pos 1 ≡ pos (suc n)
unfolding ◌+ℤ◌
pos-plus n = ground arith

is_int_zero-pos : (n : ℕ) → is_int_zero (pos n) ≡ (n == 0)
unfolding is_int_zero
is_int_zero-pos zero = refl
is_int_zero-pos (suc n) = ground arith

pub count_has : (n : ℕ) (s : List ℕ) → (count n s == 0) ≡ not (has_key n s)
unfolding count has_key
count_has n [] = refl
count_has n (x ∷ s) = ground (arith, count_has n s)

pub edges-has :
    (m : List (ℕ × List ℕ)) (n k : ℕ) (done : List ℕ)
    → has_key n (set_at k m) ≡ true
    → has_key k done ≡ false
    → 1 ≤ edges m n done
unfolding edges set_at has_key
edges-has [] n k done h e = absurd (ground arith)
edges-has ((id, ids) ∷ m) n k done h e = elim (Bool-cases (id == k)) [
  | inl d ↦ ground (arith, count_has n ids, (==_iff id k).0 d)
  | inr d ↦ ground (arith, edges-has m n k done)
]

start-Counts :
    (ids : List ℕ) (m : List (ℕ × ℤ)) → Counts m (λ n. 0) → Counts (start_degrees ids m) (λ n. 0)
unfolding start_degrees
start-Counts [] m h = h
start-Counts (id ∷ ids) m h =
    start-Counts ids (put id (pos 0) m)
      (λ n. degree_at-put n id (pos 0) m ∙ rw (h n) (ground arith))

no_degree : Counts [] (λ n. 0)
unfolding degree_at
no_degree n = refl

up-Counts :
    (id : ℕ) (m : List (ℕ × ℤ)) (f : ℕ → ℕ)
    → Counts m f
    → Counts (put id (degree_at id m +ℤ pos 1) m) (λ k. if id == k then suc (f k) else f k)
up-Counts id m f h k =
    degree_at-put k id (degree_at id m +ℤ pos 1) m ∙ (elim (Bool-cases (id == k)) [
      | inl e ↦ rw e (rw (h id, pos-plus (f id)) (ap (λ j. pos (suc (f j))) ((==_iff id k).0 e)))
      | inr e ↦ rw e (h k)
    ])

down-Counts :
    (id : ℕ) (m : List (ℕ × ℤ)) (f g : ℕ → ℕ)
    → Counts m f
    → ((k : ℕ) → f k ≡ (if id == k then suc (g k) else g k))
    → Counts (put id (degree_at id m -ℤ pos 1) m) g
down-Counts id m f g h w k =
    degree_at-put k id (degree_at id m -ℤ pos 1) m ∙ (elim (Bool-cases (id == k)) [
      | inl e ↦ rw e (
          subst (λ j. degree_at j m -ℤ pos 1 ≡ pos (g k)) (sym ((==_iff id k).0 e))
            (rw (h k, w k, e, pos-suc (g k)) refl))
      | inr e ↦ rw e (rw (h k, w k, e) refl)
    ])

as_pos : {a b : ℕ} → a ≡ b → pos a ≡ pos b
as_pos e = ap (λ n. pos n) e

count_deps-Counts :
    (ids : List ℕ) (m : List (ℕ × ℤ)) (f : ℕ → ℕ)
    → Counts m f
    → Counts (count_deps ids m) (λ n. count n ids + f n)
unfolding count_deps count
count_deps-Counts [] m f h n = h n ∙ as_pos (ground arith)
count_deps-Counts (id ∷ ids) m f h n =
    count_deps-Counts ids (put id (degree_at id m +ℤ pos 1) m)
      (λ k. if id == k then suc (f k) else f k) (up-Counts id m f h) n
    ∙ as_pos (ground arith)

count_all-Counts :
    (d : List (ℕ × List ℕ)) (m : List (ℕ × ℤ)) (f : ℕ → ℕ)
    → Counts m f
    → Counts (count_all d m) (λ n. edges d n [] + f n)
unfolding count_all edges has_key
count_all-Counts [] m f h n = h n ∙ as_pos (ground arith)
count_all-Counts ((id, ids) ∷ d) m f h n =
    count_all-Counts d (count_deps ids m) (λ k. count k ids + f k) (count_deps-Counts ids m f h) n
    ∙ as_pos (ground arith)

-- The counts at the start of the loop.
pub initial-Counts :
    (d : List (ℕ × List ℕ)) (ids : List ℕ)
    → Counts (count_all d (start_degrees ids [])) (λ n. edges d n [])
initial-Counts d ids n =
    count_all-Counts d (start_degrees ids []) (λ n. 0) (start-Counts ids [] no_degree) n
    ∙ as_pos (ground arith)

pub count-zero_ids :
    (ids : List ℕ) (m : List (ℕ × ℤ)) (f : ℕ → ℕ) (n : ℕ)
    → Counts m f
    → count n (zero_ids ids m) ≡ (if f n == 0 then count n ids else 0)
unfolding zero_ids count
count-zero_ids [] m f n h = ground arith
count-zero_ids (id ∷ ids) m f n h =
    rw (h id, is_int_zero-pos (f id))
      (elim (Bool-cases (id == n)) [
        | inl e ↦ rw ((==_iff id n).0 e) (ground (arith, count-zero_ids ids m f n h))
        | inr e ↦ ground (arith, count-zero_ids ids m f n h)
      ])

-- A neighbor comes into the queue once, when the last dependency on it is gone.
abbrev pub arrivals : ℕ → ℕ → ℕ
arrivals left gone = if left == 0 && not (gone == 0) then 1 else 0

count-append : (n : ℕ) (a b : List ℕ) → count n (a ++ b) ≡ count n a + count n b
unfolding count
count-append n [] b = ground arith
count-append n (x ∷ a) b = ground (arith, count-append n a b)

count_nil : (n g : ℕ) → count n [] + g ≡ g
unfolding count
count_nil n g = ground arith

count_cons :
    (k id : ℕ) (ids : List ℕ) (g : ℕ)
    → count k (id ∷ ids) + g ≡ (if id == k then suc (count k ids + g) else count k ids + g)
unfolding count
count_cons k id ids g = ground arith

no_arrivals : (n c g : ℕ) → c ≡ c + arrivals g (count n [])
unfolding count
no_arrivals n c g = ground arith

left_is_zero :
    (id : ℕ) (ids : List ℕ) (m : List (ℕ × ℤ)) (g : ℕ → ℕ)
    → Counts m (λ n. count n (id ∷ ids) + g n)
    → is_int_zero (degree_at id m -ℤ pos 1) ≡ (count id ids + g id == 0)
unfolding count
left_is_zero id ids m g h =
    ap is_int_zero
      (ap (λ d. d -ℤ pos 1) (h id ∙ as_pos (ground arith)) ∙ pos-suc (count id ids + g id))
    ∙ is_int_zero-pos (count id ids + g id)

joined :
    (n id : ℕ) (ids q : List ℕ) (g : ℕ → ℕ)
    → count n (if count id ids + g id == 0 then q ++ (id ∷ []) else q)
        + arrivals (g n) (count n ids)
      ≡ count n q + arrivals (g n) (count n (id ∷ ids))
unfolding count
joined n id ids q g = elim (Bool-cases (id == n)) [
  | inl e ↦ rw (e, (==_iff id n).0 e) (ground (arith, count-append n q (n ∷ [])))
  | inr e ↦ rw e (ground (arith, count-append n q (id ∷ [])))
]

pub release-Counts :
    (ids : List ℕ) (m : List (ℕ × ℤ)) (q : List ℕ) (g : ℕ → ℕ)
    → Counts m (λ n. count n ids + g n)
    → Counts (release ids m q).0 g
      × ((n : ℕ) → count n (release ids m q).1 ≡ count n q + arrivals (g n) (count n ids))
unfolding release
release-Counts [] m q g h =
    (λ n. h n ∙ as_pos (count_nil n (g n)), λ n. no_arrivals n (count n q) (g n))
release-Counts (id ∷ ids) m q g h =
    let left = degree_at id m -ℤ pos 1 in
    let rest =
      release-Counts ids (put id left m) (if is_int_zero left then q ++ (id ∷ []) else q) g (
        down-Counts id m (λ n. count n (id ∷ ids) + g n) (λ n. count n ids + g n) h
          (λ k. count_cons k id ids (g k))) in
    (rest.0, λ n. rest.1 n ∙ rw (left_is_zero id ids m g h) (joined n id ids q g))
