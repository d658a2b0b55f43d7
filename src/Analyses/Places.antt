-- ===== src/Analyses/Places.antt =====
-- analysis_manager.cpp: the places of an analysis in the queue and in the order, and what is known of it.
use knight.Prelude.{
  ℕ, suc, ◌+◌, ◌≤◌, ◌≡◌, refl, ap, ◌⊎◌, inl, inr, Bool, true, false, Bool-cases, List, [], ◌∷◌,
  ◌++◌, length, if◌then◌else◌, ◌==◌, arith,
}
use knight.Prelude.Int.{ℤ, pos, ◌-ℤ◌}
use knight.Prelude.Assoc.{put}
use knight.Discrete.{has_key}
use knight.Analyses.Order.{degree_at, is_int_zero, release}
use knight.Analyses.Degrees.{count, arrivals}
use knight.Analyses.Pending.{In}

-- `k` stands before `n`, or at its place.
unfoldable pub is_before : ℕ → ℕ → List ℕ → Bool
is_before k n [] = false
is_before k n (x ∷ s) =
    let rest = is_before k n s in if x == k then true else (if x == n then false else rest)

pub before-has : (k n : ℕ) (s t : List ℕ) → is_before k n s ≡ true → is_before k n (s ++ t) ≡ true
unfolding is_before
before-has k n [] t h = absurd (ground arith)
before-has k n (x ∷ s) t h = ground (arith, before-has k n s t)

pub before-last :
    (k n : ℕ) (s : List ℕ) → In s k → has_key n s ≡ false → is_before k n (s ++ (n ∷ [])) ≡ true
unfolding is_before has_key
before-last k n [] h e = absurd (ground arith)
before-last k n (x ∷ s) h e = ground (arith, before-last k n s)

pub has_last :
    (k n : ℕ) (s : List ℕ) → has_key k (s ++ (n ∷ [])) ≡ (if n == k then true else has_key k s)
unfolding has_key
has_last k n [] = ground arith
has_last k n (x ∷ s) = ground (arith, has_last k n s)

-- What is known of an analysis: it waits for others, it came into the queue once, or it is in no list.
unfoldable pub Status : Bool → ℕ → ℕ → Type 0
Status listed places left =
    ((places ≡ 0) × (1 ≤ left))
    ⊎ (((places ≡ 1) × (left ≡ 0)) ⊎ ((places ≡ 0) × ((left ≡ 0) × (listed ≡ false))))

pub step-Status :
    (b listed : Bool) (queued finished after gone before : ℕ)
    → after + gone ≡ before
    → Status listed ((if b then suc queued else queued) + finished) before
    → Status listed (queued + arrivals after gone + (if b then suc finished else finished)) after
unfolding Status
step-Status b listed queued finished after gone before e (inl h) = elim (Bool-cases (after == 0)) [
  | inl z ↦ inr (inl (ground arith))
  | inr z ↦ inl (ground arith)
]
step-Status b listed queued finished after gone before e (inr (inl h)) = inr (inl (ground arith))
step-Status b listed queued finished after gone before e (inr (inr h)) = inr (inr (ground arith))

length_last : (q : List ℕ) (x : ℕ) → length (q ++ (x ∷ [])) ≡ suc (length q)
length_last [] x = refl
length_last (y ∷ q) x = ap suc (length_last q x)

length-if :
    (b : Bool) (q : List ℕ) (x : ℕ) → length (if b then q ++ (x ∷ []) else q) ≤ suc (length q)
length-if true q x = omega (arith, length_last q x)
length-if false q x = omega arith

pub length-release :
    (ids : List ℕ) (m : List (ℕ × ℤ)) (q : List ℕ)
    → length (release ids m q).1 ≤ length ids + length q
unfolding release
length-release [] m q = ground arith
length-release (id ∷ ids) m q =
    let left = degree_at id m -ℤ pos 1 in
    let rest =
      length-release ids (put id left m) (if is_int_zero left then q ++ (id ∷ []) else q) in
    omega (arith, rest, length-if (is_int_zero left) q id)

pub count_cons_eq :
    (n x : ℕ) (s : List ℕ) → count n (x ∷ s) ≡ (if x == n then suc (count n s) else count n s)
unfolding count
count_cons_eq n x s = refl
