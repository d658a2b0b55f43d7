-- ===== src/Analyses/Pending.antt =====
-- analysis_manager.cpp: the dependencies that the loop over the queue has not yet seen.
use knight.Prelude.{
  ℕ, ◌+◌, ◌≤◌, ◌≡◌, refl, inl, inr, Bool, true, false, ◌||◌, Bool-cases, if◌then◌else◌, List, [],
  ◌∷◌, ◌++◌, length, ◌==◌, ==_iff, arith,
}
use knight.Discrete.{has_key, insert_key}
use knight.Discrete.Keys.{has_key-insert_key}
use knight.Analyses.{set_at, size_of}

-- A set of identifiers that has the dependencies of its members.
abbrev pub IsClosed : List (ℕ × List ℕ) → (ℕ → Type 0) → Type 0
IsClosed dependencies P = (id dep : ℕ) → P id → has_key dep (set_at id dependencies) ≡ true → P dep

abbrev pub HasAll : (ℕ → Type 0) → List ℕ → Type 0
HasAll P ids = (id : ℕ) → has_key id ids ≡ true → P id

abbrev pub In : List ℕ → ℕ → Type 0
In ids id = has_key id ids ≡ true

abbrev pub Says : (ℕ → Bool) → ℕ → Type 0
Says p id = p id ≡ true

-- The dependencies of the analyses that are not yet visited.
unfoldable pub pending : List (ℕ × List ℕ) → List ℕ → ℕ
unfolding has_key
pending [] visited = 0
pending ((id, ids) ∷ m) visited =
    let rest = pending m visited in if has_key id visited then rest else length ids + rest

pub pending-le : (m : List (ℕ × List ℕ)) → pending m [] ≤ size_of m
unfolding pending size_of has_key
pending-le [] = ground arith
pending-le ((id, ids) ∷ m) = ground (arith, pending-le m)

pending_mono :
    (m : List (ℕ × List ℕ)) (k : ℕ) (visited : List ℕ)
    → pending m (insert_key k visited) ≤ pending m visited
unfolding pending
pending_mono [] k visited = ground arith
pending_mono ((id, ids) ∷ m) k visited =
    ground (arith, pending_mono m k visited, has_key-insert_key id k visited)

pub pending-visit :
    (m : List (ℕ × List ℕ)) (k : ℕ) (visited : List ℕ)
    → has_key k visited ≡ false
    → pending m (insert_key k visited) + length (set_at k m) ≤ pending m visited
unfolding pending set_at
pending-visit [] k visited e = ground arith
pending-visit ((id, ids) ∷ m) k visited e = elim (Bool-cases (id == k)) [
  | inl d ↦
      rw ((==_iff id k).0 d)
        (ground (arith, pending_mono m k visited, has_key-insert_key k k visited))
  | inr d ↦ ground (arith, pending-visit m k visited e, has_key-insert_key id k visited)
]

pub has_key-append : (k : ℕ) (a b : List ℕ) → has_key k (a ++ b) ≡ (has_key k a || has_key k b)
unfolding has_key
has_key-append k [] b = refl
has_key-append k (j ∷ a) b = ground (arith, has_key-append k a b)

pub length-append : (a b : List ℕ) → length (a ++ b) ≡ length a + length b
length-append [] b = ground arith
length-append (x ∷ a) b = ground (arith, length-append a b)
