-- ===== src/Discrete/Keys.antt =====
-- discrete_domain.hpp: membership after the operations on the sets of keys.
use knight.Prelude.{
  ℕ, suc, ◌+◌, ◌≡◌, refl, ◌∙◌, ◌↔◌, inl, inr, Bool-cases, Bool, true, false, ◌&&◌, ◌||◌, List, [],
  ◌∷◌, ◌==◌, ==_iff, arith, all, ◌≤◌,
}
use knight.Discrete.{has_key, insert_key, insert_keys, keep_keys}

pub has_key-insert_key :
    (k j : ℕ) (s : List ℕ) → has_key k (insert_key j s) ≡ (j == k || has_key k s)
unfolding has_key insert_key
has_key-insert_key k j s = elim (Bool-cases (has_key j s)) [
  | inl e ↦ rw e (known e)
  | inr e ↦ rw e refl
]
  where
    known : has_key j s ≡ true → has_key k s ≡ (j == k || has_key k s)
    known e = elim (Bool-cases (j == k)) [
      | inl d ↦ rw (d, ← (==_iff j k).0 d, e) refl
      | inr d ↦ rw d refl
    ]

pub has_key-insert_keys :
    (k : ℕ) (ks s : List ℕ) → has_key k (insert_keys ks s) ≡ (has_key k ks || has_key k s)
unfolding has_key insert_keys
has_key-insert_keys k [] s = refl
has_key-insert_keys k (j ∷ ks) s =
    has_key-insert_keys k ks (insert_key j s)
    ∙ rw (has_key-insert_key k j s) (swap (has_key k ks) (j == k) (has_key k s))
  where
    swap : (a b c : Bool) → (a || (b || c)) ≡ ((b || a) || c)
    swap a b c = ground arith

no_use : (b : Bool) → (b && false) ≡ false
no_use b = ground arith

pub has_key-keep_keys :
    (p : ℕ → Bool) (k : ℕ) (s : List ℕ) → has_key k (keep_keys p s) ≡ (has_key k s && p k)
unfolding has_key keep_keys
has_key-keep_keys p k [] = refl
has_key-keep_keys p k (j ∷ s) = elim (Bool-cases (p j)) [
  | inl h ↦ rw (h, has_key-keep_keys p k s) (kept h)
  | inr h ↦ rw (h, has_key-keep_keys p k s) (dropped h)
]
  where
    kept : p j ≡ true → (j == k || (has_key k s && p k)) ≡ ((j == k || has_key k s) && p k)
    kept h = elim (Bool-cases (j == k)) [
      | inl e ↦ rw (e, ← (==_iff j k).0 e, h) refl
      | inr e ↦ rw e refl
    ]

    dropped : p j ≡ false → (has_key k s && p k) ≡ ((j == k || has_key k s) && p k)
    dropped h = elim (Bool-cases (j == k)) [
      | inl e ↦ rw (e, ← (==_iff j k).0 e, h) (no_use (has_key j s))
      | inr e ↦ rw e refl
    ]

all-has_key :
    (s t : List ℕ)
    → all (λ k. has_key k t) s ≡ true
    → (k : ℕ) → has_key k s ≡ true
    → has_key k t ≡ true
unfolding has_key
all-has_key [] t h k e = ground arith
all-has_key (j ∷ s) t h k e = elim (Bool-cases (j == k)) [
  | inl d ↦ rw (← (==_iff j k).0 d) (ground arith)
  | inr d ↦ all-has_key s t (ground arith) k (ground arith)
]

has_key-all_keys :
    (s t : List ℕ)
    → ((k : ℕ) → has_key k s ≡ true → has_key k t ≡ true)
    → all (λ k. has_key k t) s ≡ true
unfolding has_key
has_key-all_keys [] t h = refl
has_key-all_keys (j ∷ s) t h =
    rw (h j (first j), has_key-all_keys s t (λ k e. h k (later k e))) refl
  where
    first : (j : ℕ) → has_key j (j ∷ s) ≡ true
    first j = ground arith

    later : (k : ℕ) → has_key k s ≡ true → has_key k (j ∷ s) ≡ true
    later k e = ground arith

pub all_keys_iff :
    (s t : List ℕ)
    → (all (λ k. has_key k t) s ≡ true) ↔ ((k : ℕ) → has_key k s ≡ true → has_key k t ≡ true)
all_keys_iff s t = (all-has_key s t, has_key-all_keys s t)

-- A key above every member.
fresh : List ℕ → ℕ
fresh [] = 0
fresh (k ∷ s) = suc (k + fresh s)

has_key-below : (k : ℕ) (s : List ℕ) → has_key k s ≡ true → suc k ≤ fresh s
unfolding has_key fresh
has_key-below k [] h = ground arith
has_key-below k (j ∷ s) h = elim (Bool-cases (j == k)) [
  | inl e ↦ omega (arith, (==_iff j k).0 e)
  | inr e ↦ omega (arith, has_key-below k s (ground arith))
]

pub has_key-fresh : (s : List ℕ) → (k : ℕ) × (has_key k s ≡ false)
has_key-fresh s = (
  fresh s,
  elim (Bool-cases (has_key (fresh s) s)) [
    | inl h ↦ absurd (omega (arith, has_key-below (fresh s) s h))
    | inr h ↦ h
  ],
)
