-- ===== src/Discrete.antt =====
-- analyzer/include/analyzer/core/domain/discrete_domain.hpp: the class `DiscreteDom`, a set of keys or
-- all of them.
--
-- A `std::unordered_set` is a list without a second copy of a key, in the order of iteration. Keys are
-- numbers (addresses and identifiers).
pub mod Keys
pub mod Sets
mod Tests
use knight.Prelude.{
  ℕ, Bool, true, false, not, ◌&&◌, ◌||◌, Option, none, some, List, [], ◌∷◌, ◌==◌, if◌then◌else◌,
  all, length,
}

pub record DiscreteDom : Type 0 where
  pub set : List ℕ
  pub top_flag : Bool

-- `std::unordered_set::contains`.
unfoldable pub has_key : ℕ → List ℕ → Bool
has_key k [] = false
has_key k (j ∷ s) = j == k || has_key k s

-- `std::unordered_set::insert`.
unfoldable pub insert_key : ℕ → List ℕ → List ℕ
unfolding has_key
insert_key k s = if has_key k s then s else k ∷ s

-- `std::unordered_set::erase`.
unfoldable pub erase_key : ℕ → List ℕ → List ℕ
erase_key k [] = []
erase_key k (j ∷ s) = if j == k then s else j ∷ erase_key k s

unfoldable pub insert_keys : List ℕ → List ℕ → List ℕ
unfolding insert_key
insert_keys [] s = s
insert_keys (k ∷ ks) s = insert_keys ks (insert_key k s)

-- The loop that erases the keys which do not meet the test.
unfoldable pub keep_keys : (ℕ → Bool) → List ℕ → List ℕ
keep_keys p [] = []
keep_keys p (k ∷ s) = let rest = keep_keys p s in if p k then k ∷ rest else rest

unfoldable pub top_set : DiscreteDom
top_set = record { set = []; top_flag = true }

unfoldable pub bottom_set : DiscreteDom
bottom_set = record { set = []; top_flag = false }

unfoldable pub add_key : DiscreteDom → ℕ → DiscreteDom
unfolding insert_key
add_key d k = if d.top_flag then d else record d { set = insert_key k d.set }

unfoldable pub is_bottom_set : DiscreteDom → Bool
is_bottom_set d = not d.top_flag && length d.set == 0

unfoldable pub remove_key : DiscreteDom → ℕ → DiscreteDom
unfolding erase_key is_bottom_set
remove_key d k = if is_bottom_set d then d else record d { set = erase_key k d.set }

unfoldable pub contains_key : DiscreteDom → ℕ → Bool
unfolding has_key
contains_key d k = d.top_flag || has_key k d.set

unfoldable pub get_single_element : DiscreteDom → Option ℕ
get_single_element d =
    if d.top_flag || not (length d.set == 1)
    then none
    else (elim d.set [ [] ↦ none | k ∷ _ ↦ some k ])

unfoldable pub set_to_bottom_set : DiscreteDom → DiscreteDom
set_to_bottom_set d = record { set = []; top_flag = false }

unfoldable pub set_to_top_set : DiscreteDom → DiscreteDom
set_to_top_set d = record { set = []; top_flag = true }

unfoldable pub join_sets : DiscreteDom → DiscreteDom → DiscreteDom
unfolding insert_keys set_to_top_set
join_sets d e =
    if d.top_flag
    then d
    else (if e.top_flag then set_to_top_set d else record d { set = insert_keys e.set d.set })

unfoldable pub widen_sets : DiscreteDom → DiscreteDom → DiscreteDom
unfolding join_sets
widen_sets d e = join_sets d e

unfoldable pub meet_sets : DiscreteDom → DiscreteDom → DiscreteDom
unfolding has_key keep_keys is_bottom_set set_to_bottom_set
meet_sets d e =
    if is_bottom_set d || e.top_flag
    then d
    else (if is_bottom_set e
        then set_to_bottom_set d
        else (if d.top_flag then e else record d { set = keep_keys (λ k. has_key k e.set) d.set }))

unfoldable pub narrow_sets : DiscreteDom → DiscreteDom → DiscreteDom
unfolding meet_sets
narrow_sets d e = meet_sets d e

unfoldable pub diff_with : DiscreteDom → DiscreteDom → DiscreteDom
unfolding has_key keep_keys set_to_bottom_set
diff_with d e =
    if e.top_flag
    then set_to_bottom_set d
    else (if d.top_flag then d else record d { set = keep_keys (λ k. not (has_key k e.set)) d.set })

unfoldable pub leq_sets : DiscreteDom → DiscreteDom → Bool
unfolding has_key
leq_sets d e =
    if e.top_flag then true else (if d.top_flag then false else all (λ k. has_key k e.set) d.set)

unfoldable pub equals_sets : DiscreteDom → DiscreteDom → Bool
unfolding has_key
equals_sets d e =
    if d.top_flag
    then e.top_flag
    else (if e.top_flag
        then false
        else (if not (length d.set == length e.set)
            then false
            else all (λ k. has_key k e.set) d.set))
