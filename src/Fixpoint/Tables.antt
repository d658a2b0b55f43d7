-- ===== src/Fixpoint/Tables.antt =====
-- wto_iterator.hpp: the states of the nodes after `set_pre` and `set_post`.
use knight.Prelude.{◌≡◌, refl, Bool-cases, inl, inr, ◌==◌, if◌then◌else◌, List}
use knight.Prelude.Assoc.{find-put}
use knight.Wto.{NodeRef}
use knight.Fixpoint.Inputs.{Analysis}
use knight.Fixpoint.{FixpointIterator, get, set, get_pre, get_post, set_pre, set_post}

module _ {S : Type 0} (a : Analysis S) where
  get-set :
      (m : List (NodeRef × S)) (n k : NodeRef) (s : S)
      → get a (set a m n s) k ≡ (if n == k then a.normalize s else get a m k)
  unfolding get set
  get-set m n k s =
      rw (find-put n k (a.normalize s) m, get)
        (elim (Bool-cases (n == k)) [ inl e ↦ rw e refl | inr e ↦ rw e refl ])

  module _ (it : FixpointIterator S) (n k : NodeRef) (s : S) where
    pub get_pre-set_pre :
        get_pre a (set_pre a it n s) k ≡ (if n == k then a.normalize s else get_pre a it k)
    unfolding get_pre set_pre
    get_pre-set_pre = get-set it.pre n k s

    pub get_post-set_post :
        get_post a (set_post a it n s) k ≡ (if n == k then a.normalize s else get_post a it k)
    unfolding get_post set_post
    get_post-set_post = get-set it.post n k s

    pub get_post-set_pre : get_post a (set_pre a it n s) k ≡ get_post a it k
    unfolding get_post set_pre
    get_post-set_pre = refl

    pub get_pre-set_post : get_pre a (set_post a it n s) k ≡ get_pre a it k
    unfolding get_pre set_post
    get_pre-set_post = refl
