-- ===== src/Fixpoint/Tests.antt =====
-- The theorems on the fixpoint iterator for a counter: the program `x = 0; while (*) x = x + 1;`, with the
-- entry 0, the head 1 of the loop, its body 2 and the exit 3.
use knight.Prelude.{
  ◌≡◌, refl, true, false, if◌then◌else◌, List, [], ◌∷◌, ◌==◌, arith, Returns, All, Bool-cases, inl,
  inr,
}
use knight.Prelude.Int.{ℤ, pos, ◌+ℤ◌}
use knight.Interval.{Interval, singleton, plus}
use knight.Interval.Members.{singleton-IsValid}
use knight.Interval.Sums.{Covers, sums_sound}
use knight.Separate.OfIntervals.{singleton-contains}
use knight.Wto.{
  NodeRef, WtoComponents, vertex, cycle, no_components, next_component, visit_component,
  insert_nesting, add_head,
}
use knight.Fixpoint.Inputs.{Analysis}
use knight.Fixpoint.{FixpointIterator, run, check_components}
use knight.Fixpoint.Concrete.{Program, IsSound}
use knight.Fixpoint.Outcomes.{IsEnough}
use knight.Fixpoint.Runs.{IsOrderOf, Reaches, Converges, run_sound}
use knight.Fixpoint.Checks.{is_checked, Sound, checks-Sound}
use knight.Fixpoint.OfIntervals.{
  ValidInterval, result, Contains, interval_analysis, interval_sound, interval_enough,
}

abbrev preds : NodeRef → List NodeRef
preds n =
    if n == 1 then 0 ∷ 2 ∷ [] else (if n == 2 then 1 ∷ [] else (if n == 3 then 1 ∷ [] else []))

one : ValidInterval
one = record { interval = singleton (pos 1); valid = singleton-IsValid (pos 1) }

successor : (s : ValidInterval) → (x : Interval) × Covers ◌+ℤ◌ s.interval (singleton (pos 1)) x
successor s =
    result (Covers ◌+ℤ◌ s.interval (singleton (pos 1))) (plus s.interval (singleton (pos 1)))
      (sums_sound s.valid (singleton-IsValid (pos 1))).0

transfer_node : NodeRef → ValidInterval → ValidInterval
transfer_node n s =
    if n == 2 then record { interval = (successor s).0; valid = (successor s).1.valid } else s

abbrev counter : Program ℤ
counter = record {
  init = λ c. c ≡ pos 0;
  exec = λ n c d. d ≡ (if n == 2 then c +ℤ pos 1 else c);
  flow = λ m n c d. d ≡ c;
}

nodes :
    (n : NodeRef) (s : ValidInterval) (c d : ℤ)
    → Contains s c
    → d ≡ (if n == 2 then c +ℤ pos 1 else c)
    → Contains (transfer_node n s) d
unfolding transfer_node
nodes n s c d h e = elim (Bool-cases (n == 2)) [
  | inl t ↦ rw (e, t) ((successor s).1.holds c (pos 1) h (singleton-contains (pos 1)))
  | inr t ↦ rw (e, t) h
]

edges : (m n : NodeRef) (s : ValidInterval) (c d : ℤ) → Contains s c → d ≡ c → Contains s d
edges m n s c d h e = rw e h

abbrev analysis : Analysis ValidInterval
analysis = interval_analysis 0 preds transfer_node

abbrev laws : IsSound analysis counter
laws = interval_sound 0 preds transfer_node counter nodes edges

abbrev wto : WtoComponents
wto = next_component (vertex 0) (
    next_component (cycle 1 (next_component (vertex 2) no_components))
      (next_component (vertex 3) no_components))

wto-IsOrderOf : IsOrderOf analysis wto
unfolding visit_component insert_nesting add_head
wto-IsOrderOf = record {
  ordered = (
    refl,
    record { apart = λ n h. ground arith; forward = λ m n h e. ground arith },
    (
      (
        record {
          fresh = refl;
          not_entry = refl;
          nesting = record { nodes = [] };
          known = refl;
          preds_known = λ m e. elim (Bool-cases (0 == m)) [
            | inl q ↦ (record { nodes = [] }, rw q refl)
            | inr q ↦ elim (Bool-cases (2 == m)) [
              | inl t ↦ (record { nodes = 1 ∷ [] }, ground arith)
              | inr t ↦ absurd (ground arith)
            ]
          ];
        },
        (refl, record { apart = λ n h. ground arith; forward = λ m n h e. ground arith }, tt),
      ),
      record { apart = λ n h. ground arith; forward = λ m n h e. ground arith },
      (refl, record { apart = λ n h. ground arith; forward = λ m n h e. ground arith }, tt),
    ),
  );
  has_entry = refl;
  closed = λ m n h e. ground arith;
}

abbrev start : ValidInterval
start = record { interval = singleton (pos 0); valid = singleton-IsValid (pos 0) }

abbrev fresh : FixpointIterator ValidInterval
fresh = record { pre = []; post = []; head_thresholds = []; converged = false }

starts : (c : ℤ) → c ≡ pos 0 → Contains start c
starts c e = rw e (singleton-contains (pos 0))

enough : IsEnough laws
enough = interval_enough 0 preds transfer_node counter nodes edges

run_sound_example : Returns (Converges laws enough) (run analysis wto fresh start)
run_sound_example = run_sound laws enough wto fresh start wto-IsOrderOf starts

checks-Sound_example :
    Returns
      (λ r.
        All (Sound laws enough) (check_components analysis r wto)
        × ((n : NodeRef) (c : ℤ)
            → Reaches analysis counter n c
            → is_checked analysis r n (check_components analysis r wto) ≡ true))
      (run analysis wto fresh start)
checks-Sound_example = checks-Sound laws enough wto fresh start wto-IsOrderOf starts
