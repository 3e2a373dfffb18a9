-- ===== src/Spawn/Labels.antt =====
-- What jitRunnerLabels makes of the labels of runner.yml.
use text.Mathlib.TextLemmas.{append-eq-nil_iff}
use run_secure.Common.{
  ◌≡◌, ◌≢◌, refl, String, Bool, true, false, ◌&&◌, ◌||◌, not, List, [], ◌∷◌, ◌++◌, any, ◌==◌,
  string_eq, arith,
}
use run_secure.Spawn.Input.{jit_owner_label, jit_scope_label, distinct_labels, jit_runner_labels}

abbrev pub has_label : String → List String → Bool
has_label label = any (λ other. other == label)

-- No label stands twice.
abbrev pub NoRepeats : List String → Type 0
NoRepeats [] = Unit
NoRepeats (label ∷ labels) = (has_label label labels ≡ false) × NoRepeats labels

has_label-distinct_labels :
    (label : String) (labels seen : List String)
    → has_label label (distinct_labels seen labels)
      ≡ (not (label == "") && has_label label labels && not (has_label label seen))
unfolding distinct_labels
has_label-distinct_labels label [] seen = ground arith
has_label-distinct_labels label (next ∷ labels) seen = ground (
  arith,
  has_label-distinct_labels label labels seen,
  has_label-distinct_labels label labels (next ∷ seen),
  string_eq.equal_iff next label,
)

distinct_labels-NoRepeats : (labels seen : List String) → NoRepeats (distinct_labels seen labels)
unfolding distinct_labels
distinct_labels-NoRepeats [] seen = tt
distinct_labels-NoRepeats (next ∷ labels) seen = ground (
  arith,
  distinct_labels-NoRepeats labels seen,
  distinct_labels-NoRepeats labels (next ∷ seen),
  has_label-distinct_labels next labels (next ∷ seen),
  string_eq.equal_iff next next,
)

has_label-append :
    (label : String) (xs ys : List String)
    → has_label label (xs ++ ys) ≡ (has_label label xs || has_label label ys)
has_label-append label [] ys = refl
has_label-append label (x ∷ xs) ys = ground (arith, has_label-append label xs ys)

-- The labels of a registration have no repeats. Besides the owner's label and the scope's, which are
-- always there, they are the configured labels that are not empty.
pub jit_runner_labels_lem :
    (scope : String) (configured : List String)
    → NoRepeats (jit_runner_labels scope configured)
      × (has_label jit_owner_label (jit_runner_labels scope configured) ≡ true)
      × (has_label (jit_scope_label scope) (jit_runner_labels scope configured) ≡ true)
      × ((label : String)
          → has_label label (jit_runner_labels scope configured) ≡ (
              not (label == "")
              && (has_label label configured
                  || jit_owner_label == label
                  || jit_scope_label scope == label)))
unfolding jit_runner_labels
jit_runner_labels_lem scope configured = (
  distinct_labels-NoRepeats (configured ++ jit_owner_label ∷ jit_scope_label scope ∷ []) [],
  ground (arith, members jit_owner_label),
  ground (
    arith,
    members (jit_scope_label scope),
    not_empty,
    string_eq.equal_iff (jit_scope_label scope) "",
    string_eq.equal_iff (jit_scope_label scope) (jit_scope_label scope),
  ),
  members,
)
  where
    prefix_not_empty : ◌≢◌ {A = String} "runsecure-scope-" ""
    prefix_not_empty h =
        let bad : false ≡ true = (string_eq.equal_iff "runsecure-scope-" "").1 h in cc bad

    not_empty : jit_scope_label scope ≢ ""
    not_empty h =
        let both : (◌≡◌ {A = String} "runsecure-scope-" "") × (scope ≡ "") =
          append-eq-nil_iff.0 h in
        prefix_not_empty both.0

    members :
        (label : String)
        → has_label label
            (distinct_labels [] (configured ++ jit_owner_label ∷ jit_scope_label scope ∷ []))
          ≡ (not (label == "")
              && (has_label label configured
                  || jit_owner_label == label
                  || jit_scope_label scope == label))
    members label = ground (
      arith,
      has_label-distinct_labels label (configured ++ jit_owner_label ∷ jit_scope_label scope ∷ [])
          [],
      has_label-append label configured (jit_owner_label ∷ jit_scope_label scope ∷ []),
    )
