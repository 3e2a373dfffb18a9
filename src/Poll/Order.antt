-- ===== src/Poll/Order.antt =====
-- The order in which a cycle visits the repositories.
use native.Mathlib.Nat.{mod-lt, mod-eq_of_lt, add-mod_right}
use mathlib.Core.Path.{ap₂}
use run_secure.Common.{
  ℕ, zero, suc, Bool, true, false, if◌then◌else◌, ◌+◌, ◌-◌, ◌%◌, ◌≤◌, ◌<◌, ◌≡◌, refl, sym, ap,
  subst, ◌∙◌, Option, none, some, List, [], ◌∷◌, ◌++◌, length, take, arith,
}
use run_secure.Poll.{
  RepoRef, ScopeRef, World, Outside, nth, put_first, picks, next_after, emit, poll_tick, visit,
  visits, turn,
}

abbrev pub drop : ℕ → List RepoRef → List RepoRef
drop zero xs = xs
drop (suc n) [] = []
drop (suc n) (x ∷ xs) = drop n xs

drop_step :
    (i n : ℕ) (refs : List RepoRef)
    → i < length refs
    → put_first (nth refs i) (take n (drop (suc i) refs)) ≡ take (suc n) (drop i refs)
drop_step i n [] h = absurd (omega arith)
drop_step zero n (ref ∷ refs) h = refl
drop_step (suc i) n (ref ∷ refs) h = drop_step i n refs (omega arith)

drop_end : (refs : List RepoRef) (n : ℕ) → take n (drop (length refs) refs) ≡ []
drop_end [] zero = refl
drop_end [] (suc n) = refl
drop_end (ref ∷ refs) n = drop_end refs n

-- Offsets whose positions are `i` on, for so long as the list goes.
picks_run :
    (refs : List RepoRef) (next_repo offset i n : ℕ)
    → ((k : ℕ) → i + k < length refs → (next_repo + (offset + k)) % length refs ≡ i + k)
    → i + n ≤ length refs
    → picks refs next_repo offset n ≡ take n (drop i refs)
unfolding picks
picks_run refs next_repo offset i zero at h = refl
picks_run refs next_repo offset i (suc n) at h =
    let here = at 0 (omega arith) in
    let rest =
      picks_run refs next_repo (offset + 1) (suc i) n
        (λ k g.
          ap (λ x. (next_repo + x) % length refs) (omega arith)
          ∙ at (suc k) (omega arith)
          ∙ omega arith)
        (omega arith) in
    ap (λ x. put_first (nth refs x) (picks refs next_repo (offset + 1) n))
      (ap (λ x. (next_repo + x) % length refs) (omega arith) ∙ here ∙ omega arith)
    ∙ ap (put_first (nth refs i)) rest
    ∙ drop_step i n refs (omega arith)

put_first-append :
    (o : Option RepoRef) (xs ys : List RepoRef) → put_first o xs ++ ys ≡ put_first o (xs ++ ys)
put_first-append none xs ys = refl
put_first-append (some ref) xs ys = refl

picks_split :
    (refs : List RepoRef) (next_repo offset m n : ℕ)
    → picks refs next_repo offset (m + n)
      ≡ picks refs next_repo offset m ++ picks refs next_repo (offset + m) n
unfolding picks
picks_split refs next_repo offset zero n =
    ap (picks refs next_repo offset) (omega arith)
    ∙ ap (λ x. picks refs next_repo x n) (omega arith)
picks_split refs next_repo offset (suc m) n =
    let first = nth refs ((next_repo + offset) % length refs) in
    ap (picks refs next_repo offset) (suc_sum m n)
    ∙ ap (put_first first) (picks_split refs next_repo (offset + 1) m n)
    ∙ ap (λ x. put_first first (picks refs next_repo (offset + 1) m ++ picks refs next_repo x n))
        (omega arith)
    ∙ sym (put_first-append first (picks refs next_repo (offset + 1) m) _)
  where
    suc_sum : (a b : ℕ) → suc a + b ≡ suc (a + b)
    suc_sum a b = omega arith

take_full : (n : ℕ) (xs : List RepoRef) → length xs ≤ n → take n xs ≡ xs
take_full zero [] h = refl
take_full (suc n) [] h = refl
take_full zero (x ∷ xs) h = absurd (omega arith)
take_full (suc n) (x ∷ xs) h = ap (◌∷◌ x) (take_full n xs (omega arith))

length-drop : (i : ℕ) (xs : List RepoRef) → length (drop i xs) ≡ length xs - i
length-drop zero xs = omega arith
length-drop (suc i) [] = omega arith
length-drop (suc i) (x ∷ xs) = omega (arith, length-drop i xs)

take_all : (refs : List RepoRef) (i : ℕ) → take (length refs - i) (drop i refs) ≡ drop i refs
take_all refs i = take_full (length refs - i) (drop i refs) (omega (arith, length-drop i refs))

-- Where the start is within the list, the offsets pick each repository once: those from the start on,
-- then those before it.
picks_rotation :
    (refs : List RepoRef) (next_repo : ℕ)
    → next_repo < length refs
    → picks refs next_repo 0 (length refs) ≡ drop next_repo refs ++ take next_repo refs
picks_rotation refs next_repo h =
    ap (picks refs next_repo 0) (omega arith)
    ∙ picks_split refs next_repo 0 (length refs - next_repo) next_repo
    ∙ ap₂ (λ (a b : List RepoRef). a ++ b)
        (picks_run refs next_repo 0 next_repo (length refs - next_repo)
            (λ k g. ap (λ x. x % length refs) (omega arith) ∙ mod-eq_of_lt g) (omega arith)
          ∙ take_all refs next_repo)
        (picks_run refs next_repo (0 + (length refs - next_repo)) 0 next_repo
          (λ k g.
            ap (λ x. x % length refs) (omega arith)
            ∙ add-mod_right k (length refs)
            ∙ mod-eq_of_lt (omega arith)
            ∙ omega arith)
          (omega arith))

next_after_lem :
    (n : ℕ) (refs : List RepoRef) → n < length refs → next_after n refs ≡ (n + 1) % length refs
next_after_lem n [] h = absurd (omega arith)
next_after_lem n (ref ∷ refs) h = refl

next_after_lt : (n : ℕ) (refs : List RepoRef) → n < length refs → next_after n refs < length refs
next_after_lt n [] h = absurd (omega arith)
next_after_lt n (ref ∷ refs) h = mod-lt (n + 1) (omega arith)

-- Every repository of the list is visited, in order.
unfoldable pub visit_all : Outside → ScopeRef → List RepoRef → World → World
visit_all env scope [] w = w
visit_all env scope (ref ∷ refs) w = visit_all env scope refs (visit env scope ref w)

module _ (env : Outside) (scope : ScopeRef) where
  -- The context is not done after any of the visits but the last.
  abbrev pub GoesOn : List RepoRef → World → Type 0
  GoesOn [] w = Unit
  GoesOn (ref ∷ []) w = Unit
  GoesOn (ref ∷ next ∷ refs) w =
      ((visit env scope ref w).stopped ≡ false) × GoesOn (next ∷ refs) (visit env scope ref w)

  GoesOn-cons :
      (ref : RepoRef) (refs : List RepoRef) (w : World)
      → (visit env scope ref w).stopped ≡ false
      → GoesOn refs (visit env scope ref w)
      → GoesOn (ref ∷ refs) w
  GoesOn-cons ref [] w e rest = tt
  GoesOn-cons ref (next ∷ refs) w e rest = (e, rest)

  -- A loop over the repositories has visited a first part of them, up to the visit in which the
  -- context is done, and all of them if it is not.
  pub record Visited (refs : List RepoRef) (w t : World) : Type 0 where
    pub done : List RepoRef
    pub left : List RepoRef
    pub parts : refs ≡ done ++ left
    pub result : t ≡ visit_all env scope done w
    pub goes_on : GoesOn done w
    pub whole : t.stopped ≡ false → left ≡ []

  visits-Visited : (refs : List RepoRef) (w : World) → Visited refs w (visits env scope refs w)
  unfolding visits
  visits-Visited [] w = record {
    done = [];
    left = [];
    parts = refl;
    result = unfold visit_all in refl;
    goes_on = tt;
    whole = λ _. refl;
  }
  visits-Visited (ref ∷ refs) w =
      let next = visit env scope ref w in by next.stopped refl (visits-Visited refs next)
    where
      by :
          (b : Bool)
          → (visit env scope ref w).stopped ≡ b
          → Visited refs (visit env scope ref w) (visits env scope refs (visit env scope ref w))
          → Visited
              (ref ∷ refs)
              w
              (if b then visit env scope ref w else visits env scope refs (visit env scope ref w))
      by true e rest = record {
        done = ref ∷ [];
        left = refs;
        parts = refl;
        result = unfold visit_all in refl;
        goes_on = tt;
        whole = λ stays. absurd (cc (e, stays));
      }
      by false e rest = record {
        done = ref ∷ rest.done;
        left = rest.left;
        parts = ap (◌∷◌ ref) rest.parts;
        result = unfold visit_all in rest.result;
        goes_on = GoesOn-cons ref rest.done w e rest.goes_on;
        whole = rest.whole;
      }

  -- Where the start is within the list of repositories, a turn visits a first part of the rotation
  -- of that list which begins at the start: up to the visit in which the context is done, and if it
  -- is not, all of it, so each repository once. The next start is again within the list: the same
  -- one when the context is done, and otherwise the following position, cyclically.
  pub turn_rotation :
      (next_repo : ℕ) (w : World)
      → next_repo < length scope.repos
      → let (t, start) = turn env scope next_repo w in
        Visited (drop next_repo scope.repos ++ take next_repo scope.repos) (emit w poll_tick) t
        × (start < length scope.repos)
        × (start ≡ (if t.stopped then next_repo else (next_repo + 1) % length scope.repos))
  unfolding turn
  turn_rotation next_repo w h =
      let all = picks scope.repos next_repo 0 (length scope.repos) in
      let whole =
        subst (λ refs. Visited refs (emit w poll_tick) (visits env scope all (emit w poll_tick)))
          (picks_rotation scope.repos next_repo h) (visits-Visited all (emit w poll_tick)) in
      by (visits env scope all (emit w poll_tick)) whole _ refl
    where
      Ends : World × ℕ → Type 0
      Ends (t, start) =
          Visited (drop next_repo scope.repos ++ take next_repo scope.repos) (emit w poll_tick) t
          × (start < length scope.repos)
          × (start ≡ (if t.stopped then next_repo else (next_repo + 1) % length scope.repos))

      by :
          (v : World)
          → Visited (drop next_repo scope.repos ++ take next_repo scope.repos) (emit w poll_tick) v
          → (b : Bool) → v.stopped ≡ b
          → Ends
              (if◌then◌else◌ {A = World × ℕ} b (v, next_repo) (v, next_after next_repo scope.repos))
      by v whole true e = (whole, h, ground (arith, e))
      by v whole false e = (
        whole,
        next_after_lt next_repo scope.repos h,
        ground (arith, e, next_after_lem next_repo scope.repos h),
      )
