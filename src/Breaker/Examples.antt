-- ===== src/Breaker/Examples.antt =====
-- The breaker on concrete clock readings.
use run_secure.Common.{◌+◌, ◌≡◌, refl, true, [], ◌∷◌, leb, arith}
use run_secure.Common.Int.{pos}
use run_secure.Breaker.{closed, opened, Breaker, new_breaker, is_open}
use run_secure.Breaker.Laws.{
  failure, probe, handle_all, failures, failures-is_open, handle_all-is_open,
}

abbrev fresh : Breaker
fresh = record {
  state = closed;
  consecutive_failures = 0;
  opened_at = 0;
  threshold = 3;
  cooldown = 100;
}

abbrev tripped : Breaker
tripped = record fresh { state = opened; consecutive_failures = 3; opened_at = 12 }

starts_fresh : new_breaker (pos 3) (pos 100) ≡ fresh
unfolding new_breaker
starts_fresh = refl

failures-is_open_example : is_open (handle_all fresh (failures (10 ∷ 11 ∷ 12 ∷ []))) ≡ leb 3 (0 + 3)
failures-is_open_example = failures-is_open fresh (10 ∷ 11 ∷ 12 ∷ []) refl (omega arith)

handle_all-is_open_example : is_open (handle_all tripped (probe 50 ∷ failure 60 ∷ [])) ≡ true
handle_all-is_open_example =
    handle_all-is_open tripped (probe 50 ∷ failure 60 ∷ []) refl
      ((omega arith, omega arith), ((omega arith, omega arith), tt))
