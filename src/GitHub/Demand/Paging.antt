-- ===== src/GitHub/Demand/Paging.antt =====
-- The listing of pages comes to an end.
use run_secure.Common.{
  ℕ, zero, suc, ◌+◌, ◌<◌, ◌≡◌, ◌≢◌, ◌⊎◌, inl, inr, ap, ◌∙◌, Bool, true, false, List, ◌++◌, length,
  ltb, if◌then◌else◌, arith,
}
use run_secure.Poll.{RateLimit}
use run_secure.GitHub.{
  Reply, no_reply, bad_reply, page_of, Outcome, got, failed, request_failed, bad_response,
  out_of_fuel, github_page_size, newest_rate_limit,
}
use run_secure.GitHub.Demand.{list_pages}

-- An answer after which no page is asked for: an error, or a page that is not full.
abbrev pub is_last : {A : Type 0} → Reply A → Bool
is_last no_reply = true
is_last (bad_reply lim) = true
is_last (page_of items lim) = ltb (length items) github_page_size

-- An answer that is the last one, or after which the rest ends, ends.
step_ends :
    {A : Type 0} (rest : List A → RateLimit → Outcome (List A × RateLimit))
    → (o : Reply A) (before : List A) (lim : RateLimit)
    → (is_last o ≡ true) ⊎ ((b : List A) (l : RateLimit) → rest b l ≢ failed out_of_fuel)
    → elim o as (λ _. Outcome (List A × RateLimit)) [
      | no_reply ↦ failed request_failed
      | bad_reply page_limit ↦ failed bad_response
      | page_of items page_limit ↦
          let read = before ++ items in
          let newest = newest_rate_limit lim page_limit in
          if ltb (length items) github_page_size then got (read, newest) else rest read newest
    ]
      ≢ failed out_of_fuel
step_ends rest no_reply before lim w h = cc
step_ends rest (bad_reply l) before lim w h = cc
step_ends {A} rest (page_of items l) before lim w h = by (ltb (length items) github_page_size) w h
  where
    read : Outcome (List A × RateLimit)
    read = got (before ++ items, newest_rate_limit lim l)

    more : Outcome (List A × RateLimit)
    more = rest (before ++ items) (newest_rate_limit lim l)

    by :
        (b : Bool)
        → (b ≡ true) ⊎ ((b : List A) (l : RateLimit) → rest b l ≢ failed out_of_fuel)
        → (if b then read else more) ≢ failed out_of_fuel
    by true v g = cc
    by false (inl e) g = absurd (ground arith)
    by false (inr ends) g = ends (before ++ items) (newest_rate_limit lim l) g

-- Where the server's answer to some page is the last one, that many pages of fuel are enough.
pub list_pages_ends :
    {A : Type 0} (pages : ℕ → Reply A) (fuel k page : ℕ) (before : List A) (lim : RateLimit)
    → k < fuel
    → is_last (pages (page + k)) ≡ true
    → list_pages pages fuel page before lim ≢ failed out_of_fuel
unfolding list_pages
list_pages_ends pages zero k page before lim h last = absurd (omega arith)
list_pages_ends pages (suc fuel) zero page before lim h last =
    step_ends (list_pages pages fuel (page + 1)) (pages page) before lim
      (inl (ap (λ n. is_last (pages n)) (omega arith) ∙ last))
list_pages_ends pages (suc fuel) (suc k) page before lim h last =
    step_ends (list_pages pages fuel (page + 1)) (pages page) before lim (
      inr (λ b l.
        list_pages_ends pages fuel k (page + 1) b l (omega arith)
          (ap (λ n. is_last (pages n)) (omega arith) ∙ last)))
