-- ===== src/Tests/Cache.antt =====
-- A cache that two callers ask while its fetch runs, and a third once it is there.
use emporium.Prelude.{ℕ, ◌+◌, ◌≡◌, refl, ◌≤◌, some, List, [], ◌∷◌}
use emporium.Echocache.Failures.{fail, happen_all-fail}
use emporium.Echocache.{
  Cached, Event, get, inflight, finishes, gets, happen_all, new, passes, sends,
}
use emporium.Echocache.Flights.{flights, flights-happen_all}
use emporium.Echocache.Answers.{asked, gets_of}
use emporium.Echocache.Values.{AreAnswersOf, Holds, gets_of-answers}

abbrev three_callers : List (Event ℕ)
three_callers = gets 1 ∷ gets 2 ∷ finishes 0 42 ∷ sends 0 ∷ gets 3 ∷ passes 100 ∷ gets 1 ∷ []

abbrev fresh_cache : Cached ℕ
fresh_cache = new (some 60) 0

flights-happen_all_example : flights (happen_all three_callers (new (some 60) 0)).tasks ≤ 1
flights-happen_all_example = flights-happen_all (some 60) 0 three_callers

empty_Holds : Holds (λ value. value ≡ 42) fresh_cache
unfolding new
empty_Holds = record { inner_holds = tt; tasks_hold = tt; answers_hold = tt }

-- each caller's gets are answered or wait, and the answers are 42
gets_of-answers_example :
    ((k : ℕ)
      → gets_of k (happen_all three_callers fresh_cache)
        ≡ asked k three_callers + gets_of k fresh_cache)
    × AreAnswersOf (λ value. value ≡ 42) (happen_all three_callers fresh_cache).answers
gets_of-answers_example =
    gets_of-answers (λ value. value ≡ 42) three_callers fresh_cache (refl, tt) empty_Holds

happen_all-fail_example :
    (happen_all three_callers (fail 0 (get 1 (new (some 60) 0)))).inner ≡ inflight 0
happen_all-fail_example = happen_all-fail (some 60) 0 1 three_callers
