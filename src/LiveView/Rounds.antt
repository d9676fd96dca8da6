-- ===== src/LiveView/Rounds.antt =====
-- src/crsdkpy/liveview.py: the rounds that `LiveView.measure` runs.
use cr_sdkpy.Base.{
  ℕ, zero, suc, ◌+◌, ◌-◌, min, true, false, Option, List, [], ◌∷◌, ◌≡◌, refl, ltb, Result, ok, err,
}
use cr_sdkpy.Contract.{Backend, Preview}
use cr_sdkpy.Events.{Error}
use cr_sdkpy.Session.{Live, now}
use cr_sdkpy.Session.Outcomes.{Outcome, bind-Outcome, either-Outcome}
use cr_sdkpy.LiveView.{Tally, Round, observe, try_get_frame, measure_loop, measure, empty_tally}
use cr_sdkpy.LiveView.Summary.{IsSummary, empty-IsSummary, observe_lem}

module _ (B : Backend) (fetch_fuel timeout_ms : ℕ) where
  abbrev round_of : Live B → Live B → Option Preview → Round
  round_of c c' found = record { before = now B c; after = now B c'; frame = found }

  -- The rounds from one state to another, the newest first: each was begun before the deadline,
  -- and its fetch returned.
  pub data Ran (deadline : ℕ) (c : Live B) : List Round → Live B → Type 0 where
    start : Ran deadline c [] c
    round :
        {rs : List Round} {c1 c2 : Live B} {found : Option Preview}
        → Ran deadline c rs c1
        → ltb (now B c1) deadline ≡ true
        → try_get_frame B fetch_fuel (min timeout_ms 100) c1 ≡ (ok found, c2)
        → Ran deadline c (round_of c1 c2 found ∷ rs) c2

  -- The counters sum up the rounds that were run, and the deadline is over.
  pub record Measured (deadline : ℕ) (c : Live B) (t : Tally) (c' : Live B) : Type 0 where
    pub rounds : List Round
    pub ran : Ran deadline c rounds c'
    pub summary : IsSummary rounds t
    pub is_over : ltb (now B c') deadline ≡ false

  itself : {A S : Type 0} (r : Result Error A × S) → Outcome (λ a s. r ≡ (ok a, s)) r
  unfolding Outcome
  itself (ok a, s) = refl
  itself (err e, s) = tt

  measure_loop-Measured :
      (fuel deadline : ℕ) (c c1 : Live B) (rs : List Round) (t : Tally)
      → Ran deadline c rs c1
      → IsSummary rs t
      → Outcome (Measured deadline c) (measure_loop B fuel fetch_fuel deadline timeout_ms t c1)
  unfolding measure_loop Outcome
  measure_loop-Measured zero deadline c c1 rs t ran sums = tt
  measure_loop-Measured (suc fuel) deadline c c1 rs t ran sums =
      either-Outcome (Measured deadline c) (ltb (now B c1) deadline) _ _
        (λ before.
          bind-Outcome _ (Measured deadline c) _
            (try_get_frame B fetch_fuel (min timeout_ms 100) c1)
            (itself (try_get_frame B fetch_fuel (min timeout_ms 100) c1))
            (λ found c2 fetched.
              measure_loop-Measured fuel deadline c c2 (round_of c1 c2 found ∷ rs)
                (observe (round_of c1 c2 found) t) (round ran before fetched)
                (observe_lem (now B c1) (now B c2) found rs t sums)))
        (λ after. record { rounds = rs; ran = ran; summary = sums; is_over = after })

  -- What measure reports of a run from one state to another.
  abbrev pub Reports : ℕ → Live B → Tally × ℕ → Live B → Type 0
  Reports duration_ms c report c' =
      Measured (now B c + duration_ms) c report.0 c' × (report.1 ≡ now B c' - now B c)

  -- Where measure returns, it has run rounds, each begun before the deadline and each with a
  -- fetch that returned, until the deadline was over. Its counters agree with these rounds: frames
  -- and empty polls add up to the rounds, the frames are those that were fetched, the bytes add up
  -- to their sizes, and the bounds are the least and the greatest of the sizes, absent where no
  -- frame was fetched. The elapsed time is the difference of the clock's readings.
  pub measure-Reports :
      (fuel duration_ms : ℕ) (c : Live B)
      → Outcome (Reports duration_ms c) (measure B fuel fetch_fuel duration_ms timeout_ms c)
  unfolding measure Outcome
  measure-Reports fuel duration_ms c =
      bind-Outcome _ (Reports duration_ms c) _
        (measure_loop B fuel fetch_fuel (now B c + duration_ms) timeout_ms empty_tally c)
        (measure_loop-Measured fuel (now B c + duration_ms) c c [] empty_tally start
          empty-IsSummary)
        (λ t c' measured. (measured, refl))
