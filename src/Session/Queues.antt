-- ===== src/Session/Queues.antt =====
-- The event queues of src/crsdkpy/session.py: `_pump` and `wait_for_event`.
use mathlib.Core.Path.{subst}
use cr_sdkpy.Base.{
  ℕ, zero, suc, ◌+◌, Bool, true, false, Option, none, some, List, [], ◌∷◌, ◌++◌, append_assoc,
  append-nil, leb, if◌then◌else◌, Result, ok, ◌≡◌, refl, sym, ap, ◌∙◌, inl, inr, Bool-cases, All,
}
use cr_sdkpy.Contract.{Backend}
use cr_sdkpy.Events.{Event, Error}
use cr_sdkpy.Session.{Live, now, call, pump, take_first, wait_loop, wait_for_event}
use cr_sdkpy.Session.Outcomes.{Outcome, bind-Outcome, either-Outcome, map-Outcome, call-Outcome}

-- How a stream of events was handed out: the first event that passes the test is taken out of
-- it, or there is none and nothing is taken.
pub record IsTaken (test : Event → Bool) (stream : List Event) (e : Event) (rest : List Event)
    : Type 0 where
  pub before : List Event
  pub after : List Event
  pub splits : stream ≡ before ++ (e ∷ after)
  pub leaves : rest ≡ before ++ after
  pub passes : test e ≡ true
  pub is_first : All (λ b. test b ≡ false) before

abbrev pub Delivers : (Event → Bool) → List Event → Option Event → List Event → Type 0
Delivers test stream none rest = (rest ≡ stream) × All (λ b. test b ≡ false) stream
Delivers test stream (some e) rest = IsTaken test stream e rest

abbrev TakesFirst : (Event → Bool) → List Event → Option (Event × List Event) → Type 0
TakesFirst test stream none = All (λ b. test b ≡ false) stream
TakesFirst test stream (some (e, rest)) = IsTaken test stream e rest

take_more :
    (test : Event → Bool) (e : Event) (es : List Event) (found : Option (Event × List Event))
    → test e ≡ false
    → TakesFirst test es found
    → TakesFirst test
        (e ∷ es)
        (elim found [ none ↦ none | some (found, rest) ↦ some (found, e ∷ rest) ])
take_more test e es none h t = (h, t)
take_more test e es (some (found, rest)) h t = record {
  before = e ∷ t.before;
  after = t.after;
  splits = ap (◌∷◌ e) t.splits;
  leaves = ap (◌∷◌ e) t.leaves;
  passes = t.passes;
  is_first = (h, t.is_first);
}

take_first-TakesFirst :
    (test : Event → Bool) (es : List Event) → TakesFirst test es (take_first test es)
unfolding take_first
take_first-TakesFirst test [] = tt
take_first-TakesFirst test (e ∷ es) = elim (Bool-cases (test e)) [
  | inl h ↦
      rw h (record {
        before = [];
        after = es;
        splits = refl;
        leaves = refl;
        passes = h;
        is_first = tt;
      })
  | inr h ↦ rw h (take_more test e es (take_first test es) h (take_first-TakesFirst test es))
]

module _ (B : Backend) where
  -- Polls of the backend one behind the other, and all the events that they returned.
  pub data Polled : B.State → List Event → B.State → Type 0 where
    none_left : {s : B.State} → Polled s [] s
    then_more :
        {s s1 s2 : B.State} (timeout_ms : ℕ) (events more : List Event)
        → B.poll_events timeout_ms s ≡ (ok events, s1)
        → Polled s1 more s2
        → Polled s (events ++ more) s2

  Polled-append :
      {s s1 s2 : B.State} {events : List Event} (later : List Event)
      → Polled s events s1
      → Polled s1 later s2
      → Polled s (events ++ later) s2
  Polled-append later none_left q = q
  Polled-append {s} {s1} {s2} later (then_more timeout_ms events more e p) q =
      subst (λ es. Polled s es s2) (sym (append_assoc events more later))
        (then_more timeout_ms events (more ++ later) e (Polled-append later p q))

  -- What a wait has received and handed out: `new` is what the polls of the wait returned, and
  -- arrived on both queues.
  pub record Receives (test : Event → Bool) (c : Live B) (r : Option Event) (c' : Live B)
      : Type 0 where
    pub new : List Event
    pub polled : Polled c.backend new c'.backend
    pub delivers : Delivers test (c.user_events ++ new) r c'.user_events
    pub keeps_op : c'.op_events ≡ c.op_events ++ new

  abbrev pub Pumped : Live B → List Event → Live B → Type 0
  Pumped c events c' =
      (c'.user_events ≡ c.user_events ++ events)
      × (c'.op_events ≡ c.op_events ++ events)
      × (c'.closed ≡ c.closed)
      × Polled c.backend events c'.backend

  pub pump-Pumped : (timeout_ms : ℕ) (c : Live B) → Outcome (Pumped c) (pump B timeout_ms c)
  unfolding pump Outcome
  pump-Pumped timeout_ms c =
      either-Outcome (Pumped c) c.closed _ _
        (λ _. (sym (append-nil _), sym (append-nil _), refl, none_left))
        (λ _.
          bind-Outcome _ (Pumped c) _ (call (B.poll_events timeout_ms) c)
            (call-Outcome (B.poll_events timeout_ms) c)
            (λ events c' h. (
              ap (λ d. d.user_events ++ events) h.1,
              ap (λ d. d.op_events ++ events) h.1,
              ap (λ d. d.closed) h.1,
              subst (λ es. Polled c.backend es c'.backend) (append-nil events)
                  (then_more timeout_ms events [] h.0 none_left),
            )))

  no_news :
      (test : Event → Bool) (c c' : Live B) (r : Option Event)
      → Delivers test c.user_events r c'.user_events
      → c'.op_events ≡ c.op_events
      → Polled c.backend [] c'.backend
      → Receives test c r c'
  no_news test c c' r d h p = record {
    new = [];
    polled = p;
    delivers = subst (λ es. Delivers test es r c'.user_events) (sym (append-nil c.user_events)) d;
    keeps_op = h ∙ sym (append-nil c.op_events);
  }

  more_news :
      (test : Event → Bool) (c c1 c2 : Live B) (events : List Event) (r : Option Event)
      → Pumped c events c1
      → Receives test c1 r c2
      → Receives test c r c2
  more_news test c c1 c2 events r h t = record {
    new = events ++ t.new;
    polled = Polled-append t.new h.3 t.polled;
    delivers =
        subst (λ es. Delivers test es r c2.user_events)
          (ap (λ es. es ++ t.new) h.0 ∙ append_assoc c.user_events events t.new) t.delivers;
    keeps_op = t.keeps_op ∙ (ap (λ es. es ++ t.new) h.1 ∙ append_assoc c.op_events events t.new);
  }

  wait_round :
      (test : Event → Bool) (deadline : ℕ) (c : Live B)
      (again : Result Error (Option Event) × Live B) (found : Option (Event × List Event))
      → TakesFirst test c.user_events found
      → Outcome (Receives test c) again
      → Outcome (Receives test c) (elim found [
        | some (e, rest) ↦ (ok (some e), record c { user_events = rest })
        | none ↦
            if leb deadline (now B c)
            then (ok none, c)
            else if c.closed
            then (ok none, c)
            else again
      ])
  unfolding Outcome
  wait_round test deadline c again (some (e, rest)) t h =
      no_news test c (record c { user_events = rest }) (some e) t refl none_left
  wait_round test deadline c again none t h =
      let stay : Receives test c none c = no_news test c c none (refl, t) refl none_left in
      either-Outcome (Receives test c) (leb deadline (now B c)) _ _ (λ _. stay)
        (λ _. either-Outcome (Receives test c) c.closed _ _ (λ _. stay) (λ _. h))

  wait_loop-Receives :
      (fuel : ℕ) (test : Event → Bool) (deadline : ℕ) (c : Live B)
      → Outcome (Receives test c) (wait_loop B fuel test deadline c)
  unfolding wait_loop Outcome
  wait_loop-Receives zero test deadline c = tt
  wait_loop-Receives (suc fuel) test deadline c =
      wait_round test deadline c _ (take_first test c.user_events)
        (take_first-TakesFirst test c.user_events)
        (bind-Outcome _ (Receives test c) _ (pump B _ c) (pump-Pumped _ c) (λ events c1 h.
          map-Outcome _ (Receives test c) (wait_loop B fuel test deadline c1)
            (wait_loop-Receives fuel test deadline c1)
            (λ r c2 t. more_news test c c1 c2 events r h t)))

  -- Where `wait_for_event` returns, it has lost no event and reordered none. All the events that
  -- its polls of the backend returned, from the first poll to the last, stand in that order behind
  -- the earlier ones on both queues, and between the polls the backend was left alone; of the queue for the user it
  -- has taken the first event of the wanted type, or there is none of that type on it and it is
  -- returned whole; of the queue for the operations it has taken nothing.
  pub wait_for_event-Receives :
      (fuel : ℕ) (test : Event → Bool) (timeout_ms : ℕ) (c : Live B)
      → Outcome (Receives test c) (wait_for_event B fuel test timeout_ms c)
  unfolding wait_for_event
  wait_for_event-Receives fuel test timeout_ms c =
      wait_loop-Receives fuel test (now B c + timeout_ms) c
