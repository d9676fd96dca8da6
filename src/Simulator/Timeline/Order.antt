-- ===== src/Simulator/Timeline/Order.antt =====
-- The scheduled timeline of src/crsdkpy/simulator/backend.py is kept in the order of time and,
-- where times are equal, of scheduling; draining it takes out exactly what is due.
use mathlib.Core.Path.{subst}
use cr_sdkpy.Base.{
  ℕ, ◌<◌, Bool, true, false, ◌&&◌, ◌||◌, List, [], ◌∷◌, ltb, leb, ◌==◌, select, All, ◌≡◌, refl, sym,
  ap, ◌∙◌, ◌⊎◌, inl, inr, Bool-cases, arith,
}
use cr_sdkpy.Simulator.Timeline.{
  Entry, Effect, SimSession, push_entry, schedule, run_effect, run_due, drain_due,
}

-- The order of the heap: by time, then by counter.
abbrev pub Precedes : Entry → Entry → Type 0
Precedes e f = (e.at < f.at) ⊎ ((e.at ≡ f.at) × (e.counter < f.counter))

abbrev pub IsOrdered : List Entry → Type 0
IsOrdered [] = Unit
IsOrdered (e ∷ es) = All (Precedes e) es × IsOrdered es

-- The invariant of a session's timeline.
pub record IsTimeline (s : SimSession) : Type 0 where
  pub ordered : IsOrdered s.heap
  pub counted : All (λ e. e.counter < s.counter) s.heap

Precedes-trans : (e f g : Entry) → Precedes e f → Precedes f g → Precedes e g
Precedes-trans e f g (inl h) (inl k) = inl (omega arith)
Precedes-trans e f g (inl h) (inr k) = inl (omega (arith, k.0))
Precedes-trans e f g (inr h) (inl k) = inl (omega (arith, h.0))
Precedes-trans e f g (inr h) (inr k) = inr (h.0 ∙ k.0, omega (arith, h.1, k.1))

All-map : {P Q : Entry → Type 0} (es : List Entry) → ((e : Entry) → P e → Q e) → All P es → All Q es
All-map [] h a = tt
All-map (e ∷ es) h a = (h e a.0, All-map es h a.1)

pub push_entry-All :
    (P : Entry → Type 0) (e : Entry) (es : List Entry) → P e → All P es → All P (push_entry e es)
unfolding push_entry
push_entry-All P e [] p a = (p, tt)
push_entry-All P e (f ∷ fs) p a =
    elim (Bool-cases (ltb e.at f.at || (e.at == f.at && ltb e.counter f.counter))) [
      | inl h ↦ rw h (p, a)
      | inr h ↦ rw h (a.0, push_entry-All P e fs p a.1)
    ]

first :
    (e f : Entry) → ltb e.at f.at || (e.at == f.at && ltb e.counter f.counter) ≡ true → Precedes e f
first e f h = ground arith

second :
    (e f : Entry)
    → ltb e.at f.at || (e.at == f.at && ltb e.counter f.counter) ≡ false
    → f.counter < e.counter
    → Precedes f e
second e f h k = ground arith

push_entry-IsOrdered :
    (e : Entry) (es : List Entry)
    → IsOrdered es
    → All (λ f. f.counter < e.counter) es
    → IsOrdered (push_entry e es)
unfolding push_entry
push_entry-IsOrdered e [] o c = (tt, tt)
push_entry-IsOrdered e (f ∷ fs) o c =
    elim (Bool-cases (ltb e.at f.at || (e.at == f.at && ltb e.counter f.counter))) [
      | inl h ↦ rw h ((first e f h, All-map fs (λ g. Precedes-trans e f g (first e f h)) o.0), o)
      | inr h ↦ rw h (
        push_entry-All (Precedes f) e fs (second e f h c.0) o.0,
        push_entry-IsOrdered e fs o.1 c.1,
      )
    ]

-- Scheduling an effect at any time keeps a timeline in order: entries stand by time and, at equal
-- times, in the order in which they were scheduled, and no entry has the counter to come.
pub schedule-IsTimeline :
    (at : ℕ) (effect : Effect) (s : SimSession) → IsTimeline s → IsTimeline (schedule at effect s)
unfolding schedule
schedule-IsTimeline at effect s t = record {
  ordered = push_entry-IsOrdered _ s.heap t.ordered t.counted;
  counted = push_entry-All _ _ s.heap (omega arith) (All-map s.heap (λ e h. omega arith) t.counted);
}

-- What an effect leaves alone: the timeline, and the events that wait to be delivered.
abbrev pub LeavesQueues : SimSession → SimSession → Type 0
LeavesQueues s s' = (s'.counter ≡ s.counter) × (s'.ready ≡ s.ready)

run_effect-LeavesQueues :
    (now : ℕ) (effect : Effect) (s : SimSession) → LeavesQueues s (run_effect now effect s).0
unfolding run_effect
run_effect-LeavesQueues now Effect.set_connected s = (refl, refl)
run_effect-LeavesQueues now Effect.begin_reconnect s = (refl, refl)
run_effect-LeavesQueues now Effect.recover s = (refl, refl)
run_effect-LeavesQueues now Effect.expose s = (refl, refl)
run_effect-LeavesQueues now Effect.emit_unknown s = (refl, refl)
run_effect-LeavesQueues now Effect.recording_active s = (refl, refl)
run_effect-LeavesQueues now Effect.recording_idle s = (refl, refl)
run_effect-LeavesQueues now (Effect.focus_property value) s = (refl, refl)
run_effect-LeavesQueues now (Effect.focus_status value) s = (refl, refl)
run_effect-LeavesQueues now (Effect.add_content id) s = (refl, refl)
run_effect-LeavesQueues now (Effect.announce_postview id) s = (refl, refl)
run_effect-LeavesQueues now (Effect.straggle code) s = (refl, refl)

select-eq_self :
    (now : ℕ) (e : Entry) (es : List Entry)
    → now < e.at
    → All (Precedes e) es
    → select (λ f. ltb now f.at) es ≡ es
select-eq_self now e [] h a = refl
select-eq_self now e (f ∷ fs) h a =
    rw (not_due now e f h a.0) (ap (◌∷◌ f) (select-eq_self now e fs h a.1))
  where
    not_due : (now : ℕ) (e f : Entry) → now < e.at → Precedes e f → ltb now f.at ≡ true
    not_due now e f h (inl k) = ground arith
    not_due now e f h (inr k) = ground (arith, k.0)

run_due-heap :
    (now : ℕ) (es : List Entry) (s : SimSession)
    → IsOrdered es
    → (run_due now es s).0.heap ≡ select (λ e. ltb now e.at) es
unfolding run_due
run_due-heap now [] s o = refl
run_due-heap now (e ∷ es) s o = elim (Bool-cases (leb e.at now)) [
  | inl h ↦ rw (h, late h) (run_due-heap now es _ o.1)
  | inr h ↦ rw (h, early h) (ap (◌∷◌ e) (sym (select-eq_self now e es (ground arith) o.0)))
]
  where
    late : leb e.at now ≡ true → ltb now e.at ≡ false
    late h = ground arith

    early : leb e.at now ≡ false → ltb now e.at ≡ true
    early h = ground arith

pub run_due-LeavesQueues :
    (now : ℕ) (es : List Entry) (s : SimSession) → LeavesQueues s (run_due now es s).0
unfolding run_due
run_due-LeavesQueues now [] s = (refl, refl)
run_due-LeavesQueues now (e ∷ es) s = elim (Bool-cases (leb e.at now)) [
  | inr h ↦ rw h (refl, refl)
  | inl h ↦ rw h (
    (run_due-LeavesQueues now es (run_effect now e.effect s).0).0
        ∙ (run_effect-LeavesQueues now e.effect s).0,
    (run_due-LeavesQueues now es (run_effect now e.effect s).0).1
        ∙ (run_effect-LeavesQueues now e.effect s).1,
  )
]

select-All :
    (P : Entry → Type 0) (p : Entry → Bool) (es : List Entry) → All P es → All P (select p es)
select-All P p [] a = tt
select-All P p (e ∷ es) a = elim (Bool-cases (p e)) [
  | inl h ↦ rw h (a.0, select-All P p es a.1)
  | inr h ↦ rw h (select-All P p es a.1)
]

select-IsOrdered : (p : Entry → Bool) (es : List Entry) → IsOrdered es → IsOrdered (select p es)
select-IsOrdered p [] o = tt
select-IsOrdered p (e ∷ es) o = elim (Bool-cases (p e)) [
  | inl h ↦ rw h (select-All (Precedes e) p es o.0, select-IsOrdered p es o.1)
  | inr h ↦ rw h (select-IsOrdered p es o.1)
]

-- Draining a session's timeline at a time leaves on it exactly the entries of a later time, in
-- their order, and leaves nothing ready; the timeline is in order still.
pub drain_due-pops :
    (now : ℕ) (s : SimSession)
    → IsTimeline s
    → ((drain_due now s).0.heap ≡ select (λ e. ltb now e.at) s.heap)
      × ((drain_due now s).0.ready ≡ [])
      × IsTimeline (drain_due now s).0
unfolding drain_due
drain_due-pops now s t =
    let heap : (drain_due now s).0.heap ≡ select (λ e. ltb now e.at) s.heap =
      run_due-heap now s.heap (record s { ready = [] }) t.ordered in
    let same : LeavesQueues (record s { ready = [] }) (drain_due now s).0 =
      run_due-LeavesQueues now s.heap (record s { ready = [] }) in
    (
      heap,
      same.1,
      record {
        ordered = subst IsOrdered (sym heap) (select-IsOrdered _ s.heap t.ordered);
        counted =
            subst (λ es. All (λ e. e.counter < (drain_due now s).0.counter) es) (sym heap)
              (subst (λ n. All (λ e. e.counter < n) (select (λ e. ltb now e.at) s.heap))
                (sym same.0) (select-All _ _ s.heap t.counted));
      },
    )
