-- ===== src/Simulator/Safety.antt =====
-- The focus gate of src/crsdkpy/session.py over the simulator of src/crsdkpy/simulator/backend.py: a
-- shot that was not authorised exposes nothing.
use mathlib.Core.Path.{subst}
use cr_sdkpy.Base.{
  ℕ, ◌+◌, Bool, true, false, Option, none, some, List, [], ◌∷◌, ◌==◌, if◌then◌else◌, nat_identity,
  Result, ok, err, ◌≡◌, refl, sym, ◌∙◌, ◌⊎◌, inl, inr, Bool-cases, Option-cases, All,
}
use cr_sdkpy.Base.Dict.{lookup, lookup-insert_self}
use cr_sdkpy.Enums.{writable}
use cr_sdkpy.Events.{Event, Error, session_closed}
use cr_sdkpy.Session.{Live}
use cr_sdkpy.Session.Keeps.{Keeps, then-Keeps, IsQuiet}
use cr_sdkpy.Session.Authorise.{Confirmed, autofocus_and_capture-authorised}
use cr_sdkpy.Session.Release.{autofocus_and_capture}
use cr_sdkpy.Simulator.Profiles.{build_property, code_s1, lock_locked}
use cr_sdkpy.Simulator.Timeline.{SimSession, drain_due, settle}
use cr_sdkpy.Simulator.Shooting.{caps}
use cr_sdkpy.Simulator.Backend.{
  World, Operation, checked, save, check_live, on_session, on_live_session, connection_state,
  session_capabilities, drained, poll_wait, poll_session, poll_events, get_half_press,
  require_half_press, set_half_press, focus_state, set_property, write_property, after_write,
  sleep_ms,
}
use cr_sdkpy.Simulator.Media.{Rng, with_index, latest_content, list_content}
use cr_sdkpy.Simulator.Instance.{
  simulated, find_cases, on_session_found, on_session_missing, poll_session_found,
  poll_session_missing,
}
use cr_sdkpy.Simulator.Quiet.{
  AtRest, exposes, drain_due-AtRest, settle-AtRest, begin_autofocus-AtRest, cancel_autofocus-AtRest,
}

abbrev pub RestsAt : ℕ → Option SimSession → Type 0
RestsAt shots none = Unit
RestsAt shots (some s) = AtRest shots s

-- The session has made so many exposures, and has none scheduled.
unfoldable pub NoShot : ℕ → ℕ → World → Type 0
NoShot id shots w = RestsAt shots (lookup id w.sessions)

found-AtRest :
    (id shots : ℕ) (w : World) (s : SimSession)
    → lookup id w.sessions ≡ some s
    → NoShot id shots w
    → AtRest shots s
unfolding NoShot
found-AtRest id shots w s there h = subst (RestsAt shots) there h

save-NoShot :
    (id shots : ℕ) (w : World) (s : SimSession) → AtRest shots s → NoShot id shots (save id s w)
unfolding NoShot
save-NoShot id shots w s h = subst (RestsAt shots) (sym (lookup-insert_self id s w.sessions)) h

abbrev IsRestful : {A : Type 0} → Operation A → Type 0
IsRestful op = (shots now : ℕ) (s : SimSession) → AtRest shots s → AtRest shots (op now s).1

on_session_quiet :
    {A : Type 0} (id shots : ℕ) (op : Operation A)
    → IsRestful op
    → Keeps (NoShot id shots) (on_session id op)
on_session_quiet id shots op rest w h = elim (find_cases id w) [
  | inl closed ↦ rw (on_session_missing id op w session_closed closed) h
  | inr (s, there, found) ↦ rw (on_session_found id op w s found) (
      save-NoShot id shots w (op w.now s).1
        (rest shots w.now s (found-AtRest id shots w s there h)))
]

checked-IsRestful : {A : Type 0} (op : Operation A) → IsRestful op → IsRestful (checked op)
checked-IsRestful {A} op rest shots now s h = go (check_live (settle now s))
  where
    go :
        (r : Result Error (Unit {0}))
        → AtRest shots
            (elim r as (λ _. Result Error A × SimSession) [
              | err e ↦ (err e, settle now s)
              | ok _ ↦ op now (settle now s)
            ]).1
    go (ok a) = rest shots now (settle now s) (settle-AtRest shots now s h)
    go (err e) = settle-AtRest shots now s h

on_live_session_quiet :
    {A : Type 0} (id shots : ℕ) (op : Operation A)
    → IsRestful op
    → Keeps (NoShot id shots) (on_live_session id op)
unfolding on_live_session
on_live_session_quiet id shots op rest =
    on_session_quiet id shots (checked op) (checked-IsRestful op rest)

poll_rest_quiet :
    (id timeout_ms shots : ℕ) (w : World) (s' : SimSession) (events : List Event)
    → AtRest shots s'
    → NoShot id shots
        (elim events as (λ _. Result Error (List Event) × World) [
          | e ∷ es ↦ (ok (e ∷ es), save id s' w)
          | [] ↦
              if timeout_ms == 0
              then (ok [], save id s' w)
              else drained id s' (sleep_ms (poll_wait w.now timeout_ms s') w)
        ]).1
unfolding sleep_ms
poll_rest_quiet id timeout_ms shots w s' (e ∷ es) h = save-NoShot id shots w s' h
poll_rest_quiet id timeout_ms shots w s' [] h = elim (Bool-cases (timeout_ms == 0)) [
  | inl z ↦ rw z (save-NoShot id shots w s' h)
  | inr z ↦ rw z (
      save-NoShot id shots (sleep_ms (poll_wait w.now timeout_ms s') w) _
        (drain_due-AtRest shots (w.now + poll_wait w.now timeout_ms s') s' h))
]

poll_session_quiet :
    (id timeout_ms shots : ℕ) (s : SimSession) (w : World)
    → AtRest shots s
    → NoShot id shots (poll_session id timeout_ms s w).1
unfolding poll_session
poll_session_quiet id timeout_ms shots s w h =
    poll_rest_quiet id timeout_ms shots w (drain_due w.now s).0 (drain_due w.now s).1
      (drain_due-AtRest shots w.now s h)

poll_events_quiet : (id shots timeout_ms : ℕ) → Keeps (NoShot id shots) (poll_events id timeout_ms)
poll_events_quiet id shots timeout_ms w h = elim (find_cases id w) [
  | inl closed ↦ rw (poll_session_missing id timeout_ms w session_closed closed) h
  | inr (s, there, found) ↦
      rw (poll_session_found id timeout_ms w s found)
        (poll_session_quiet id timeout_ms shots s w (found-AtRest id shots w s there h))
]

connection_state_quiet : (id shots : ℕ) → Keeps (NoShot id shots) (connection_state id)
unfolding connection_state
connection_state_quiet id shots w h = elim (Option-cases (lookup id w.sessions)) [
  | inl missing ↦ rw (missing, connection_state) h
  | inr (s, there) ↦
      rw (there, connection_state)
        (save-NoShot id shots w (settle w.now s)
          (settle-AtRest shots w.now s (found-AtRest id shots w s there h)))
]

same_rest :
    (shots : ℕ) (s s' : SimSession)
    → s'.capture_sequence ≡ s.capture_sequence
    → s'.heap ≡ s.heap
    → AtRest shots s
    → AtRest shots s'
same_rest shots s s' hc hh h = record {
  counts = hc ∙ h.counts;
  none_scheduled = subst (λ es. All (λ e. exposes e.effect ≡ false) es) (sym hh) h.none_scheduled;
}

if_AtRest :
    (shots : ℕ) (b : Bool) (s s' : SimSession)
    → AtRest shots s
    → AtRest shots s'
    → AtRest shots (if b then s else s')
if_AtRest shots true s s' h h' = h
if_AtRest shots false s s' h h' = h'

after_write-AtRest :
    (shots now code value : ℕ) (s : SimSession)
    → AtRest shots s
    → AtRest shots (after_write now code value s)
after_write-AtRest shots now code value s h =
    if_AtRest shots (code == code_s1) _ _
      (if_AtRest shots (value == lock_locked) _ _ (begin_autofocus-AtRest shots now s h)
        (cancel_autofocus-AtRest shots s h))
      h

write_property-IsRestful : (code value : ℕ) → IsRestful (write_property code value)
unfolding write_property
write_property-IsRestful code value shots now s h = elim (Option-cases (lookup code s.properties)) [
  | inl missing ↦ rw (missing, write_property) h
  | inr (old, there) ↦ elim (Bool-cases (writable (build_property code old).access)) [
    | inl may_write ↦
        rw (there, write_property)
          (rw may_write
            (after_write-AtRest shots now code value _ (same_rest shots s _ refl refl h)))
    | inr read_only ↦ rw (there, write_property) (rw read_only h)
  ]
]

set_half_press_quiet :
    (id shots : ℕ) (engaged : Bool) → Keeps (NoShot id shots) (set_half_press id engaged)
unfolding set_half_press set_property
set_half_press_quiet id shots engaged =
    then-Keeps (NoShot id shots) (on_live_session id require_half_press) _
      (on_live_session_quiet id shots require_half_press (λ shots now s h. h))
      (λ _.
        on_live_session_quiet id shots (write_property code_s1 _)
          (write_property-IsRestful code_s1 _))

with_index-IsRestful : {A : Type 0} (op : Operation A) → IsRestful op → IsRestful (with_index op)
with_index-IsRestful op rest shots now s h = elim (Bool-cases (caps s).content_index) [
  | inl b ↦ rw b (rest shots now s h)
  | inr b ↦ rw b h
]

pub simulated-IsQuiet : (rng : Rng) (id shots : ℕ) → IsQuiet (simulated rng id) (NoShot id shots)
unfolding session_capabilities get_half_press focus_state latest_content list_content sleep_ms
    NoShot
simulated-IsQuiet rng id shots = record {
  sleeps = λ duration w h. h;
  connects = connection_state_quiet id shots;
  describes = on_session_quiet id shots _ (λ shots now s h. h);
  polls = poll_events_quiet id shots;
  gets_stage = on_live_session_quiet id shots _ (λ shots now s h. h);
  sets_stage = set_half_press_quiet id shots;
  reads_focus = on_live_session_quiet id shots _ (λ shots now s h. h);
  reads_latest = on_live_session_quiet id shots _ (with_index-IsRestful _ (λ shots now s h. h));
  lists = λ bound. on_live_session_quiet id shots _ (with_index-IsRestful _ (λ shots now s h. h));
}

-- On the simulator: where a session has no exposure scheduled, `autofocus_and_capture` leaves it
-- with as many exposures as before and none scheduled, whatever the outcome, unless the focus gate
-- that this call ran, begun and ended while this was still so, confirmed with a focused state, and
-- what followed it is the release of the capture that the call had begun.
pub autofocus_and_capture-unauthorised :
    (rng : Rng) (id shots fuel focus_ms dwell_ms timeout_ms : ℕ) (raises : Bool)
    (c : Live (simulated rng id))
    → NoShot id shots c.backend
    → NoShot id shots
        (autofocus_and_capture
          (simulated rng id)
          fuel
          focus_ms
          dwell_ms
          timeout_ms
          raises
          c).1.backend
      ⊎ Confirmed
          (simulated rng id)
          (NoShot id shots)
          fuel
          focus_ms
          dwell_ms
          timeout_ms
          c
          (autofocus_and_capture (simulated rng id) fuel focus_ms dwell_ms timeout_ms raises c)
autofocus_and_capture-unauthorised rng id shots =
    autofocus_and_capture-authorised (simulated rng id) (NoShot id shots)
      (simulated-IsQuiet rng id shots)
