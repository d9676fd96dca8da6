-- ===== src/Simulator/Laws.antt =====
-- The simulator (src/crsdkpy/simulator/backend.py) keeps what the public session relies on: the
-- laws of waiting, and a content index that answers above the bound it is given.
use cr_sdkpy.Base.{
  ℕ, ◌≤◌, ◌<◌, Bool, true, false, not, Option, none, some, List, [], ◌∷◌, ltb, if◌then◌else◌,
  select, All, nat_identity, Result, ok, err, ◌≡◌, refl, inl, inr, Bool-cases, Option-cases, arith,
}
use cr_sdkpy.Base.Dict.{lookup-insert_self, lookup}
use cr_sdkpy.Enums.{writable}
use cr_sdkpy.Contract.{Advances, Returns, ContentRef, Preview}
use cr_sdkpy.Events.{
  Error, is_exhausted, session_closed, raise_when, unsupported, camera_connection,
}
use cr_sdkpy.Session.Ends.{bind-Returns}
use cr_sdkpy.Session.Outcomes.{Outcome}
use cr_sdkpy.Session.Newer.{AboveBaseline, ListsNewer}
use cr_sdkpy.Simulator.Timeline.{SimSession, settle}
use cr_sdkpy.Simulator.Timeline.Budget.{load, settle-load}
use cr_sdkpy.Simulator.Profiles.{build_property}
use cr_sdkpy.Simulator.Shooting.{caps}
use cr_sdkpy.Simulator.Backend.{
  World, Operation, session_capabilities, checked, save, check_live, on_live_session,
  get_half_press, require_half_press, set_half_press, focus_state, set_property, write_property,
  sleep_ms, connection_state,
}
use cr_sdkpy.Simulator.Media.{
  with_index, Rng, newer, list_content, produce_frame, next_frame, get_live_view_frame, with_image,
  to_option,
}
use cr_sdkpy.Simulator.Instance.{
  simulated, pending, Ends, find_cases, check_live-Ends, on_session_found, on_session_missing,
  IsCalm, checked-IsCalm, on_live_session-Steady, on_session-Steady, poll_events-Moves, Steady,
  saved,
}

select-All_lt :
    (b : ℕ) (refs : List ContentRef)
    → All (λ ref. b < ref.content_id) (select (λ c. ltb b c.content_id) refs)
select-All_lt b [] = tt
select-All_lt b (c ∷ cs) = elim (Bool-cases (ltb b c.content_id)) [
  | inl h ↦ rw h (ground arith, select-All_lt b cs)
  | inr h ↦ rw h (select-All_lt b cs)
]

newer-above :
    (bound : Option ℕ) (refs : List ContentRef)
    → All (λ ref. AboveBaseline bound ref.content_id) (newer bound refs)
newer-above none refs = all_unit refs
  where
    all_unit : (refs : List ContentRef) → All (λ ref. Unit {0}) refs
    all_unit [] = tt
    all_unit (ref ∷ refs) = (tt, all_unit refs)
newer-above (some b) refs = select-All_lt b refs

-- An operation whose value satisfies `G`, on a session of the world.
on_live_session_value :
    {A : Type 0} (G : A → Type 0) (id : ℕ) (op : Operation A) (w : World)
    → ((now : ℕ) (s : SimSession) → Outcome (λ a s'. G a) (op now s))
    → Outcome (λ a w'. G a) (on_live_session id op w)
unfolding on_live_session Outcome
on_live_session_value {A} G id op w h = elim (find_cases id w) [
  | inl closed ↦ rw (on_session_missing id (checked op) w session_closed closed) tt
  | inr (s, there, found) ↦
      rw (on_session_found id (checked op) w s found)
        (wrap (checked op w.now s) (inner (check_live (settle w.now s)) s))
]
  where
    inner :
        (r : Result Error (Unit {0})) (s : SimSession)
        → Outcome
            (λ a s'. G a)
            (elim r as (λ _. Result Error A × SimSession) [
              | err e ↦ (err e, settle w.now s)
              | ok _ ↦ op w.now (settle w.now s)
            ])
    inner (ok a) s = h w.now (settle w.now s)
    inner (err e) s = tt

    wrap :
        (x : Result Error A × SimSession)
        → Outcome (λ a s'. G a) x
        → Outcome (λ a w'. G a) (x.0, save id x.1 w)
    wrap (ok a, s) g = g
    wrap (err e, s) g = tt

-- The content index of the simulator answers only with content above the bound that it is given.
pub simulated-ListsNewer : (rng : Rng) (id : ℕ) → ListsNewer (simulated rng id)
unfolding list_content ListsNewer Outcome
simulated-ListsNewer rng id bound w =
    on_live_session_value (λ refs. All (λ ref. AboveBaseline bound ref.content_id) refs) id _ w
      (λ now s. by_index (caps s).content_index s)
  where
    by_index :
        (b : Bool) (s : SimSession)
        → Outcome
            (λ refs s'. All (λ ref. AboveBaseline bound ref.content_id) refs)
            (if b then (ok (newer bound s.contents), s) else (err (unsupported "content_index"), s))
    by_index true s = newer-above bound s.contents
    by_index false s = tt

on_live_session-Ends :
    {A : Type 0} (id : ℕ) (op : Operation A) (w : World)
    → ((now : ℕ) (s : SimSession) → Ends (op now s).0)
    → Returns (λ a w'. Unit {0}) (on_live_session id op w)
unfolding on_live_session Returns
on_live_session-Ends {A} id op w h = elim (find_cases id w) [
  | inl closed ↦ rw (on_session_missing id (checked op) w session_closed closed) refl
  | inr (s, there, found) ↦ rw (on_session_found id (checked op) w s found) (
      wrap (checked op w.now s)
        (inner (check_live (settle w.now s)) (check_live-Ends (settle w.now s)) s))
]
  where
    inner :
        (r : Result Error (Unit {0}))
        → Ends r
        → (s : SimSession)
        → Ends
            (elim r as (λ _. Result Error A × SimSession) [
              | err e ↦ (err e, settle w.now s)
              | ok _ ↦ op w.now (settle w.now s)
            ]).0
    inner (ok a) g s = h w.now (settle w.now s)
    inner (err e) g s = g

    wrap :
        (x : Result Error A × SimSession)
        → Ends x.0
        → Returns (λ a w'. Unit {0}) (x.0, save id x.1 w)
    wrap (ok a, s) g = tt
    wrap (err e, s) g = g

raise_when-Ends :
    {S : Type 0} (b : Bool) (e : Error) (s : S) → is_exhausted e ≡ false → Ends (raise_when b e s).0
raise_when-Ends true e s h = h
raise_when-Ends false e s h = tt

write_property-Ends :
    (code value now : ℕ) (s : SimSession) → Ends (write_property code value now s).0
unfolding write_property
write_property-Ends code value now s = elim (Option-cases (lookup code s.properties)) [
  | inl missing ↦ rw (missing, Ends, write_property) refl
  | inr (old, there) ↦ elim (Bool-cases (writable (build_property code old).access)) [
    | inl may_write ↦ rw (there, Ends, write_property) (rw may_write tt)
    | inr read_only ↦ rw (there, Ends, write_property) (rw read_only refl)
  ]
]

pub set_half_press-Returns :
    (id : ℕ) (engaged : Bool) (w : World) → Returns (λ _ w'. Unit {0}) (set_half_press id engaged w)
unfolding set_half_press set_property
set_half_press-Returns id engaged w =
    bind-Returns _ _ _ (on_live_session id require_half_press w)
      (on_live_session-Ends id require_half_press w (λ now s. raise_when-Ends _ _ s refl))
      (λ _ w' _. on_live_session-Ends id (write_property _ _) w' (write_property-Ends _ _))

-- What a calm operation leaves, whether it returns or raises.
pub on_live_session_moves :
    {A : Type 0} (id : ℕ) (op : Operation A) (w : World)
    → IsCalm op
    → (w.now ≤ (on_live_session id op w).1.now)
      × (pending id (on_live_session id op w).1 ≤ pending id w)
      × Returns (λ a w'. Unit {0}) (on_live_session id op w)
unfolding on_live_session Returns
on_live_session_moves {A} id op w calm = elim (find_cases id w) [
  | inl closed ↦
      rw (on_session_missing id (checked op) w session_closed closed)
        (omega arith, omega arith, refl)
  | inr (s, there, found) ↦
      rw
        (
          on_session_found id (checked op) w s found,
          lookup-insert_self id (checked op w.now s).1 w.sessions,
          there,
        )
        (
          omega arith,
          (checked-IsCalm op calm w.now s).1,
          on_saved (checked op w.now s) ((checked-IsCalm op calm w.now s).0),
        )
]
  where
    on_saved :
        (x : Result Error A × SimSession)
        → Ends x.0
        → Returns (λ a w'. Unit {0}) (x.0, save id x.1 w)
    on_saved (ok a, s) g = tt
    on_saved (err e, s) g = g

pub with_index-IsCalm : {A : Type 0} (op : Operation A) → IsCalm op → IsCalm (with_index op)
with_index-IsCalm op calm now s = elim (Bool-cases (caps s).content_index) [
  | inl b ↦ rw b (calm now s)
  | inr b ↦ rw b (refl, omega arith)
]

with_image-calm :
    (found : Option (List ℕ)) (make : List ℕ → Preview) (s : SimSession) (n : ℕ)
    → load s ≤ n
    → Ends (to_option (with_image found make s)).0
      × (load (to_option (with_image found make s)).1 ≤ n)
with_image-calm none make s n h = (refl, h)
with_image-calm (some bytes) make s n h = (tt, h)

produce_frame-IsCalm : (rng : Rng) → IsCalm (produce_frame rng)
unfolding produce_frame
produce_frame-IsCalm rng now s = with_image-calm _ _ _ (load s) (omega arith)

-- Behind a guard that leaves the session as it is.
guard-calm :
    {A : Type 0} (b : Bool) (r : Result Error A) (s : SimSession) (y : Result Error A × SimSession)
    → Ends r
    → Ends y.0 × (load y.1 ≤ load s)
    → Ends (if b then (r, s) else y).0 × (load (if b then (r, s) else y).1 ≤ load s)
guard-calm true r s y h hy = (h, omega arith)
guard-calm false r s y h hy = hy

pub next_frame-IsCalm : (rng : Rng) → IsCalm (next_frame rng)
unfolding next_frame
next_frame-IsCalm rng now s =
    guard-calm (not (caps s).live_view) (err (unsupported "live_view")) s _ refl (
      guard-calm s.scenario.live_view_fetch_fails (err (camera_connection false)) s _ refl (
        guard-calm (ltb now s.live_view_blocked_until) (ok none) s _ tt (
          guard-calm (ltb now s.next_frame_ms) (ok none) s (produce_frame rng now s) tt
            (produce_frame-IsCalm rng now s))))

pub connection_state-Steady : (id : ℕ) (w : World) → Returns (Steady id w) (connection_state id w)
unfolding connection_state Returns
connection_state-Steady id w = elim (Option-cases (lookup id w.sessions)) [
  | inl missing ↦ rw (missing, connection_state, Returns) (omega arith, omega arith)
  | inr (s, there) ↦
      rw (there, connection_state)
        (saved id w s (ok (settle w.now s).state, settle w.now s) there tt (settle-load w.now s))
]

-- The laws of waiting, for one session of the simulator.
unfoldable pub waiting_laws : (rng : Rng) (id : ℕ) → Advances (simulated rng id)
unfolding focus_state get_half_press sleep_ms list_content session_capabilities get_live_view_frame
waiting_laws rng id = record {
  pending = pending id;
  poll_moves = poll_events-Moves id;
  focus_state_keeps = λ w. on_live_session-Steady id _ w (λ now s. (tt, omega arith));
  get_half_press_keeps = λ w. on_live_session-Steady id _ w (λ now s. (tt, omega arith));
  list_content_keeps =
      λ bound w. on_live_session_moves id _ w (with_index-IsCalm _ (λ now s. (tt, omega arith)));
  session_capabilities_keeps = λ w. on_session-Steady id _ w (λ now s. (tt, omega arith));
  connection_state_keeps = λ w. connection_state-Steady id w;
  get_live_view_frame_keeps = λ w. on_live_session-Steady id _ w (next_frame-IsCalm rng);
  sleep_moves = λ duration w. refl;
  set_half_press_ends = set_half_press-Returns id;
}

-- The simulator keeps the laws of waiting: a poll that waits moves the virtual clock or delivers
-- some of what is scheduled or ready, reading the focus state, the half-press stage, the
-- connection state, the content index, the capabilities or a live-view frame makes neither go
-- backwards, a sleep takes its duration, and no operation of these fails to end.
pub simulated-Advances : (rng : Rng) (id : ℕ) → Advances (simulated rng id)
simulated-Advances rng id = waiting_laws rng id
