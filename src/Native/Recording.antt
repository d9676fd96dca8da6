-- ===== src/Native/Recording.antt =====
-- src/crsdkpy/backend/native.py: starting and stopping a recording on a camera that has one button
-- for both.
use cr_sdkpy.Base.{
  ℕ, Bool, true, false, not, Bool-cases, inl, inr, if◌then◌else◌, nat_identity, Result, ok, ◌≡◌,
  ◌⊎◌, refl, sym, ◌∙◌, ap,
}
use cr_sdkpy.Base.Int.{pos}
use cr_sdkpy.Enums.{RecordingState, Command, CommandParameter, recording_identity}
use cr_sdkpy.Events.{Error}
use cr_sdkpy.Properties.{Property, PropertyValue}
use cr_sdkpy.Native.Device.{
  Device, code_recording_state, int_value, read_value, is_active, recording_state, press_record,
  start_recording, stop_recording,
}

-- A camera that is recording or not and goes over to the other at each press of the button. What
-- its property says may be behind what it does.
pub record HasRecordButton (D : Device) : Type 0 where
  pub is_recording : D.State → Bool
  pub reports : D.State → Bool
  pub reported : D.State → Property
  pub down : D.State → D.State
  pub up : D.State → D.State
  pub reads : (s : D.State) → D.get_property code_recording_state s ≡ (ok (reported s), s)
  pub tells :
      (s : D.State) → (reported s).value ≡ PropertyValue.num (if reports s then pos 1 else pos 0)
  pub presses :
      (s : D.State) → D.send_command Command.movie_record CommandParameter.down s ≡ (ok tt, down s)
  pub releases :
      (s : D.State) → D.send_command Command.movie_record CommandParameter.up s ≡ (ok tt, up s)
  pub toggles : (s : D.State) → is_recording (down s) ≡ not (is_recording s)
  pub up_keeps : (s : D.State) → is_recording (up s) ≡ is_recording s
  pub sleep_keeps :
      (duration : ℕ) (s : D.State) → is_recording (D.sleep_ms duration s) ≡ is_recording s

one_or_other : (b wanted : Bool) → (b ≡ wanted) ⊎ (b ≡ not wanted)
one_or_other true true = inl refl
one_or_other true false = inr refl
one_or_other false true = inr refl
one_or_other false false = inl refl

not-not : (b : Bool) → not (not b) ≡ b
not-not true = refl
not-not false = refl

module _ (D : Device) (laws : HasRecordButton D) where
  open laws use {is_recording, reports}

  -- The operation that asks for a recording, and the one that asks for none.
  abbrev pub switch : Bool → D.State → Result Error (Unit {0}) × D.State
  switch wanted = if wanted then start_recording D else stop_recording D

  abbrev told : Bool → RecordingState
  told b = if b then RecordingState.recording else RecordingState.idle

  told-is_active : (b : Bool) → is_active (told b) ≡ b
  unfolding is_active
  told-is_active true = refl
  told-is_active false = refl

  recording_state-told : (s : D.State) → recording_state D s ≡ (ok (told (reports s)), s)
  unfolding recording_state read_value int_value
  recording_state-told s = elim (Bool-cases (reports s)) [
    | inl h ↦ rw (laws.reads s) (rw (laws.tells s) (rw h refl))
    | inr h ↦ rw (laws.reads s) (rw (laws.tells s) (rw h refl))
  ]

  abbrev pressed : D.State → D.State
  pressed s = laws.up (D.sleep_ms 35 (laws.down s))

  press_record-pressed : (s : D.State) → press_record D s ≡ (ok tt, pressed s)
  unfolding press_record
  press_record-pressed s =
      rw (laws.presses s) (rw (laws.releases (D.sleep_ms 35 (laws.down s))) refl)

  pressed-is_recording : (s : D.State) → is_recording (pressed s) ≡ not (is_recording s)
  pressed-is_recording s =
      laws.up_keeps (D.sleep_ms 35 (laws.down s))
      ∙ (laws.sleep_keeps 35 (laws.down s) ∙ laws.toggles s)

  switch_keeps : (wanted : Bool) (s : D.State) → reports s ≡ wanted → switch wanted s ≡ (ok tt, s)
  unfolding start_recording stop_recording
  switch_keeps true s h = rw (recording_state-told s) (rw h refl)
  switch_keeps false s h = rw (recording_state-told s) (rw h refl)

  switch_presses :
      (wanted : Bool) (s : D.State) → reports s ≡ not wanted → switch wanted s ≡ (ok tt, pressed s)
  unfolding start_recording stop_recording
  switch_presses true s h = rw (recording_state-told s) (rw h (press_record-pressed s))
  switch_presses false s h = rw (recording_state-told s) (rw h (press_record-pressed s))

  -- What it is to ask for a recording or for none, in one state and in another, in which the camera
  -- does already what is asked for.
  pub record Brings (wanted : Bool) (s next : D.State) : Type 0 where
    pub succeeds : (switch wanted s).0 ≡ ok tt
    pub reached : is_recording (switch wanted s).1 ≡ wanted
    pub again :
        ((reports next ≡ wanted) × (switch wanted next ≡ (ok tt, next)))
        ⊎ ((reports next ≡ not wanted) × (is_recording (switch wanted next).1 ≡ not wanted))

  asked_again :
      (wanted : Bool) (next : D.State)
      → is_recording next ≡ wanted
      → ((reports next ≡ wanted) × (switch wanted next ≡ (ok tt, next)))
        ⊎ ((reports next ≡ not wanted) × (is_recording (switch wanted next).1 ≡ not wanted))
  asked_again wanted next h = elim (one_or_other (reports next) wanted) [
    | inl e ↦ inl (e, switch_keeps wanted next e)
    | inr e ↦ inr (
      e,
      ap (λ r. is_recording r.1) (switch_presses wanted next e)
          ∙ (pressed-is_recording next ∙ ap not h),
    )
  ]

  -- On a camera whose one button goes over from recording to not recording and back, and which
  -- reports which it is, perhaps late: where the report is true at the call, start_recording
  -- brings the camera to recording and stop_recording to not recording, whatever it was. Called
  -- in a state in which the camera does what is asked for already, as behind a first call, each of
  -- them presses nothing and changes nothing where the report says so; but where the report has
  -- not caught up, it presses again and undoes what was asked for.
  pub recording-Brings :
      (wanted : Bool) (s next : D.State)
      → reports s ≡ is_recording s
      → is_recording next ≡ wanted
      → Brings wanted s next
  recording-Brings wanted s next settled h = elim (one_or_other (reports s) wanted) [
    | inl e ↦
        let kept = switch_keeps wanted s e in
        record {
          succeeds = ap (λ r. r.0) kept;
          reached = ap (λ r. is_recording r.1) kept ∙ (sym settled ∙ e);
          again = asked_again wanted next h;
        }
    | inr e ↦
        let moved = switch_presses wanted s e in
        record {
          succeeds = ap (λ r. r.0) moved;
          reached =
              ap (λ r. is_recording r.1) moved
              ∙ (pressed-is_recording s ∙ (ap not (sym settled ∙ e) ∙ not-not wanted));
          again = asked_again wanted next h;
        }
  ]
