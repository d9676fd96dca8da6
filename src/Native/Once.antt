-- ===== src/Native/Once.antt =====
-- src/crsdkpy/backend/native.py: the capabilities of a session that are measured once.
use cr_sdkpy.Base.{
  Bool, true, false, none, some, Option-cases, Bool-cases, inl, inr, nat_identity, Result, ok, err,
  ◌≡◌, refl, sym, ◌∙◌, ap, arith,
}
use cr_sdkpy.Base.Dict.{lookup, lookup-insert_self}
use cr_sdkpy.Enums.{recording_identity}
use cr_sdkpy.Events.{Error}
use cr_sdkpy.Native.Measured.{MeasuredCapabilities, note_video, note_live_view, knows_live_view}
use cr_sdkpy.Native.Device.{
  Device, measure_video, measure_live_view, attempt, probe_video, probe_live_view,
}

-- What is remembered is what is read back.
abbrev pub Remembers : (D : Device) → Type 0
Remembers D = (m : MeasuredCapabilities) (s : D.State) → D.measured (D.remember m s) ≡ m

module _ (D : Device) (lens : Remembers D) where
  known_video :
      (s : D.State) (b : Bool)
      → lookup D.session (D.measured s).videos ≡ some b
      → measure_video D s ≡ (ok b, s)
  unfolding measure_video
  known_video s b h = rw (h, measure_video) refl

  noted_video :
      (b : Bool) (s : D.State)
      → lookup D.session (D.measured (D.remember (note_video D.session b (D.measured s)) s)).videos
        ≡ some b
  unfolding note_video
  noted_video b s =
      rw (lens (note_video D.session b (D.measured s)) s)
        (lookup-insert_self D.session b (D.measured s).videos)

  new_video :
      (s : D.State)
      → lookup D.session (D.measured s).videos ≡ none
      → measure_video D s ≡ (
        ok (attempt (probe_video D s)).0,
        D.remember
            (note_video D.session
              (attempt (probe_video D s)).0
              (D.measured (attempt (probe_video D s)).1))
            (attempt (probe_video D s)).1,
      )
  unfolding measure_video
  new_video s h = rw (h, measure_video) refl

  video_once : (s : D.State) → measure_video D (measure_video D s).1 ≡ measure_video D s
  video_once s = elim (Option-cases (lookup D.session (D.measured s).videos)) [
    | inl h ↦
        let r = attempt (probe_video D s) in
        let e = new_video s h in
        ap (λ t. measure_video D t.1) e
        ∙ (known_video (D.remember (note_video D.session r.0 (D.measured r.1)) r.1) r.0
              (noted_video r.0 r.1)
            ∙ sym e)
    | inr (b, h) ↦ ap (λ r. measure_video D r.1) (known_video s b h)
  ]

  noted_live_view :
      (b : Bool) (s : D.State)
      → b ≡ true
      → knows_live_view D.session
          (D.measured (D.remember (note_live_view D.session b (D.measured s)) s))
        ≡ true
  unfolding note_live_view
  noted_live_view true s h =
      rw (lens (note_live_view D.session true (D.measured s)) s)
        (rw (lookup-insert_self D.session true (D.measured s).live_views, knows_live_view) refl)
  noted_live_view false s h = absurd (ground (arith, h))

  known_live_view :
      (s : D.State)
      → knows_live_view D.session (D.measured s) ≡ true
      → measure_live_view D s ≡ (ok true, s)
  unfolding measure_live_view
  known_live_view s h = rw h refl

  new_live_view :
      (s : D.State)
      → knows_live_view D.session (D.measured s) ≡ false
      → measure_live_view D s ≡ (
        ok (attempt (probe_live_view D s)).0,
        D.remember
            (note_live_view D.session
              (attempt (probe_live_view D s)).0
              (D.measured (attempt (probe_live_view D s)).1))
            (attempt (probe_live_view D s)).1,
      )
  unfolding measure_live_view
  new_live_view s h = rw h refl

  abbrev answer : Result Error Bool → Bool
  answer (ok b) = b
  answer (err e) = false

  live_view_once :
      (s : D.State)
      → (measure_live_view D s).0 ≡ ok true
      → measure_live_view D (measure_live_view D s).1 ≡ measure_live_view D s
  live_view_once s found = elim (Bool-cases (knows_live_view D.session (D.measured s))) [
    | inl h ↦ ap (λ r. measure_live_view D r.1) (known_live_view s h)
    | inr h ↦
        let r = attempt (probe_live_view D s) in
        let e = new_live_view s h in
        let usable : r.0 ≡ true = ap answer (sym (ap (λ t. t.0) e) ∙ found) in
        ap (λ t. measure_live_view D t.1) e
        ∙ (known_live_view (D.remember (note_live_view D.session r.0 (D.measured r.1)) r.1)
              (noted_live_view r.0 r.1 usable)
            ∙ (ap (λ b. (ok b, D.remember (note_live_view D.session r.0 (D.measured r.1)) r.1))
                  (sym usable)
                ∙ sym e))
  ]

  -- On a device that reads back what it remembers: whether a session has video is measured once, and
  -- asked again gives the answer of the first time, whatever that was, and changes nothing more;
  -- live view that was found usable is not measured again either.
  pub measured-once :
      (s : D.State)
      → (measure_video D (measure_video D s).1 ≡ measure_video D s)
        × ((measure_live_view D s).0 ≡ ok true
            → measure_live_view D (measure_live_view D s).1 ≡ measure_live_view D s)
  measured-once s = (video_once s, live_view_once s)
