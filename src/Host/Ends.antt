-- ===== src/Host/Ends.antt =====
-- src/crsdkpy/backend/host.py: a call of the host process ends. Each round of the loop that waits
-- for the response reads a frame, and the pipe holds only so many bytes.
use cr_sdkpy.Base.{
  ℕ, zero, suc, ◌<◌, ◌≡◌, refl, ap, Bool-cases, inl, inr, All, [], ◌∷◌, nat_identity, Bool, true,
  false, not, Option, none, some, ◌==◌, ◌is◌, ok, err, arith,
}
use cr_sdkpy.Base.Dict.{Dict, lookup}
use cr_sdkpy.Base.Int.{ℤ, pos, negsuc, int_identity}
use cr_sdkpy.Contract.{Returns}
use cr_sdkpy.Events.{Error, Action, bind, raise_when, is_exhausted, camera_connection}
use cr_sdkpy.Ipc.{Stream, Wire, Frame, from_bytes, read_frame}
use cr_sdkpy.Ipc.Shrinks.{bytes_left, Shrinks, read_frame-Shrinks}
use cr_sdkpy.Session.Ends.{bind-Returns, either-Returns, weaken, no_fuel}
use cr_sdkpy.Host.Wire.{
  Response, read_response, response_size, to_exception, category_error, categories, msg_event,
  msg_response,
}
use cr_sdkpy.Host.Transport.{
  Platform, Host, wire, accept_response, await_response, read_frame_or_die, frame_or_die,
  require_process, unless_ended,
}

-- What the loop relies on: a look at the process takes nothing out of the pipe, and a read leaves
-- what it left.
pub record KeepsPipe (P : Platform) : Type 0 where
  pub poll_keeps : (w : P.World) → P.pipe (P.poll w).1 ≡ P.pipe w
  pub read_leaves : (rest : Stream) (w : P.World) → P.pipe (P.after_read rest w) ≡ rest

lookup_is_no_exhaustion :
    (n : ℕ) (d : Dict ℕ Error)
    → All (λ entry. is_exhausted entry.1 ≡ false) d
    → is_exhausted (elim (lookup n d) [ some e ↦ e | none ↦ camera_connection false ]) ≡ false
lookup_is_no_exhaustion n [] h = refl
lookup_is_no_exhaustion n ((k, e) ∷ d) h = elim (Bool-cases (n == k)) [
  | inl here ↦ rw here h.0
  | inr later ↦ rw later (lookup_is_no_exhaustion n d h.1)
]

category_is_no_exhaustion : (category : ℤ) → is_exhausted (category_error category) ≡ false
category_is_no_exhaustion (negsuc n) = refl
category_is_no_exhaustion (pos n) =
    lookup_is_no_exhaustion n categories
      (refl, (refl, (refl, (refl, (refl, (refl, (refl, (refl, (refl, (refl, (refl, tt)))))))))))

to_exception-is-no-exhaustion : (response : Response) → is_exhausted (to_exception response) ≡ false
unfolding to_exception
to_exception-is-no-exhaustion response = category_is_no_exhaustion response.category

module _ (P : Platform) (laws : KeepsPipe P) where
  -- How much the host process still has to say.
  abbrev pub unread : Host P → ℕ
  unread s = bytes_left (P.pipe s.world)

  abbrev pub Anything : {A : Type 0} → A → Host P → Type 0
  Anything a s = Unit {0}

  abbrev LessUnread : Host P → Frame → Host P → Type 0
  LessUnread s frame s' = unread s' < unread s

  frame_or_die-LessUnread :
      (s : Host P) (r : Wire (Option Frame × Stream))
      → Shrinks (P.pipe s.world) r
      → Returns (LessUnread s) (frame_or_die P r s)
  unfolding frame_or_die Returns
  frame_or_die-LessUnread s (err e) h = refl
  frame_or_die-LessUnread s (ok (none, rest)) h = refl
  frame_or_die-LessUnread s (ok (some frame, rest)) h = rw (laws.read_leaves rest s.world) h

  abbrev SamePipe : Host P → Unit {0} → Host P → Type 0
  SamePipe s a s' = P.pipe s'.world ≡ P.pipe s.world

  require_process-SamePipe : (s : Host P) → Returns (SamePipe s) (require_process P s)
  unfolding require_process Returns
  require_process-SamePipe s =
      either-Returns (SamePipe s) (not s.running) _ _ (λ _. refl)
        (λ _. looked (P.poll s.world).0 (P.poll s.world).1 (laws.poll_keeps s.world))
    where
      looked :
          (code : Option ℤ) (w : P.World)
          → P.pipe w ≡ P.pipe s.world
          → Returns (SamePipe s) (unless_ended P code (record s { world = w }))
      looked none w h = h
      looked (some code) w h = refl

  read_frame_or_die-LessUnread : (s : Host P) → Returns (LessUnread s) (read_frame_or_die P s)
  unfolding read_frame_or_die
  read_frame_or_die-LessUnread s =
      bind-Returns (SamePipe s) (LessUnread s) _ (require_process P s) (require_process-SamePipe s)
        (λ _ s1 same.
          weaken (LessUnread s1) (LessUnread s) (frame_or_die P (read_frame (P.pipe s1.world)) s1)
            (frame_or_die-LessUnread s1 (read_frame (P.pipe s1.world))
              (read_frame-Shrinks (P.pipe s1.world)))
            (λ frame s2 less.
              let e : unread s1 ≡ unread s = ap bytes_left same in omega (arith, less, e)))

  guard_ends :
      {A : Type 0} (b : Bool) (e : Error) (f : Unit {0} → Action (Host P) A) (s : Host P)
      → is_exhausted e ≡ false
      → Returns Anything (f tt s)
      → Returns Anything (bind f (raise_when b e s))
  unfolding Returns
  guard_ends true e f s h k = h
  guard_ends false e f s h k = k

  wire_ends :
      {A B : Type 0} (w : Wire A) (f : A → Action (Host P) B) (s : Host P)
      → ((a : A) → Returns Anything (f a s))
      → Returns Anything (bind f (wire P w s))
  unfolding Returns
  wire_ends (ok a) f s h = h a
  wire_ends (err e) f s h = refl

  accept_response_ends :
      (id : ℕ) (frame : Frame) (s : Host P) → Returns Anything (accept_response P id frame s)
  unfolding accept_response Returns
  accept_response_ends id frame s = guard_ends (not (frame.request_id == id)) _ _ s refl (
      wire_ends (from_bytes response_size frame.meta) _ s (λ bytes.
        guard_ends (not ((read_response bytes).status is pos 0)) _ _ s
          (to_exception-is-no-exhaustion (read_response bytes)) tt))

  -- On a platform whose pipe keeps what is not read from it: with more fuel than there are bytes
  -- in the pipe, a call does not run out of fuel while it waits for its response, however many
  -- events come before it. It returns a reply or raises an error of the program.
  pub await_response-ends :
      (fuel id : ℕ) (s : Host P) → unread s < fuel → Returns Anything (await_response P fuel id s)
  unfolding await_response Returns
  await_response-ends zero id s h = absurd (no_fuel h)
  await_response-ends (suc fuel) id s h =
      bind-Returns (LessUnread s) Anything _ (read_frame_or_die P s)
        (read_frame_or_die-LessUnread s)
        (λ frame s1 less.
          either-Returns Anything (frame.message_type == msg_event) _ _
            (λ _. await_response-ends fuel id s1 (omega (arith, less, h)))
            (λ _.
              either-Returns Anything (not (frame.message_type == msg_response)) _ _ (λ _. refl)
                (λ _. accept_response_ends id frame s1)))
