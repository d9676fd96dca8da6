-- ===== src/Host/Replies.antt =====
-- src/crsdkpy/backend/host.py: which frame a call takes for its response.
use mathlib.Core.Path.{subst⁻¹}
use cr_sdkpy.Base.{
  ℕ, zero, suc, Bool, true, false, not, List, [], ◌∷◌, take, drop, ◌==◌, ==_iff, ◌is◌, Result, ok,
  err, ◌≡◌, refl, ap, arith, All,
}
use cr_sdkpy.Base.Int.{pos, int_identity}
use cr_sdkpy.Events.{Error, Action, bind, raise_when}
use cr_sdkpy.Ipc.{Wire, Frame, from_bytes}
use cr_sdkpy.Session.Outcomes.{Outcome, bind-Outcome, either-Outcome, map-Outcome}
use cr_sdkpy.Host.Wire.{read_response, response_size, msg_event, msg_response}
use cr_sdkpy.Host.Transport.{
  Platform, Host, wire, Reply, accept_response, await_response, read_frame_or_die,
}

pub guard-Outcome :
    {S A : Type 0} (G : A → S → Type 0) (b : Bool) (e : Error) (f : Unit {0} → Action S A) (s : S)
    → (b ≡ false → Outcome G (f tt s))
    → Outcome G (bind f (raise_when b e s))
unfolding Outcome
guard-Outcome G true e f s h = tt
guard-Outcome G false e f s h = h refl

not-false : {b : Bool} → not b ≡ false → b ≡ true
not-false h = ground arith

from_bytes-take :
    (size : ℕ) (bytes taken : List ℕ) → from_bytes size bytes ≡ ok taken → taken ≡ take size bytes
unfolding from_bytes
from_bytes-take size bytes taken h = ground arith

module _ (P : Platform) where
  pub wire-Outcome :
      {A B : Type 0} (G : B → Host P → Type 0) (w : Wire A) (f : A → Action (Host P) B) (s : Host P)
      → ((a : A) → w ≡ ok a → Outcome G (f a s))
      → Outcome G (bind f (wire P w s))
  unfolding Outcome
  wire-Outcome G (ok a) f s h = h a refl
  wire-Outcome G (err e) f s h = tt

  -- Frames that are read one after another, the newest first.
  pub data Reads (s : Host P) : List Frame → Host P → Type 0 where
    none_yet : Reads s [] s
    and_then :
        {frames : List Frame} {frame : Frame} {s1 s2 : Host P}
        → Reads s frames s1
        → read_frame_or_die P s1 ≡ (ok frame, s2)
        → Reads s (frame ∷ frames) s2

  -- The frame that a reply was made of.
  pub record IsReplyIn (id : ℕ) (frame : Frame) (reply : Reply P) : Type 0 where
    pub is_response : frame.message_type ≡ 4
    pub is_for : frame.request_id ≡ id
    pub contents :
        reply
        ≡ (read_response (take response_size frame.meta), frame.blob, drop response_size frame.meta)
    pub succeeded : reply.0.status ≡ pos 0

  abbrev pub Accepted : ℕ → Frame → Host P → Reply P → Host P → Type 0
  Accepted id frame s reply s' =
      (s' ≡ s)
      × (frame.request_id ≡ id)
      × (reply ≡ (
        read_response (take response_size frame.meta),
        frame.blob,
        drop response_size frame.meta,
      ))
      × (reply.0.status ≡ pos 0)

  pub accept_response-Accepted :
      (id : ℕ) (frame : Frame) (s : Host P)
      → Outcome (Accepted id frame s) (accept_response P id frame s)
  unfolding accept_response Outcome
  accept_response-Accepted id frame s =
      guard-Outcome (Accepted id frame s) (not (frame.request_id == id)) _ _ s (λ same.
        wire-Outcome (Accepted id frame s) (from_bytes response_size frame.meta) _ s (λ bytes got.
          guard-Outcome (Accepted id frame s) (not ((read_response bytes).status is pos 0)) _ _ s
            (λ fine. (
              refl,
              (==_iff frame.request_id id).0 (not-false same),
              ap (λ b. (read_response b, frame.blob, drop response_size frame.meta))
                  (from_bytes-take response_size frame.meta bytes got),
              (int_identity.same_iff (read_response bytes).status (pos 0)).0 (not-false fine),
            ))))

  -- From one state on, events were read, then a frame that the reply is made of, and nothing of the
  -- output behind it. What becomes of the events is left open.
  pub record Answers (id : ℕ) (s : Host P) (reply : Reply P) (s' : Host P) : Type 0 where
    pub events : List Frame
    pub frame : Frame
    pub reached : Host P
    pub read : Reads s (frame ∷ events) reached
    pub no_further : s'.world ≡ reached.world
    pub only_events : All (λ f. f.message_type ≡ 5) events
    pub is_reply : IsReplyIn id frame reply

  itself : {A : Type 0} (r : Result Error A × Host P) → Outcome (λ a s'. r ≡ (ok a, s')) r
  unfolding Outcome
  itself (ok a, s) = refl
  itself (err e, s) = tt

  await_from :
      (fuel id : ℕ) (s s1 : Host P) (events : List Frame)
      → Reads s events s1
      → All (λ f. f.message_type ≡ 5) events
      → Outcome (Answers id s) (await_response P fuel id s1)
  unfolding await_response Outcome
  await_from zero id s s1 events r all = tt
  await_from (suc fuel) id s s1 events r all =
      bind-Outcome _ (Answers id s) _ (read_frame_or_die P s1) (itself (read_frame_or_die P s1))
        (λ frame s2 got.
          either-Outcome (Answers id s) (frame.message_type == msg_event) _ _
            (λ event.
              await_from fuel id s s2 (frame ∷ events) (and_then r got)
                ((==_iff frame.message_type 5).0 event, all))
            (λ other.
              either-Outcome (Answers id s) (not (frame.message_type == msg_response)) _ _ (λ _. tt)
                (λ response.
                  map-Outcome (Accepted id frame s2) (Answers id s) (accept_response P id frame s2)
                    (accept_response-Accepted id frame s2)
                    (λ reply s3 a. subst⁻¹ (Answers id s reply) a.0 (record {
                      events = events;
                      frame = frame;
                      reached = s2;
                      read = and_then r got;
                      no_further = refl;
                      only_events = all;
                      is_reply = record {
                        is_response = (==_iff frame.message_type 4).0 (not-false response);
                        is_for = a.1;
                        contents = a.2;
                        succeeded = a.3;
                      };
                    })))))

  -- Where a call returns, the frames that it has read are events, of which it takes none for its
  -- answer, and then a frame that is a response, has the id of the request and reports success;
  -- the reply is what that frame holds, and nothing behind that frame is read. A response to
  -- another request is never taken for it, nor is one that reports an error.
  pub await_response-Answers :
      (fuel id : ℕ) (s : Host P) → Outcome (Answers id s) (await_response P fuel id s)
  await_response-Answers fuel id s = await_from fuel id s s [] none_yet tt
