-- ===== src/Host/Registry.antt =====
-- src/crsdkpy/backend/host.py: opening and closing sessions, and the table of sessions.
use mathlib.Core.Path.{subst⁻¹}
use cr_sdkpy.Base.{
  ℕ, ◌+◌, ◌-◌, ◌≤◌, ◌≡◌, sym, ◌∙◌, ap, arith, All, true, Option, none, some, List, [], ◌∷◌,
  nat_identity, Result, ok, err,
}
use cr_sdkpy.Base.Dict.{
  lookup, erase, keys, enter_key, drop_key, keys-insert, keys-erase, enter_key-All, drop_key-All,
}
use cr_sdkpy.Base.Int.{pos}
use cr_sdkpy.Enums.{SessionMode, StillDestination, ReconnectPolicy}
use cr_sdkpy.Events.{Error, Action, Text, bind}
use cr_sdkpy.Native.Decode.{mode_to_abi}
use cr_sdkpy.Native.Keeps.{apply_destination-Keeps}
use cr_sdkpy.Session.Keeps.{Keeps, bind_keeps}
use cr_sdkpy.Session.Outcomes.{Outcome, bind-Outcome}
use cr_sdkpy.Host.Wire.{Arguments, no_arguments}
use cr_sdkpy.Host.Transport.{Platform, Host, call}
use cr_sdkpy.Host.Access.{device}
use cr_sdkpy.Host.Sessions.{
  reconnect_to_abi, attempts_of, open_with_retry, register, apply_wanted, open_session, unregister,
  close_session,
}
use cr_sdkpy.Host.Tables.{IsCoherent}
use cr_sdkpy.Host.Coherent.{hosted-DeviceKeeps, retry_loop-Keeps, after_call_keeps}
use cr_sdkpy.Host.Running.{Runs, call-Runs, retry_loop-Runs}

module _ (P : Platform) where
  register-IsCoherent :
      (fuel handle : ℕ) (mode : SessionMode) (s : Host P)
      → s.running ≡ true
      → IsCoherent P s
      → IsCoherent P (register P fuel handle mode s)
  unfolding IsCoherent
  register-IsCoherent fuel handle mode s runs c = record {
    same_sessions =
        keys-insert (s.session_counter + 1) handle s.handles
        ∙ (ap (enter_key (s.session_counter + 1)) c.same_sessions
            ∙ sym (keys-insert (s.session_counter + 1) mode s.modes));
    numbered =
        subst⁻¹ (All (λ id. id ≤ s.session_counter + 1))
          (keys-insert (s.session_counter + 1) handle s.handles)
          (enter_key-All (λ id. id ≤ s.session_counter + 1) (s.session_counter + 1) (keys s.handles)
            (omega arith) (one_more (keys s.handles) c.numbered));
    none_without_process = λ stopped. absurd (grind (arith, runs, stopped));
  }
    where
      one_more :
          (ids : List ℕ)
          → All (λ id. id ≤ s.session_counter) ids
          → All (λ id. id ≤ s.session_counter + 1) ids
      one_more [] h = tt
      one_more (id ∷ ids) h = (omega (arith, h.0), one_more ids h.1)

  unregister-IsCoherent :
      (fuel id : ℕ) (s : Host P) → IsCoherent P s → IsCoherent P (unregister P fuel id s)
  unfolding IsCoherent
  unregister-IsCoherent fuel id s c = record {
    same_sessions =
        keys-erase id s.handles ∙ (ap (drop_key id) c.same_sessions ∙ sym (keys-erase id s.modes));
    numbered =
        subst⁻¹ (All (λ n. n ≤ s.session_counter)) (keys-erase id s.handles)
          (drop_key-All (λ n. n ≤ s.session_counter) id (keys s.handles) c.numbered);
    none_without_process = λ stopped. ap (erase id) (c.none_without_process stopped);
  }

  -- Goes on from an operation that leaves the tables coherent and, where it returns, a process.
  with_process_keeps :
      {A B : Type 0} (f : A → Action (Host P) B) (x : Result Error A × Host P)
      → IsCoherent P x.1
      → Outcome (Runs P) x
      → ((a : A) (s : Host P) → IsCoherent P s → s.running ≡ true → IsCoherent P (f a s).1)
      → IsCoherent P (bind f x).1
  unfolding Outcome
  with_process_keeps f (ok a, s) c runs h = h a s c runs
  with_process_keeps f (err e, s) c runs h = c

  module _ (fuel : ℕ) where
    abbrev opening : ℕ → Text → ReconnectPolicy → Arguments
    opening abi_mode device_key reconnect = record no_arguments {
      i32 = pos abi_mode;
      i32_2 = pos (reconnect_to_abi reconnect);
      text = device_key;
    }

    open_with_retry-Keeps :
        (abi_mode : ℕ) (device_key : Text) (reconnect : ReconnectPolicy)
        → Keeps (IsCoherent P) (open_with_retry P fuel abi_mode device_key reconnect)
    unfolding open_with_retry
    open_with_retry-Keeps abi_mode device_key reconnect =
        retry_loop-Keeps P (attempts_of reconnect - 1) _ (λ s c.
          after_call_keeps P fuel 6 (opening abi_mode device_key reconnect) _ s c
            (λ reply s1 c1. c1))

    open_with_retry-Runs :
        (abi_mode : ℕ) (device_key : Text) (reconnect : ReconnectPolicy) (s : Host P)
        → Outcome (Runs P) (open_with_retry P fuel abi_mode device_key reconnect s)
    unfolding open_with_retry Outcome
    open_with_retry-Runs abi_mode device_key reconnect =
        retry_loop-Runs P (attempts_of reconnect - 1) _ (λ s.
          bind-Outcome (Runs P) (Runs P) _ (call P fuel 6 (opening abi_mode device_key reconnect) s)
            (call-Runs P fuel 6 (opening abi_mode device_key reconnect) s) (λ reply s1 runs. runs))

    apply_wanted-Keeps :
        (id : ℕ) (wanted : Option StillDestination)
        → Keeps (IsCoherent P) (apply_wanted P fuel id wanted)
    unfolding apply_wanted device
    apply_wanted-Keeps id none s c = c
    apply_wanted-Keeps id (some destination) s c =
        apply_destination-Keeps (device P fuel id) (IsCoherent P) (hosted-DeviceKeeps P fuel id)
          destination s c

    pub open_session-Keeps :
        (device_key : Text) (mode : SessionMode) (wanted : Option StillDestination)
        (reconnect : ReconnectPolicy)
        → Keeps (IsCoherent P) (open_session P fuel device_key mode wanted reconnect)
    unfolding open_session
    open_session-Keeps device_key mode wanted reconnect s c =
        with_process_keeps _ (open_with_retry P fuel (mode_to_abi mode) device_key reconnect s)
          (open_with_retry-Keeps (mode_to_abi mode) device_key reconnect s c)
          (open_with_retry-Runs (mode_to_abi mode) device_key reconnect s)
          (λ response s1 c1 runs.
            let s2 = register P fuel response.handle mode s1 in
            bind_keeps (IsCoherent P) _ (apply_wanted P fuel s2.session_counter wanted s2)
              (λ _ s3 c3. c3)
              (apply_wanted-Keeps s2.session_counter wanted s2
                (register-IsCoherent fuel response.handle mode s1 runs c1)))

    pub close_session-Keeps : (id : ℕ) → Keeps (IsCoherent P) (close_session P fuel id)
    unfolding close_session
    close_session-Keeps id s c = by_table (lookup id s.handles)
      where
        gone : IsCoherent P (unregister P fuel id s)
        gone = unregister-IsCoherent fuel id s c

        by_table :
            (found : Option ℕ)
            → IsCoherent P
                (elim found as (λ _. Result Error (Unit {0}) × Host P) [
                  | none ↦ (ok tt, unregister P fuel id s)
                  | some handle ↦
                      bind
                        (λ reply s'. (ok tt, s'))
                        (call P fuel 7
                          (record no_arguments { handle = handle })
                          (unregister P fuel id s))
                ]).1
        by_table none = gone
        by_table (some handle) =
            after_call_keeps P fuel 7 (record no_arguments { handle = handle }) _ _ gone
              (λ reply s1 c1. c1)
