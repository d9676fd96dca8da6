-- ===== src/Host/Coherent.antt =====
-- src/crsdkpy/backend/host.py: the operations of `HostBackend` and its table of sessions.
use cr_sdkpy.Base.{
  ℕ, zero, suc, true, Option, none, some, List, [], ◌∷◌, map, nat_identity, Result, ok, err,
}
use cr_sdkpy.Base.Dict.{lookup}
use cr_sdkpy.Base.Int.{ℤ, pos}
use cr_sdkpy.Enums.{Command, CommandParameter}
use cr_sdkpy.Events.{Error, Action, Text, bind, camera_connection}
use cr_sdkpy.Properties.{Property}
use cr_sdkpy.Native.Decode.{decode_property, command_to_abi, parameter_to_abi}
use cr_sdkpy.Ipc.{unpack_array, from_bytes}
use cr_sdkpy.Cabi.Structs.{property_size, read_property, live_view_info_size}
use cr_sdkpy.Native.Keeps.{DeviceKeeps}
use cr_sdkpy.Session.Keeps.{Keeps, bind_keeps, either_keeps}
use cr_sdkpy.Host.Wire.{Response, Arguments, no_arguments}
use cr_sdkpy.Host.Transport.{Platform, Host, call, call_ex}
use cr_sdkpy.Host.Access.{
  handle_of, on_program_error, with_string, with_values, describe, describe_all, list_properties,
  first_property, get_property, value_arguments, set_property, send_command, live_view_info, device,
}
use cr_sdkpy.Host.Sessions.{on_callback_timeout, retry_loop}
use cr_sdkpy.Host.Tables.{IsCoherent, call-IsCoherent, call_ex-IsCoherent, wire_keeps}

module _ (P : Platform) where
  on_program_error_keeps :
      {A : Type 0} (a : A) (x : Result Error A × Host P)
      → IsCoherent P x.1
      → IsCoherent P (on_program_error a x).1
  on_program_error_keeps a (ok b, s) c = c
  on_program_error_keeps a (err e, s) c = c

  pub on_callback_timeout_keeps :
      {A : Type 0} (other : Action (Host P) A) (x : Result Error A × Host P)
      → Keeps (IsCoherent P) other
      → IsCoherent P x.1
      → IsCoherent P (on_callback_timeout other x).1
  on_callback_timeout_keeps other (ok a, s) h c = c
  on_callback_timeout_keeps other (err (camera_connection true), s) h c = h s c
  on_callback_timeout_keeps other (err e, s) h c = c

  pub retry_loop-Keeps :
      {A : Type 0} (left : ℕ) (m : Action (Host P) A)
      → Keeps (IsCoherent P) m
      → Keeps (IsCoherent P) (retry_loop left m)
  unfolding retry_loop
  retry_loop-Keeps zero m h s c = h s c
  retry_loop-Keeps (suc left) m h s c =
      on_callback_timeout_keeps (retry_loop left m) (m s) (retry_loop-Keeps left m h) (h s c)

  handle_of-Keeps : (fuel id : ℕ) → Keeps (IsCoherent P) (handle_of P fuel id)
  unfolding handle_of
  handle_of-Keeps fuel id s c = by_table (lookup id s.handles)
    where
      by_table :
          (found : Option ℕ)
          → IsCoherent P
              (elim found as (λ _. Result Error ℕ × Host P) [
                | none ↦ (err cr_sdkpy.Events.session_closed, s)
                | some handle ↦ (ok handle, s)
              ]).1
      by_table none = c
      by_table (some handle) = c

  -- A request on the handle of a session.
  pub with_handle_keeps :
      {A : Type 0} (fuel id : ℕ) (f : ℕ → Action (Host P) A) (s : Host P)
      → IsCoherent P s
      → ((handle : ℕ) → Keeps (IsCoherent P) (f handle))
      → IsCoherent P (bind f (handle_of P fuel id s)).1
  with_handle_keeps fuel id f s c h =
      bind_keeps (IsCoherent P) f (handle_of P fuel id s) h (handle_of-Keeps fuel id s c)

  -- What follows a call.
  pub after_call_keeps :
      {A : Type 0} (fuel op : ℕ) (arguments : Arguments) (f : Response × List ℕ → Action (Host P) A)
      (s : Host P)
      → IsCoherent P s
      → ((reply : Response × List ℕ) → Keeps (IsCoherent P) (f reply))
      → IsCoherent P (bind f (call P fuel op arguments s)).1
  after_call_keeps fuel op arguments f s c h =
      bind_keeps (IsCoherent P) f (call P fuel op arguments s) h
        (call-IsCoherent P fuel op arguments s c)

  with_string-Keeps : (fuel id : ℕ) (p : Property) → Keeps (IsCoherent P) (with_string P fuel id p)
  unfolding with_string
  with_string-Keeps fuel id p s c =
      either_keeps (IsCoherent P) _ _ _
        (on_program_error_keeps p _ (
          with_handle_keeps fuel id _ s c (λ handle s1 c1.
            after_call_keeps fuel 21 (record no_arguments { handle = handle; u32 = p.code }) _ s1 c1
              (λ reply s2 c2. c2))))
        c

  with_values-Keeps : (fuel id : ℕ) (p : Property) → Keeps (IsCoherent P) (with_values P fuel id p)
  unfolding with_values
  with_values-Keeps fuel id p s c = either_keeps (IsCoherent P) _ _ _ c (
      on_program_error_keeps p _ (
        with_handle_keeps fuel id _ s c (λ handle s1 c1.
          after_call_keeps fuel 22 (record no_arguments { handle = handle; u32 = p.code }) _ s1 c1
            (λ reply s2 c2. c2))))

  describe-Keeps : (fuel id : ℕ) (p : Property) → Keeps (IsCoherent P) (describe P fuel id p)
  unfolding describe
  describe-Keeps fuel id p s c =
      bind_keeps (IsCoherent P) _ (with_string P fuel id p s) (with_values-Keeps fuel id)
        (with_string-Keeps fuel id p s c)

  describe_all-Keeps :
      (fuel id : ℕ) (ps : List Property) → Keeps (IsCoherent P) (describe_all P fuel id ps)
  unfolding describe_all
  describe_all-Keeps fuel id [] s c = c
  describe_all-Keeps fuel id (p ∷ ps) s c =
      bind_keeps (IsCoherent P) _ (describe P fuel id p s)
        (λ q s1 c1.
          bind_keeps (IsCoherent P) _ (describe_all P fuel id ps s1) (λ qs s2 c2. c2)
            (describe_all-Keeps fuel id ps s1 c1))
        (describe-Keeps fuel id p s c)

  pub list_properties-Keeps : (fuel id : ℕ) → Keeps (IsCoherent P) (list_properties P fuel id)
  unfolding list_properties
  list_properties-Keeps fuel id s c = with_handle_keeps fuel id _ s c (λ handle s1 c1.
      after_call_keeps fuel 10 (record no_arguments { handle = handle }) _ s1 c1
        (λ reply s2 c2.
          wire_keeps P (unpack_array property_size reply.1 reply.0.count) _ s2 c2 (λ items.
            describe_all-Keeps fuel id (map (λ item. decode_property (read_property item)) items) s2
              c2)))

  first_property-Keeps :
      (fuel id code : ℕ) (items : List (List ℕ))
      → Keeps (IsCoherent P) (first_property P fuel id code items)
  first_property-Keeps fuel id code [] s c = c
  first_property-Keeps fuel id code (item ∷ items) s c = describe-Keeps fuel id _ s c

  pub get_property-Keeps : (fuel id code : ℕ) → Keeps (IsCoherent P) (get_property P fuel id code)
  unfolding get_property
  get_property-Keeps fuel id code s c = with_handle_keeps fuel id _ s c (λ handle s1 c1.
      after_call_keeps fuel 11 (record no_arguments { handle = handle; u32 = code }) _ s1 c1
        (λ reply s2 c2.
          wire_keeps P (unpack_array property_size reply.1 reply.0.count) _ s2 c2
            (λ items. first_property-Keeps fuel id code items s2 c2)))

  pub set_property-Keeps :
      (fuel id code : ℕ) (value : ℤ) → Keeps (IsCoherent P) (set_property P fuel id code value)
  unfolding set_property
  set_property-Keeps fuel id code value s c = with_handle_keeps fuel id _ s c (λ handle s1 c1.
      after_call_keeps fuel 12 (value_arguments handle code value) _ s1 c1 (λ reply s2 c2. c2))

  pub send_command-Keeps :
      (fuel id : ℕ) (command : Command) (parameter : CommandParameter)
      → Keeps (IsCoherent P) (send_command P fuel id command parameter)
  unfolding send_command
  send_command-Keeps fuel id command parameter s c =
      with_handle_keeps fuel id _ s c (λ handle s1 c1.
        after_call_keeps fuel 13
          (record no_arguments {
            handle = handle;
            u32 = command_to_abi command;
            i32 = pos (parameter_to_abi parameter);
          })
          _ s1 c1 (λ reply s2 c2. c2))

  pub live_view_info-Keeps : (fuel id : ℕ) → Keeps (IsCoherent P) (live_view_info P fuel id)
  unfolding live_view_info
  live_view_info-Keeps fuel id s c = with_handle_keeps fuel id _ s c (λ handle s1 c1.
      bind_keeps (IsCoherent P) _ (call_ex P fuel 18 (record no_arguments { handle = handle }) s1)
        (λ reply s2 c2. wire_keeps P (from_bytes live_view_info_size reply.2) _ s2 c2 (λ bytes. c2))
        (call_ex-IsCoherent P fuel 18 (record no_arguments { handle = handle }) s1 c1))

  -- What the mixins do to the backend keeps its tables coherent.
  pub hosted-DeviceKeeps :
      (fuel id : ℕ) → unfold device in DeviceKeeps (device P fuel id) (IsCoherent P)
  unfolding IsCoherent device
  hosted-DeviceKeeps fuel id = record {
    gets = get_property-Keeps fuel id;
    sets = set_property-Keeps fuel id;
    sends = send_command-Keeps fuel id;
    sleeps = λ duration s c. c;
    looks = live_view_info-Keeps fuel id;
    remembers = λ m s c. c;
  }
