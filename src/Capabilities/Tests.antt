-- ===== src/Capabilities/Tests.antt =====
-- Concrete runs of src/crsdkpy/capabilities.py.
use cr_sdkpy.Base.{true, false, [], ◌∷◌, ◌≡◌, ◌↔◌, refl, contains, string_identity}
use cr_sdkpy.Enums.{SessionMode, StillDestination}
use cr_sdkpy.Capabilities.{SessionCapabilities, get, names_capability, missing}
use cr_sdkpy.Capabilities.Missing.{missing_iff}

-- A session without live view; an extra capability that is absent too.
abbrev stills_only : SessionCapabilities
stills_only = record {
  mode = SessionMode.remote;
  destination = StillDestination.host;
  still_capture = true;
  autofocus_s1 = true;
  video = true;
  live_view = false;
  content_index = true;
  thumbnail = true;
  screennail = true;
  postview_configuration = true;
  postview_delivery = true;
  raw_commands = true;
  extra = ("tethering", false) ∷ [];
}

missing_names : missing stills_only ≡ "live_view" ∷ "tethering" ∷ []
unfolding missing
missing_names = refl

missing_iff_example : (contains "tethering" (missing stills_only) ≡ true) ↔ (
    (names_capability stills_only "tethering" ≡ true) × (get stills_only "tethering" false ≡ false))
missing_iff_example = missing_iff stills_only "tethering"
