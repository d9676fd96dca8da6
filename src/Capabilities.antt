-- ===== src/Capabilities.antt =====
-- src/crsdkpy/capabilities.py: what a camera and an open session can do, with look-up by name.
pub mod Missing
pub mod Tests
use Prim.Native.String.{String}
use cr_sdkpy.Base.{
  Bool, true, false, not, none, some, List, [], ◌∷◌, ◌++◌, map, contains, select, string_identity,
}
use cr_sdkpy.Base.Dict.{Dict, lookup, has_key}
use cr_sdkpy.Enums.{SessionMode, StillDestination, mode_identity, destination_identity}

pub record CameraCapabilities : Type 0 where
  pub still_capture : Bool
  pub autofocus_s1 : Bool
  pub video : Bool
  pub modes : List SessionMode
  pub destinations : List StillDestination
  pub live_view_any_mode : Bool
  pub content_index_any_mode : Bool
  pub extra : Dict String Bool

-- `CameraCapabilities.supports_mode`
unfoldable pub supports_mode : CameraCapabilities → SessionMode → Bool
supports_mode c mode = contains mode c.modes

-- `CameraCapabilities.supports_destination`
unfoldable pub supports_destination : CameraCapabilities → StillDestination → Bool
supports_destination c destination = contains destination c.destinations

pub record SessionCapabilities : Type 0 where
  pub mode : SessionMode
  pub destination : StillDestination
  pub still_capture : Bool
  pub autofocus_s1 : Bool
  pub video : Bool
  pub live_view : Bool
  pub content_index : Bool
  pub thumbnail : Bool
  pub screennail : Bool
  pub postview_configuration : Bool
  pub postview_delivery : Bool
  pub raw_commands : Bool
  pub extra : Dict String Bool

-- `getattr(self, name)`, where that is a `bool`; in the order of `vars(self)`.
abbrev pub fields : SessionCapabilities → Dict String Bool
fields c =
    ("still_capture", c.still_capture)
    ∷ ("autofocus_s1", c.autofocus_s1)
    ∷ ("video", c.video)
    ∷ ("live_view", c.live_view)
    ∷ ("content_index", c.content_index)
    ∷ ("thumbnail", c.thumbnail)
    ∷ ("screennail", c.screennail)
    ∷ ("postview_configuration", c.postview_configuration)
    ∷ ("postview_delivery", c.postview_delivery)
    ∷ ("raw_commands", c.raw_commands)
    ∷ []

-- `SessionCapabilities.get`: an extra capability comes before a field of that name.
unfoldable pub get : SessionCapabilities → String → Bool → Bool
get c name default = elim (lookup name c.extra) [
  | some value ↦ value
  | none ↦ elim (lookup name (fields c)) [ some value ↦ value | none ↦ default ]
]

-- `SessionCapabilities.__contains__`
unfoldable pub names_capability : SessionCapabilities → String → Bool
names_capability c name = elim (has_key name c.extra) [
  | true ↦ true
  | false ↦ has_key name (fields c)
]

-- `SessionCapabilities.names`
unfoldable pub names : SessionCapabilities → List String
names c = map (λ entry. entry.0) (fields c ++ c.extra)

-- `SessionCapabilities.missing`
unfoldable pub missing : SessionCapabilities → List String
unfolding names get
missing c = select (λ name. not (get c name false)) (names c)

-- `CameraCapabilities.get`
abbrev camera_fields : CameraCapabilities → Dict String Bool
camera_fields c =
    ("still_capture", c.still_capture)
    ∷ ("autofocus_s1", c.autofocus_s1)
    ∷ ("video", c.video)
    ∷ ("live_view_any_mode", c.live_view_any_mode)
    ∷ ("content_index_any_mode", c.content_index_any_mode)
    ∷ []

pub get_camera : CameraCapabilities → String → Bool → Bool
get_camera c name default = elim (lookup name c.extra) [
  | some value ↦ value
  | none ↦ elim (lookup name (camera_fields c)) [ some value ↦ value | none ↦ default ]
]
