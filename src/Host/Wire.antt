-- ===== src/Host/Wire.antt =====
-- src/crsdkpy/backend/_ipc.py and host.py: the payloads that the host backend sends and receives,
-- as bytes, and the exceptions that a failed response stands for. Texts are ASCII.
use cr_sdkpy.Base.{
  ℕ, ◌-◌, true, false, none, some, List, [], ◌∷◌, ◌++◌, length, take, replicate, nat_identity,
}
use cr_sdkpy.Base.Bytes.{le_bytes}
use cr_sdkpy.Base.Dict.{Dict, lookup}
use cr_sdkpy.Base.Int.{ℤ, pos, negsuc, word32, signed32}
use cr_sdkpy.Events.{
  Text, Error, session_closed, native_backend_error, unsupported, sdk_not_found, camera_connection,
  operation_timeout, property_not_supported, camera_busy, backend_error,
}
use cr_sdkpy.Cabi.Structs.{unsigned_at, int32_at, text_at}

-- The message types: hello, its acknowledgement, request, response, event and bye.
abbrev pub msg_hello : ℕ
msg_hello = 1

abbrev pub msg_hello_ack : ℕ
msg_hello_ack = 2

abbrev pub msg_request : ℕ
msg_request = 3

abbrev pub msg_response : ℕ
msg_response = 4

abbrev pub msg_event : ℕ
msg_event = 5

abbrev pub msg_bye : ℕ
msg_bye = 6

-- `HelloStruct`
unfoldable pub hello_bytes : ℕ → ℕ → List ℕ
hello_bytes version_major version_minor =
    le_bytes 2 version_major ++ (le_bytes 2 version_minor ++ le_bytes 4 0)

-- `HelloAckStruct`; the texts are for the reader.
pub record HelloAckStruct : Type 0 where
  pub protocol_major : ℕ
  pub protocol_minor : ℕ
  pub abi_major : ℕ
  pub abi_minor : ℕ
  pub host_version : ℕ
  pub sdk_available : ℤ

abbrev pub hello_ack_size : ℕ
hello_ack_size = 272

unfoldable pub read_hello_ack : List ℕ → HelloAckStruct
read_hello_ack bytes = record {
  protocol_major = unsigned_at bytes 0 2;
  protocol_minor = unsigned_at bytes 2 2;
  abi_major = unsigned_at bytes 4 2;
  abi_minor = unsigned_at bytes 6 2;
  host_version = unsigned_at bytes 8 4;
  sdk_available = int32_at bytes 12;
}

-- `_as_int32`
unfoldable pub as_int32 : ℤ → ℤ
as_int32 value = signed32 (word32 value)

-- The keyword arguments of `_call` and `_call_ex`, with their defaults.
pub record Arguments : Type 0 where
  pub handle : ℕ
  pub u32 : ℕ
  pub i32 : ℤ
  pub i32_2 : ℤ
  pub text : Text
  pub extra : List ℕ

abbrev pub no_arguments : Arguments
no_arguments = record { handle = 0; u32 = 0; i32 = pos 0; i32_2 = pos 0; text = []; extra = [] }

-- A text in an array of characters, filled up with zeros.
abbrev pub text_bytes : ℕ → Text → List ℕ
text_bytes width text = text ++ replicate (width - length text) 0

-- `RequestStruct` as `_call_ex` fills it.
unfoldable pub request_bytes : ℕ → Arguments → List ℕ
unfolding as_int32
request_bytes op a =
    le_bytes 2 op
    ++ (le_bytes 2 0
        ++ (le_bytes 4 a.u32
            ++ (le_bytes 4 (word32 (as_int32 a.i32))
                ++ (le_bytes 4 (word32 (as_int32 a.i32_2))
                    ++ (le_bytes 8 a.handle ++ text_bytes 208 (take 207 a.text))))))

-- `ContentArgsStruct`
unfoldable pub content_args_bytes : ℕ → ℕ → ℕ → ℕ → ℕ → ℕ → List ℕ
content_args_bytes slot content_id file_id after_content_id kind timeout_ms =
    le_bytes 4 slot
    ++ (le_bytes 4 content_id
        ++ (le_bytes 4 file_id
            ++ (le_bytes 4 after_content_id
                ++ (le_bytes 4 kind ++ (le_bytes 4 timeout_ms ++ (le_bytes 4 0 ++ le_bytes 4 0))))))

-- `ResponseStruct`
pub record Response : Type 0 where
  pub status : ℤ
  pub category : ℤ
  pub count : ℕ
  pub handle : ℕ
  pub i32_result : ℤ
  pub message : Text

abbrev pub response_size : ℕ
response_size = 544

unfoldable pub read_response : List ℕ → Response
read_response bytes = record {
  status = int32_at bytes 0;
  category = int32_at bytes 4;
  count = unsigned_at bytes 8 4;
  handle = unsigned_at bytes 16 8;
  i32_result = int32_at bytes 24;
  message = text_at bytes 32 512;
}

-- The categories `CAT_INVALID_ARG` (2) to `CAT_CONNECT_TIMEOUT` (12) with their exceptions; an
-- error without a code or a capability is written with 0 and with the empty text.
abbrev pub categories : Dict ℕ Error
categories =
    (3, session_closed)
    ∷ (4, native_backend_error)
    ∷ (5, unsupported "")
    ∷ (6, sdk_not_found)
    ∷ (7, camera_connection false)
    ∷ (8, camera_connection false)
    ∷ (12, camera_connection true)
    ∷ (9, operation_timeout)
    ∷ (10, property_not_supported 0)
    ∷ (11, camera_busy)
    ∷ (2, backend_error)
    ∷ []

abbrev pub category_error : ℤ → Error
category_error (negsuc n) = camera_connection false
category_error (pos n) = elim (lookup n categories) [ some e ↦ e | none ↦ camera_connection false ]

-- `_to_exception`
unfoldable pub to_exception : Response → Error
to_exception response = category_error response.category
