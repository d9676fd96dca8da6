-- ===== src/Host/Requests.antt =====
-- src/crsdkpy/backend/host.py: what the host process finds in the requests that it is sent, and
-- the numbers of the requests.
use cr_sdkpy.Base.{ℕ, ◌+◌, ◌-◌, ◌*◌, ◌^◌, ◌<◌, ◌≡◌, ◌≢◌, refl, ap, ◌∙◌, List, arith}
use cr_sdkpy.Base.Bytes.{le_bytes, from_le, from_le-le_bytes}
use cr_sdkpy.Base.Int.{ℤ, pos, negsuc, ◌≤ℤ◌, word32, high32, signed64, signed64-halves}
use cr_sdkpy.Cabi.Structs.{unsigned_at}
use cr_sdkpy.Host.Wire.{as_int32, request_bytes}
use cr_sdkpy.Host.Transport.{next_id}
use cr_sdkpy.Host.Access.{value_arguments}

word32-lt : (v : ℤ) → word32 v < 2 ^ 32
word32-lt (pos n) = omega arith
word32-lt (negsuc n) = omega arith

high32-lt : (v : ℤ) → high32 v < 2 ^ 32
high32-lt (pos n) = omega arith
high32-lt (negsuc n) = omega arith

-- A word that is passed as a signed argument arrives as it is.
word32-as_int32 : (n : ℕ) → n < 2 ^ 32 → word32 (as_int32 (pos n)) ≡ n
unfolding as_int32
word32-as_int32 n h = ground arith

sent_word : (n : ℕ) → n < 2 ^ 32 → from_le (le_bytes 4 (word32 (as_int32 (pos n)))) ≡ n
sent_word n h =
    from_le-le_bytes 4 (word32 (as_int32 (pos n))) (word32-lt (as_int32 (pos n)))
    ∙ word32-as_int32 n h

two_words :
    (high low high' low' : ℕ)
    → high' ≡ high
    → low' ≡ low
    → signed64 (2 ^ 32 * high' + low') ≡ signed64 (2 ^ 32 * high + low)
two_words high low high' low' h l = ap signed64 (omega (arith, h, l))

-- What the host process reads of a request to set a property: the handle at 16, the code at 4, and
-- the value in two words at 8 and 12.
pub record CarriesValue (bytes : List ℕ) (handle code : ℕ) (value : ℤ) : Type 0 where
  of_op : unsigned_at bytes 0 2 ≡ 12
  of_handle : unsigned_at bytes 16 8 ≡ handle
  of_code : unsigned_at bytes 4 4 ≡ code
  of_value : signed64 (2 ^ 32 * unsigned_at bytes 12 4 + unsigned_at bytes 8 4) ≡ value

-- The request that set_property sends carries the handle, the code and the value, negative or
-- not, for every handle of 64 bits, every code of 32 bits and every value of 64 bits.
pub value_arguments-CarriesValue :
    (handle code : ℕ) (value : ℤ)
    → handle < 2 ^ 64
    → code < 2 ^ 32
    → negsuc (2 ^ 63 - 1) ≤ℤ value
    → value ≤ℤ pos (2 ^ 63 - 1)
    → CarriesValue (request_bytes 12 (value_arguments handle code value)) handle code value
unfolding request_bytes value_arguments
value_arguments-CarriesValue handle code value hh hc lo hi = record {
  of_op = refl;
  of_handle = from_le-le_bytes 8 handle hh;
  of_code = from_le-le_bytes 4 code hc;
  of_value =
      two_words (high32 value) (word32 value) _ _ (sent_word (high32 value) (high32-lt value))
        (sent_word (word32 value) (word32-lt value))
      ∙ signed64-halves value lo hi;
}

-- The id that is sent is never 0 and fits its field, and so does the counter; where the counter
-- has not just come round to 0, the next request has another id.
pub next_id_bounds :
    (counter : ℕ)
    → (0 < (next_id counter).1)
      × ((next_id counter).1 < 2 ^ 32)
      × ((next_id counter).0 < 2 ^ 32)
      × ((next_id counter).0 ≢ 0 → (next_id (next_id counter).0).1 ≢ (next_id counter).1)
unfolding next_id
next_id_bounds counter = (ground arith, ground arith, ground arith, λ h. ground (arith, h))
