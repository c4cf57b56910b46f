-- ===== src/Value/Tests.antt =====
-- Runs of the values, and their theorems at concrete inputs.
use libkvs.Prelude.{◌≡◌, ◌≢◌, ◌↔◌, refl, bytes, arith, [], ◌∷◌}
use libkvs.Prelude.Int.{negsuc}
use libkvs.Value.{
  Value, int32, k_int32, k_string, get_value, of_content, got, type_mismatch, type_of,
}
use libkvs.Value.Bits.{to_bytes, pattern_of}
use libkvs.Value.RoundTrip.{get_value-of_content, get_value_mismatch}

-- The number -2 in two's complement.
minus_two :
    of_content (int32 (negsuc 1))
    ≡ record { raw_value = 254 ∷ 255 ∷ 255 ∷ 255 ∷ []; type = k_int32 }
unfolding of_content to_bytes pattern_of
minus_two = refl

get_value-of_content_example :
    get_value (type_of (int32 (negsuc 1))) (of_content (int32 (negsuc 1))) ≡ got (int32 (negsuc 1))
get_value-of_content_example = get_value-of_content (int32 (negsuc 1)) (omega arith)

abbrev text_value : Value
text_value = record { raw_value = bytes "abcd"; type = k_string }

get_value_mismatch_example :
    (get_value k_int32 text_value ≡ type_mismatch k_int32 k_string) ↔ (k_int32 ≢ k_string)
get_value_mismatch_example = get_value_mismatch k_int32 text_value tt tt
