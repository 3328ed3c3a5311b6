-- ===== src/Strings/Tests.antt =====
-- The theorems on strings, frames and numbers at small inputs.
use security_addon.Base.{◌-◌, ◌≡◌, inl, none, some, [], ◌∷◌, ◌++◌, arith, Bytes, length}
use security_addon.Base.{codes}
use security_addon.Status.{ok, err, invalid_parameter}
use security_addon.Memory.{zeros, c_string}
use security_addon.Strings.{get_string_length, append_payload_len_to_blob}
use security_addon.Strings.Length.{get_string_length-exact}
use security_addon.Strings.Frame.{frame, append_payload_len-frame, append_payload_len-loses}

abbrev text : Bytes
text = codes "hello" ++ 0 ∷ []

-- Chunks of two bytes.
get_string_length-exact_example :
    (get_string_length 2 (some text) ≡ ok (length (c_string text)))
    × (get_string_length 2 none ≡ err invalid_parameter)
get_string_length-exact_example = get_string_length-exact 2 (omega arith) text (omega arith)

append_payload_len-frame_example :
    append_payload_len_to_blob 4096 (some text) (zeros 14)
    ≡ ok (frame (c_string text) ++ zeros (14 - 8 - length (c_string text)))
append_payload_len-frame_example =
    append_payload_len-frame 4096 (omega arith) text 14 (omega arith) (omega arith) (omega arith)
      (inl (omega arith))

-- With a RSIZE_MAX_STR of 10, five bytes and their prefix do not fit.
append_payload_len-loses_example :
    (mem : Bytes) × (append_payload_len_to_blob 10 (some text) (zeros 14) ≡ ok mem)
    × (c_string mem ≡ [])
append_payload_len-loses_example =
    append_payload_len-loses 10 (omega arith) text 14 (omega arith) (omega arith) (omega arith)
      (omega arith) (omega arith)
