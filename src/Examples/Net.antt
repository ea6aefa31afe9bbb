-- ===== src/Examples/Net.antt =====
-- src/net.cpp at concrete inputs.
use bg3le.Common.{ℕ, ◌≡◌, ◌≢◌, refl, true, some, List, [], ◌∷◌, length, ok, stuck, arith}
use bg3le.Wire.Write.{varint_loop, varint, key, uint_field, bytes_field}
use bg3le.Net.Guid.{format_guid, parse_guid}
use bg3le.Net.Message.{no_message, str_field, encode_var, encode_body, encode}
use bg3le.Net.Decode.{decode, decode_var}
use bg3le.Net.Guid.RoundTrip.{parse_guid-format_guid}
use bg3le.Net.RoundTrip.Vars.{VarValue, UserVar, var_of, decode_var-encode_var}
use bg3le.Net.RoundTrip.Messages.{Message, wrapper_of, body_bytes, decode-encode}
use native.Mathlib.Decide.{dec_lt}
use bg3le.Net.Total.{decode-ne-stuck}

abbrev health : UserVar
health = record {
  of_module = true;
  lo = 0x123456789abcdef0;
  hi = 7;
  name = b'h' ∷ b'p' ∷ [];
  value = VarValue.int 300;
}

abbrev lua_post : Message
lua_post = Message.post_lua (b'c' ∷ []) (1 ∷ 2 ∷ 3 ∷ []) [] 70000 0 true

abbrev some_bytes : List ℕ
some_bytes = 0x0a ∷ 0x02 ∷ 0x08 ∷ []

parse_guid-format_guid_example :
    parse_guid (format_guid 0x123456789abcdef0 7) ≡ some (0x123456789abcdef0, 7)
parse_guid-format_guid_example =
    parse_guid-format_guid 0x123456789abcdef0 7 (omega arith) (omega arith)

decode_var-encode_var_example : decode_var (encode_var [] (var_of health)) ≡ ok (var_of health)
decode_var-encode_var_example =
    decode_var-encode_var health (omega arith, omega arith, omega arith, omega arith)

length-lua_post : length (body_bytes lua_post) ≡ 14
unfolding encode_body str_field uint_field bytes_field varint varint_loop key dec_lt
length-lua_post = refl

decode-encode_example : decode (encode (wrapper_of lua_post)) no_message ≡ ok (wrapper_of lua_post)
decode-encode_example =
    decode-encode lua_post (omega arith, omega arith, omega arith, omega arith, omega arith)
      (omega (arith, length-lua_post))

decode-ne-stuck_example :
    (decode some_bytes no_message ≢ stuck) × ((q : List ℕ) → decode_var q ≢ stuck)
decode-ne-stuck_example = decode-ne-stuck some_bytes no_message
