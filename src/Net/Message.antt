-- ===== src/Net/Message.antt =====
-- src/net.cpp and src/net.h: the messages (`Wrapper`, `NetUserVar`) and their encoders.
--
-- A string is a list of bytes. `i` is the 64 bits of an `std::int64_t`, which the encoder casts to
-- `std::uint64_t`; `d` is the 8 bytes of a double, which the code copies without reading them.
use bg3le.Common.{ℕ, Bool, true, false, Option, none, some, List, [], ◌∷◌, ◌++◌}
use bg3le.Wire.Write.{varint, key, uint_field, bytes_field}
use bg3le.Net.Guid.{parse_guid}

pub data VarKind : Type 0 where
  null bool int double string json binary : VarKind

pub record NetUserVar : Type 0 where
  pub module_var : Bool
  pub guid : List ℕ
  pub key : List ℕ
  pub kind : VarKind
  pub b : Bool
  pub i : ℕ
  pub d : List ℕ
  pub s : List ℕ

-- `NetUserVar{}`; a double of 0 is eight zero bytes.
abbrev pub no_var : NetUserVar
no_var = record {
  module_var = false;
  guid = [];
  key = [];
  kind = VarKind.null;
  b = false;
  i = 0;
  d = 0 ∷ 0 ∷ 0 ∷ 0 ∷ 0 ∷ 0 ∷ 0 ∷ 0 ∷ [];
  s = [];
}

-- `unsigned kind` is 0 or a `WrapperField`.
pub data WrapperKind : Type 0 where
  unset post_lua reset_lua hello kick user_vars : WrapperKind

abbrev pub field_of : WrapperKind → ℕ
field_of unset = 0
field_of post_lua = 1
field_of reset_lua = 2
field_of hello = 5
field_of kick = 7
field_of user_vars = 8

pub record Wrapper : Type 0 where
  pub kind : WrapperKind
  pub channel : List ℕ
  pub payload : List ℕ
  pub module_name : List ℕ
  pub request_id : ℕ
  pub reply_id : ℕ
  pub binary : Bool
  pub bootstrap : Bool
  pub version : ℕ
  pub kick_text : List ℕ
  pub vars : List NetUserVar

abbrev pub no_message : Wrapper
no_message = record {
  kind = WrapperKind.unset;
  channel = [];
  payload = [];
  module_name = [];
  request_id = 0;
  reply_id = 0;
  binary = false;
  bootstrap = false;
  version = 0;
  kick_text = [];
  vars = [];
}

unfoldable pub str_field : List ℕ → ℕ → List ℕ → List ℕ
str_field out field [] = out
str_field out field (c ∷ v) = bytes_field out field (c ∷ v)

abbrev pub flag : Bool → ℕ
flag true = 1
flag false = 0

-- The halves of a GUID that does not parse stay 0.
abbrev pub halves : Option (ℕ × ℕ) → ℕ × ℕ
halves none = (0, 0)
halves (some p) = p

-- The member of the oneof, which is written even when it holds its default.
unfoldable pub encode_value : List ℕ → VarKind → NetUserVar → List ℕ
encode_value out int v = varint (key out 4 0) v.i
encode_value out double v = key out 5 1 ++ v.d
encode_value out string v = bytes_field out 6 v.s
encode_value out json v = bytes_field out 7 v.s
encode_value out bool v = varint (key out 9 0) (flag v.b)
encode_value out binary v = bytes_field out 10 v.s
encode_value out null v = out

unfoldable pub encode_var : List ℕ → NetUserVar → List ℕ
unfolding encode_value str_field
encode_var out v =
    let (lo, hi) = halves (parse_guid v.guid) in
    uint_field (encode_value (str_field (uint_field (uint_field out 1 lo) 2 hi) 3 v.key) v.kind v) 8
      (flag v.module_var)

unfoldable pub encode_vars : List ℕ → List NetUserVar → List ℕ
unfolding encode_var
encode_vars body [] = body
encode_vars body (v ∷ vs) = encode_vars (bytes_field body 1 (encode_var [] v)) vs

unfoldable pub encode_body : WrapperKind → Wrapper → List ℕ
unfolding encode_vars
encode_body post_lua w =
    uint_field
      (uint_field
        (uint_field (str_field (str_field (str_field [] 1 w.channel) 2 w.payload) 3 w.module_name) 4
          w.request_id)
        5 w.reply_id)
      6 (flag w.binary)
encode_body reset_lua w = uint_field [] 1 (flag w.bootstrap)
encode_body hello w = uint_field [] 1 w.version
encode_body kick w = str_field [] 1 w.kick_text
encode_body user_vars w = encode_vars [] w.vars
encode_body unset w = []

unfoldable pub encode : Wrapper → List ℕ
unfolding encode_body
encode w = bytes_field [] (field_of w.kind) (encode_body w.kind w)
