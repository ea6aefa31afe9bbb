-- ===== src/Net/RoundTrip/Vars.antt =====
-- src/net.cpp: `decode_var` returns the variable that `encode_var` was given.
use bg3le.Common.{
  ℕ, suc, ◌+◌, ◌*◌, ◌≡◌, refl, sym, ap, ◌∙◌, arith, Bool, true, false, none, List, [], ◌++◌,
  append_assoc, append-nil, length, length-append, ok,
}
use bg3le.Wire.Write.{IsU64, key, varint, uint_field, bytes_field}
use bg3le.Wire.Read.{next}
use bg3le.Wire.RoundTrip.{IsKey, groups, key-groups, next-groups, read_fixed-append}
use bg3le.Net.Guid.{format_guid}
use bg3le.Net.Guid.RoundTrip.{parse_guid-format_guid}
use bg3le.Net.Message.{VarKind, NetUserVar, no_var, str_field, flag, encode_value, encode_var}
use bg3le.Net.Decode.{VarState, var_field, decode_var}
use bg3le.Net.RoundTrip.Walks.{
  Walks, done, more, walk-Walks, uint_field-append, bytes_field-append, str_field-append,
  varint_key-append, Walks-varint, Walks-bytes, Walks-uint, Walks-str,
}

-- The value of a variable: what its kind says that it holds.
pub data VarValue : Type 0 where
  null : VarValue
  bool : Bool → VarValue
  int : ℕ → VarValue
  double : List ℕ → VarValue
  string json binary : List ℕ → VarValue

pub record UserVar : Type 0 where
  pub of_module : Bool
  pub lo : ℕ
  pub hi : ℕ
  pub name : List ℕ
  pub value : VarValue

-- The fields that hold a value; those that its kind does not name keep their defaults.
abbrev kind_of_value : VarValue → VarKind
kind_of_value null = VarKind.null
kind_of_value (bool x) = VarKind.bool
kind_of_value (int n) = VarKind.int
kind_of_value (double raw) = VarKind.double
kind_of_value (string t) = VarKind.string
kind_of_value (json t) = VarKind.json
kind_of_value (binary t) = VarKind.binary

abbrev bool_of_value : VarValue → Bool
bool_of_value (bool x) = x
bool_of_value _ = false

abbrev int_of_value : VarValue → ℕ
int_of_value (int n) = n
int_of_value _ = 0

abbrev double_of_value : VarValue → List ℕ
double_of_value (double raw) = raw
double_of_value _ = no_var.d

abbrev text_of_value : VarValue → List ℕ
text_of_value (string t) = t
text_of_value (json t) = t
text_of_value (binary t) = t
text_of_value _ = []

abbrev put_value : VarValue → NetUserVar → NetUserVar
put_value x v = record v {
  kind = kind_of_value x;
  b = bool_of_value x;
  i = int_of_value x;
  d = double_of_value x;
  s = text_of_value x;
}

-- The code's structure for it: every other field has its default.
abbrev pub var_of : UserVar → NetUserVar
var_of u =
    put_value u.value
      (record no_var { module_var = u.of_module; guid = format_guid u.lo u.hi; key = u.name })

abbrev ValueFits : VarValue → Type 0
ValueFits null = Unit {0}
ValueFits (bool x) = Unit {0}
ValueFits (int n) = IsU64 n
ValueFits (double raw) = length raw ≡ 8
ValueFits (string t) = IsU64 (length t)
ValueFits (json t) = IsU64 (length t)
ValueFits (binary t) = IsU64 (length t)

-- The numbers fit in 64 bits, a double has eight bytes, and the lengths are sizes of a 64-bit
-- machine.
abbrev pub VarFits : UserVar → Type 0
VarFits u = IsU64 u.lo × IsU64 u.hi × IsU64 (length u.name) × ValueFits u.value

pub flag-IsU64 : (x : Bool) → IsU64 (flag x)
flag-IsU64 true = omega arith
flag-IsU64 false = omega arith

-- The bytes of the value's field.
abbrev value_bytes : VarValue → NetUserVar → List ℕ
value_bytes null v = []
value_bytes (bool x) v = varint (key [] 9 0) (flag x)
value_bytes (int n) v = varint (key [] 4 0) n
value_bytes (double raw) v = key [] 5 1 ++ raw
value_bytes (string t) v = bytes_field [] 6 t
value_bytes (json t) v = bytes_field [] 7 t
value_bytes (binary t) v = bytes_field [] 10 t

varint_key-split :
    (out : List ℕ) (field v : ℕ)
    → IsKey field 0
    → IsU64 v
    → varint (key out field 0) v ≡ out ++ varint (key [] field 0) v
varint_key-split out field v k h =
    varint_key-append out field v k h ∙ ap (λ t. out ++ t) (sym (varint_key-append [] field v k h))

encode_value-append :
    (out : List ℕ) (x : VarValue) (v : NetUserVar)
    → ValueFits x
    → encode_value out (put_value x v).kind (put_value x v) ≡ out ++ value_bytes x v
unfolding encode_value
encode_value-append out null v h = sym (append-nil out)
encode_value-append out (bool x) v h = varint_key-split out 9 (flag x) (omega arith) (flag-IsU64 x)
encode_value-append out (int n) v h = varint_key-split out 4 n (omega arith) h
encode_value-append out (double raw) v h =
    rw (key-groups out 5 1 (omega arith), key-groups [] 5 1 (omega arith))
      (append_assoc out (groups 9 (1 + 5 * 8)) raw)
encode_value-append out (string t) v h = bytes_field-append out 6 t (omega arith) h
encode_value-append out (json t) v h = bytes_field-append out 7 t (omega arith) h
encode_value-append out (binary t) v h = bytes_field-append out 10 t (omega arith) h

-- The fields of a variable, one behind the other.
abbrev var_bytes : UserVar → List ℕ
var_bytes u =
    uint_field [] 1 u.lo
    ++ (uint_field [] 2 u.hi
        ++ (str_field [] 3 u.name
            ++ (value_bytes u.value (var_of u) ++ (uint_field [] 8 (flag u.of_module) ++ []))))

encode_var-eq : (u : UserVar) → VarFits u → encode_var [] (var_of u) ≡ var_bytes u
unfolding encode_var
encode_var-eq u h =
    let a1 = uint_field [] 1 u.lo in
    let a2 = uint_field [] 2 u.hi in
    let a3 = str_field [] 3 u.name in
    let a4 = value_bytes u.value (var_of u) in
    let a5 = uint_field [] 8 (flag u.of_module) in
    rw
      (
        parse_guid-format_guid u.lo u.hi h.0 h.1,
        uint_field-append a1 2 u.hi (omega arith) h.1,
        str_field-append (a1 ++ a2) 3 u.name (omega arith) h.2,
        encode_value-append ((a1 ++ a2) ++ a3) u.value (var_of u) h.3,
        uint_field-append (((a1 ++ a2) ++ a3) ++ a4) 8 (flag u.of_module) (omega arith)
            (flag-IsU64 u.of_module),
      )
      (simp (append_assoc, append-nil))

-- The state of `decode_var` after the value.
abbrev after_value : UserVar → VarState
after_value u = record {
  lo = u.lo;
  hi = u.hi;
  var = put_value u.value (record no_var { key = u.name });
}

value_walk :
    (x : VarValue) (u : NetUserVar) (lo hi : ℕ) (name rest : List ℕ) (t : VarState)
    → ValueFits x
    → Walks var_field
        (record { lo = lo; hi = hi; var = put_value x (record no_var { key = name }) })
        rest
        t
    → Walks var_field
        (record { lo = lo; hi = hi; var = record no_var { key = name } })
        (value_bytes x u ++ rest)
        t
unfolding var_field
value_walk null u lo hi name rest t h w = w
value_walk (bool true) u lo hi name rest t h w =
    Walks-varint var_field _ _ t rest 9 1 (omega arith) (omega arith) (λ p e. rw e) w
value_walk (bool false) u lo hi name rest t h w =
    Walks-varint var_field _ _ t rest 9 0 (omega arith) (omega arith) (λ p e. rw e) w
value_walk (int n) u lo hi name rest t h w =
    Walks-varint var_field _ _ t rest 4 n (omega arith) h (λ p e. rw e) w
value_walk (double raw) u lo hi name rest t h w =
    rw (key-groups [] 5 1 (omega arith), append_assoc (groups 9 (1 + 5 * 8)) raw rest)
      (more _ _ t _ (raw ++ rest) rest 5 1 (next-groups 5 1 (raw ++ rest) (omega arith))
        (rw (← h, read_fixed-append raw rest) refl) (omega (arith, length-append raw rest)) w)
value_walk (string s) u lo hi name rest t h w =
    Walks-bytes var_field _ _ t rest 6 s (omega arith) h (λ p e. rw e) w
value_walk (json s) u lo hi name rest t h w =
    Walks-bytes var_field _ _ t rest 7 s (omega arith) h (λ p e. rw e) w
value_walk (binary s) u lo hi name rest t h w =
    Walks-bytes var_field _ _ t rest 10 s (omega arith) h (λ p e. rw e) w

pub next-nil : next [] ≡ none
unfolding next
next-nil = refl

module_walk :
    (m : Bool) (s : VarState)
    → s.var.module_var ≡ false
    → Walks var_field s
        (uint_field [] 8 (flag m) ++ [])
        (record s { var = record s.var { module_var = m } })
unfolding var_field
module_walk true s h =
    Walks-uint var_field s _ _ [] 8 1 (omega arith) (omega arith) (λ e. cc) (λ p e. rw e)
      (done _ [] next-nil)
module_walk false s h =
    Walks-uint var_field s _ _ [] 8 0 (omega arith) (omega arith)
      (λ e i. record s { var = record s.var { module_var = h i } }) (λ p e. rw e)
      (done _ [] next-nil)

var_walk :
    (u : UserVar)
    → VarFits u
    → Walks var_field
        (record { lo = 0; hi = 0; var = no_var })
        (var_bytes u)
        (record (after_value u) { var = record (after_value u).var { module_var = u.of_module } })
unfolding var_field
var_walk u h =
    Walks-uint var_field _ (record { lo = u.lo; hi = 0; var = no_var }) _ _ 1 u.lo (omega arith) h.0
      (λ e i. record { lo = sym e i; hi = 0; var = no_var }) (λ p e. rw e)
      (Walks-uint var_field _ (record { lo = u.lo; hi = u.hi; var = no_var }) _ _ 2 u.hi
        (omega arith) h.1 (λ e i. record { lo = u.lo; hi = sym e i; var = no_var }) (λ p e. rw e)
        (Walks-str var_field _
          (record { lo = u.lo; hi = u.hi; var = record no_var { key = u.name } }) _ _ 3 u.name
          (omega arith) h.2
          (λ e i. record { lo = u.lo; hi = u.hi; var = record no_var { key = sym e i } })
          (λ p e. rw e)
          (value_walk u.value (var_of u) u.lo u.hi u.name _ _ h.3
            (module_walk u.of_module (after_value u) refl))))

-- `decode_var` returns every user variable that fits, whatever its kind, from the bytes that
-- `encode_var` writes for it.
pub decode_var-encode_var :
    (u : UserVar) → VarFits u → decode_var (encode_var [] (var_of u)) ≡ ok (var_of u)
unfolding decode_var
decode_var-encode_var u h =
    rw
      (
        encode_var-eq u h,
        walk-Walks var_field (suc (length (var_bytes u))) _ _ (var_bytes u) (var_walk u h)
            (omega arith),
      )
      refl
