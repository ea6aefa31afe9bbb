-- ===== src/Net/Decode.antt =====
-- src/net.cpp, `decode_var` and `decode`.
--
-- Each `while (r.next(&field, &wire))` is `walk`, on fuel: one round for each byte at hand is
-- enough, since a key takes at least one. As in the code, bytes that hold no key end the loop.
use bg3le.Common.{
  ℕ, zero, suc, ◌^◌, ◌%◌, Bool, true, false, ◌&&◌, ◌||◌, not, Option, none, some, List, [], ◌∷◌,
  ◌++◌, length, ◌==◌, if◌then◌else◌, ◌>>=◌, Run, ok, fail, stuck,
}
use bg3le.Wire.Read.{next, read_varint, read_bytes, read_fixed, skip}
use bg3le.Net.Guid.{format_guid}
use bg3le.Net.Message.{
  VarKind, NetUserVar, no_var, WrapperKind, unset, post_lua, reset_lua, hello, kick, user_vars,
  Wrapper,
}

-- One field: the field number, the wire type and the bytes behind the key. `none` is
-- `return false`.
abbrev pub FieldStep : Type 0 → Type 0
FieldStep S = S → ℕ → ℕ → List ℕ → Option (S × List ℕ)

unfoldable pub walk : {S : Type 0} → FieldStep S → ℕ → S → List ℕ → Run S
walk step zero s p = stuck
walk step (suc fuel) s p = elim (next p) [
  | none ↦ ok s
  | some (field, wire, body) ↦ elim (step s field wire body) [
    | none ↦ fail
    | some (s', rest) ↦ walk step fuel s' rest
  ]
]

-- Reads and keeps, each with what is left of the input.
abbrev pub with_varint : {S : Type 0} → List ℕ → (ℕ → S) → Option (S × List ℕ)
with_varint p f = do (n, rest) ← read_varint p; some (f n, rest)

abbrev pub with_bytes : {S : Type 0} → List ℕ → (List ℕ → S) → Option (S × List ℕ)
with_bytes p f = do (s, rest) ← read_bytes p; some (f s, rest)

abbrev pub with_fixed : {S : Type 0} → ℕ → List ℕ → (List ℕ → S) → Option (S × List ℕ)
with_fixed n p f = do (raw, rest) ← read_fixed n p; some (f raw, rest)

abbrev pub with_skip : {S : Type 0} → ℕ → List ℕ → S → Option (S × List ℕ)
with_skip wire p s = do rest ← skip wire p; some (s, rest)

-- The locals `lo` and `hi` and the variable that is filled in.
pub record VarState : Type 0 where
  pub lo : ℕ
  pub hi : ℕ
  pub var : NetUserVar

abbrev pub string_kind : ℕ → VarKind
string_kind field =
    if field == 6 then VarKind.string else if field == 7 then VarKind.json else VarKind.binary

unfoldable pub var_field : FieldStep VarState
var_field s field wire p =
    if (field == 1) && (wire == 0)
    then with_varint p (λ n. record s { lo = n })
    else if (field == 2) && (wire == 0)
    then with_varint p (λ n. record s { hi = n })
    else if (field == 3) && (wire == 2)
    then with_bytes p (λ t. record s { var = record s.var { key = t } })
    else if (field == 4) && (wire == 0)
    then with_varint p (λ n. record s { var = record s.var { kind = VarKind.int; i = n } })
    else if (field == 5) && (wire == 1)
    then with_fixed 8 p (λ raw. record s { var = record s.var { kind = VarKind.double; d = raw } })
    else if ((field == 6) || ((field == 7) || (field == 10))) && (wire == 2)
    then with_bytes p (λ t. record s { var = record s.var { kind = string_kind field; s = t } })
    else if (field == 9) && (wire == 0)
    then with_varint p
        (λ n. record s { var = record s.var { kind = VarKind.bool; b = not (n == 0) } })
    else if (field == 8) && (wire == 0)
    then with_varint p (λ n. record s { var = record s.var { module_var = n == 1 } })
    else with_skip wire p s

abbrev pub finish_var : Run VarState → Run NetUserVar
finish_var (ok s) = ok (record s.var { guid = format_guid s.lo s.hi })
finish_var fail = fail
finish_var stuck = stuck

unfoldable pub decode_var : List ℕ → Run NetUserVar
unfolding walk var_field
decode_var p =
    finish_var (walk var_field (suc (length p)) (record { lo = 0; hi = 0; var = no_var }) p)

-- A variable that does not decode is dropped.
abbrev pub push_var : List NetUserVar → Run NetUserVar → List NetUserVar
push_var vs (ok v) = vs ++ v ∷ []
push_var vs fail = vs
push_var vs stuck = vs

abbrev pub u32 : ℕ → ℕ
u32 n = n % 2 ^ 32

-- The `switch (w->kind)` of the second loop.
unfoldable pub body_field : WrapperKind → FieldStep Wrapper
unfolding decode_var
body_field post_lua w field wire p =
    if (wire == 2) && (field == 1)
    then with_bytes p (λ t. record w { channel = t })
    else if (wire == 2) && (field == 2)
    then with_bytes p (λ t. record w { payload = t })
    else if (wire == 2) && (field == 3)
    then with_bytes p (λ t. record w { module_name = t })
    else if (wire == 0) && (field == 4)
    then with_varint p (λ n. record w { request_id = u32 n })
    else if (wire == 0) && (field == 5)
    then with_varint p (λ n. record w { reply_id = u32 n })
    else if (wire == 0) && (field == 6)
    then with_varint p (λ n. record w { binary = n == 1 })
    else with_skip wire p w
body_field reset_lua w field wire p =
    if (wire == 0) && (field == 1)
    then with_varint p (λ n. record w { bootstrap = not (n == 0) })
    else with_skip wire p w
body_field hello w field wire p =
    if (wire == 0) && (field == 1)
    then with_varint p (λ n. record w { version = u32 n })
    else with_skip wire p w
body_field kick w field wire p =
    if (wire == 2) && (field == 1)
    then with_bytes p (λ t. record w { kick_text = t })
    else with_skip wire p w
body_field user_vars w field wire p =
    if (wire == 2) && (field == 1)
    then with_bytes p (λ t. record w { vars = push_var w.vars (decode_var t) })
    else with_skip wire p w
body_field unset w field wire p = some (w, p)

unfoldable pub kind_of : ℕ → WrapperKind
kind_of field =
    if field == 1
    then post_lua
    else if field == 2
    then reset_lua
    else if field == 5
    then hello
    else if field == 7
    then kick
    else if field == 8
    then user_vars
    else unset

abbrev pub is_set : WrapperKind → Bool
is_set unset = false
is_set _ = true

-- `w->kind` and `body` after the first loop.
unfoldable pub outer_field : FieldStep (WrapperKind × List ℕ)
unfolding kind_of
outer_field s field wire p =
    if (wire == 2) && is_set (kind_of field)
    then with_bytes p (λ body. (kind_of field, body))
    else with_skip wire p s

unfoldable pub decode_body : WrapperKind → List ℕ → Wrapper → Run Wrapper
unfolding body_field walk
decode_body unset body w = fail
decode_body kind body w = walk (body_field kind) (suc (length body)) (record w { kind = kind }) body

abbrev pub then_body : Wrapper → Run (WrapperKind × List ℕ) → Run Wrapper
then_body w (ok (kind, body)) = decode_body kind body w
then_body w fail = fail
then_body w stuck = stuck

-- `decode` into `w`, whose kind a message without one leaves as it is.
unfoldable pub decode : List ℕ → Wrapper → Run Wrapper
unfolding outer_field walk decode_body
decode p w = then_body w (walk outer_field (suc (length p)) (w.kind, []) p)
