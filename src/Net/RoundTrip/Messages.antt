-- ===== src/Net/RoundTrip/Messages.antt =====
-- src/net.cpp: `decode` returns the message that `encode` was given.
use bg3le.Common.{
  ℕ, suc, ◌%◌, ◌^◌, ◌<◌, ◌≡◌, refl, sym, ap, ◌∙◌, arith, Bool, true, false, List, [], ◌∷◌, ◌++◌,
  append_assoc, append-nil, length, ok, All,
}
use mathlib.Core.List.{map}
use bg3le.Wire.Write.{IsU64, uint_field, bytes_field}
use bg3le.Net.Message.{
  NetUserVar, WrapperKind, Wrapper, no_message, str_field, flag, field_of, encode_var, encode_vars,
  encode_body, encode,
}
use bg3le.Net.Decode.{body_field, outer_field, decode_body, is_set, decode}
use bg3le.Net.RoundTrip.Walks.{
  Walks, done, walk-Walks, uint_field-append, bytes_field-append, str_field-append, Walks-bytes,
  Walks-uint, Walks-str,
}
use bg3le.Net.RoundTrip.Vars.{UserVar, var_of, VarFits, decode_var-encode_var, next-nil, flag-IsU64}

-- A message as the protocol means it.
pub data Message : Type 0 where
  post_lua : (channel payload module_name : List ℕ) → (request_id reply_id : ℕ) → Bool → Message
  reset_lua : Bool → Message
  hello : ℕ → Message
  kick : List ℕ → Message
  user_vars : List UserVar → Message

-- The code's structure for it: the fields of the other kinds have their defaults.
abbrev pub wrapper_of : Message → Wrapper
wrapper_of (post_lua c p m q r b) = record no_message {
  kind = WrapperKind.post_lua;
  channel = c;
  payload = p;
  module_name = m;
  request_id = q;
  reply_id = r;
  binary = b;
}
wrapper_of (reset_lua b) = record no_message { kind = WrapperKind.reset_lua; bootstrap = b }
wrapper_of (hello n) = record no_message { kind = WrapperKind.hello; version = n }
wrapper_of (kick t) = record no_message { kind = WrapperKind.kick; kick_text = t }
wrapper_of (user_vars us) = record no_message { kind = WrapperKind.user_vars; vars = map var_of us }

abbrev pub IsU32 : ℕ → Type 0
IsU32 n = n < 2 ^ 32

-- The ids fit in 32 bits, and the lengths are sizes of a 64-bit machine.
abbrev pub Fits : Message → Type 0
Fits (post_lua c p m q r b) =
    IsU64 (length c) × IsU64 (length p) × IsU64 (length m) × IsU32 q × IsU32 r
Fits (reset_lua b) = Unit {0}
Fits (hello n) = IsU32 n
Fits (kick t) = IsU64 (length t)
Fits (user_vars us) = All (λ u. VarFits u × IsU64 (length (encode_var [] (var_of u)))) us

abbrev pub body_bytes : Message → List ℕ
body_bytes m = encode_body (wrapper_of m).kind (wrapper_of m)

flag_walk_post :
    (b : Bool) (w : Wrapper)
    → w.binary ≡ false
    → Walks
        (body_field WrapperKind.post_lua)
        w
        (uint_field [] 6 (flag b) ++ [])
        (record w { binary = b })
unfolding body_field
flag_walk_post true w h =
    Walks-uint (body_field WrapperKind.post_lua) w _ _ [] 6 1 (omega arith) (omega arith) (λ e. cc)
      (λ p e. rw e) (done _ [] next-nil)
flag_walk_post false w h =
    Walks-uint (body_field WrapperKind.post_lua) w _ _ [] 6 0 (omega arith) (omega arith)
      (λ e i. record w { binary = h i }) (λ p e. rw e) (done _ [] next-nil)

u32_same : (n : ℕ) → IsU32 n → n % 2 ^ 32 ≡ n
u32_same n h = omega arith

post_walk :
    (c p m : List ℕ) (q r : ℕ) (b : Bool)
    → Fits (post_lua c p m q r b)
    → Walks
        (body_field WrapperKind.post_lua)
        (record no_message { kind = WrapperKind.post_lua })
        (str_field [] 1 c
          ++ (str_field [] 2 p
              ++ (str_field [] 3 m
                  ++ (uint_field [] 4 q
                      ++ (uint_field [] 5 r ++ (uint_field [] 6 (flag b) ++ []))))))
        (wrapper_of (post_lua c p m q r b))
unfolding body_field
post_walk c p m q r b h =
    let start = record no_message { kind = WrapperKind.post_lua } in
    let step = body_field WrapperKind.post_lua in
    Walks-str step _ (record start { channel = c }) _ _ 1 c (omega arith) h.0
      (λ e i. record start { channel = sym e i }) (λ t e. rw e)
      (Walks-str step _ (record start { channel = c; payload = p }) _ _ 2 p (omega arith) h.1
        (λ e i. record start { channel = c; payload = sym e i }) (λ t e. rw e)
        (Walks-str step _ (record start { channel = c; payload = p; module_name = m }) _ _ 3 m
          (omega arith) h.2
          (λ e i. record start { channel = c; payload = p; module_name = sym e i }) (λ t e. rw e)
          (Walks-uint step _
            (record start { channel = c; payload = p; module_name = m; request_id = q }) _ _ 4 q
            (omega arith) (omega arith)
            (λ e i. record start {
              channel = c;
              payload = p;
              module_name = m;
              request_id = sym e i;
            })
            (λ t e. rw (e, u32_same q h.3))
            (Walks-uint step _
              (record start {
                channel = c;
                payload = p;
                module_name = m;
                request_id = q;
                reply_id = r;
              })
              _ _ 5 r (omega arith) (omega arith)
              (λ e i. record start {
                channel = c;
                payload = p;
                module_name = m;
                request_id = q;
                reply_id = sym e i;
              })
              (λ t e. rw (e, u32_same r h.4)) (flag_walk_post b _ refl)))))

-- The variables of a message, one field for each.
abbrev vars_bytes : List UserVar → List ℕ
vars_bytes [] = []
vars_bytes (u ∷ us) = bytes_field [] 1 (encode_var [] (var_of u)) ++ vars_bytes us

abbrev AllFit : List UserVar → Type 0
AllFit us = All (λ u. VarFits u × IsU64 (length (encode_var [] (var_of u)))) us

encode_vars-eq :
    (us : List UserVar) (out : List ℕ)
    → AllFit us
    → encode_vars out (map var_of us) ≡ out ++ vars_bytes us
unfolding encode_vars
encode_vars-eq [] out h = sym (append-nil out)
encode_vars-eq (u ∷ us) out h =
    encode_vars-eq us (bytes_field out 1 (encode_var [] (var_of u))) h.1
    ∙ ap (λ t. t ++ vars_bytes us)
        (bytes_field-append out 1 (encode_var [] (var_of u)) (omega arith) h.0.1)
    ∙ append_assoc out (bytes_field [] 1 (encode_var [] (var_of u))) (vars_bytes us)

abbrev with_vars : List NetUserVar → Wrapper
with_vars vs = record no_message { kind = WrapperKind.user_vars; vars = vs }

vars_walk :
    (us : List UserVar) (seen : List NetUserVar)
    → AllFit us
    → Walks
        (body_field WrapperKind.user_vars)
        (with_vars seen)
        (vars_bytes us)
        (with_vars (seen ++ map var_of us))
unfolding body_field
vars_walk [] seen h = rw (append-nil seen) (done _ [] next-nil)
vars_walk (u ∷ us) seen h =
    Walks-bytes (body_field WrapperKind.user_vars) _ (with_vars (seen ++ var_of u ∷ [])) _ _ 1
      (encode_var [] (var_of u)) (omega arith) h.0.1 (λ p e. rw (e, decode_var-encode_var u h.0.0))
      (rw (← append_assoc seen (var_of u ∷ []) (map var_of us))
        (vars_walk us (seen ++ var_of u ∷ []) h.1))

reset_walk :
    (b : Bool)
    → Walks
        (body_field WrapperKind.reset_lua)
        (record no_message { kind = WrapperKind.reset_lua })
        (uint_field [] 1 (flag b) ++ [])
        (wrapper_of (reset_lua b))
unfolding body_field
reset_walk true =
    Walks-uint (body_field WrapperKind.reset_lua) _ _ _ [] 1 1 (omega arith) (omega arith) (λ e. cc)
      (λ p e. rw e) (done _ [] next-nil)
reset_walk false =
    Walks-uint (body_field WrapperKind.reset_lua) _ _ _ [] 1 0 (omega arith) (omega arith)
      (λ e. refl) (λ p e. rw e) (done _ [] next-nil)

hello_walk :
    (n : ℕ)
    → IsU32 n
    → Walks
        (body_field WrapperKind.hello)
        (record no_message { kind = WrapperKind.hello })
        (uint_field [] 1 n ++ [])
        (wrapper_of (hello n))
unfolding body_field
hello_walk n h =
    Walks-uint (body_field WrapperKind.hello) _ _ _ [] 1 n (omega arith) (omega arith)
      (λ e i. record no_message { kind = WrapperKind.hello; version = sym e i })
      (λ p e. rw (e, u32_same n h)) (done _ [] next-nil)

kick_walk :
    (t : List ℕ)
    → IsU64 (length t)
    → Walks
        (body_field WrapperKind.kick)
        (record no_message { kind = WrapperKind.kick })
        (str_field [] 1 t ++ [])
        (wrapper_of (kick t))
unfolding body_field
kick_walk t h =
    Walks-str (body_field WrapperKind.kick) _ _ _ [] 1 t (omega arith) h
      (λ e i. record no_message { kind = WrapperKind.kick; kick_text = sym e i }) (λ p e. rw e)
      (done _ [] next-nil)

-- The second loop reads the body of any message.
body_walk :
    (m : Message)
    → Fits m
    → Walks
        (body_field (wrapper_of m).kind)
        (record no_message { kind = (wrapper_of m).kind })
        (body_bytes m)
        (wrapper_of m)
unfolding encode_body
body_walk (post_lua c p m q r b) h =
    let a1 = str_field [] 1 c in
    let a2 = str_field [] 2 p in
    let a3 = str_field [] 3 m in
    let a4 = uint_field [] 4 q in
    let a5 = uint_field [] 5 r in
    rw
      (
        str_field-append a1 2 p (omega arith) h.1,
        str_field-append (a1 ++ a2) 3 m (omega arith) h.2,
        uint_field-append ((a1 ++ a2) ++ a3) 4 q (omega arith) (omega arith),
        uint_field-append (((a1 ++ a2) ++ a3) ++ a4) 5 r (omega arith) (omega arith),
        uint_field-append ((((a1 ++ a2) ++ a3) ++ a4) ++ a5) 6 (flag b) (omega arith)
            (flag-IsU64 b),
      )
      (simp append_assoc (rw append-nil at (post_walk c p m q r b h)))
body_walk (reset_lua b) h = rw (← append-nil (uint_field [] 1 (flag b))) (reset_walk b)
body_walk (hello n) h = rw (← append-nil (uint_field [] 1 n)) (hello_walk n h)
body_walk (kick t) h = rw (← append-nil (str_field [] 1 t)) (kick_walk t h)
body_walk (user_vars us) h = rw (encode_vars-eq us [] h) (vars_walk us [] h)

outer_walk :
    (k : WrapperKind) (body : List ℕ)
    → is_set k ≡ true
    → IsU64 (length body)
    → Walks outer_field (WrapperKind.unset, []) (bytes_field [] (field_of k) body ++ []) (k, body)
unfolding outer_field
outer_walk WrapperKind.unset body e h = cc
outer_walk WrapperKind.post_lua body e h =
    Walks-bytes outer_field _ _ _ [] 1 body (omega arith) h (λ p r. rw r) (done _ [] next-nil)
outer_walk WrapperKind.reset_lua body e h =
    Walks-bytes outer_field _ _ _ [] 2 body (omega arith) h (λ p r. rw r) (done _ [] next-nil)
outer_walk WrapperKind.hello body e h =
    Walks-bytes outer_field _ _ _ [] 5 body (omega arith) h (λ p r. rw r) (done _ [] next-nil)
outer_walk WrapperKind.kick body e h =
    Walks-bytes outer_field _ _ _ [] 7 body (omega arith) h (λ p r. rw r) (done _ [] next-nil)
outer_walk WrapperKind.user_vars body e h =
    Walks-bytes outer_field _ _ _ [] 8 body (omega arith) h (λ p r. rw r) (done _ [] next-nil)

decode_body-Walks :
    (k : WrapperKind) (body : List ℕ) (w t : Wrapper)
    → is_set k ≡ true
    → Walks (body_field k) (record w { kind = k }) body t
    → decode_body k body w ≡ ok t
unfolding decode_body
decode_body-Walks WrapperKind.unset body w t e h = cc
decode_body-Walks k body w t e h =
    walk-Walks (body_field k) (suc (length body)) _ t body h (omega arith)

wrapper_of-is_set : (m : Message) → is_set (wrapper_of m).kind ≡ true
wrapper_of-is_set (post_lua c p m q r b) = refl
wrapper_of-is_set (reset_lua b) = refl
wrapper_of-is_set (hello n) = refl
wrapper_of-is_set (kick t) = refl
wrapper_of-is_set (user_vars us) = refl

-- `decode` returns every message that fits, of each of the five kinds, from the bytes that `encode`
-- writes for it, provided that the length of its body is a size of a 64-bit machine.
pub decode-encode :
    (m : Message)
    → Fits m
    → IsU64 (length (body_bytes m))
    → decode (encode (wrapper_of m)) no_message ≡ ok (wrapper_of m)
unfolding decode encode
decode-encode m h k =
    let kind = (wrapper_of m).kind in
    let bytes = bytes_field [] (field_of kind) (body_bytes m) in
    let outer : Walks outer_field (WrapperKind.unset, []) bytes (kind, body_bytes m) =
      rw append-nil at (outer_walk kind (body_bytes m) (wrapper_of-is_set m) k) in
    rw (walk-Walks outer_field (suc (length bytes)) _ _ bytes outer (omega arith)) (
      decode_body-Walks kind (body_bytes m) no_message (wrapper_of m) (wrapper_of-is_set m)
        (body_walk m h))
