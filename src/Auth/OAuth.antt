-- ===== src/Auth/OAuth.antt =====
-- The OAuth state of services/auth.py: a signed token with the time and the nonce of a login. JSON,
-- URL-safe base64, the HMAC and `int` are arguments.
use competitor_scout.Prelude.{
  ℕ, zero, suc, String, str_eq, ◌+◌, ◌-◌, ◌*◌, ◌/◌, ◌%◌, ◌&&◌, all, length, ◌≡◌, refl, Bool, true,
  false, not, ◌||◌, [], ◌∷◌, ◌++◌, Option, none, some, ◌==◌, ltb, if◌then◌else◌, Result, ok, err,
  ◌>>=◌, ◌>>◌, guard, seconds, arith, ◌≤◌, bind_inversion, guard_inversion,
}
use competitor_scout.Prelude.Texts.{Text, text_eq, text_eq_iff, text_eq_refl, drop_end, keep_char}
use competitor_scout.Json.{Value, number, text, object, Fields, end, field, text_key, other_key}

-- What the code reads of a payload. A negative time is one that it cannot hold: the code refuses it
-- as too old.
pub record Payload : Type 0 where
  pub iat : ℕ
  pub nonce : String

-- `dumps` is `json.dumps(payload, separators=(",", ":"), sort_keys=True)`, `numeral` the numeral of an
-- int, `read_int` is `int(value)`; `none` is one of the exceptions that the code catches.
pub record StateLib : Type 0 where
  pub hmac : Text → Text → Text
  pub dumps : Value → Text
  pub loads : Text → Option Value
  pub urlsafe_b64encode : Text → Text
  pub urlsafe_b64decode : Text → Option Text
  pub numeral : ℕ → String
  pub read_int : Value → Option ℕ

-- OAUTH_STATE_LIFETIME: 10 minutes.
abbrev pub state_lifetime : ℕ
state_lifetime = seconds 600

abbrev in_front : ℕ → Option (Text × Text) → Option (Text × Text)
in_front c none = none
in_front c (some (a, b)) = some (c ∷ a, b)

-- `value.split(".", 1)` into two parts: at the first dot.
unfoldable pub split_first : Text → Option (Text × Text)
split_first [] = none
split_first (c ∷ s) =
    let rest = split_first s in if c == b'.' then some ([], s) else in_front c rest

pub data StateError : Type 0 where
  invalid_state : StateError

abbrev or_invalid : {A : Type 0} → Option A → Result StateError A
or_invalid none = err invalid_state
or_invalid (some a) = ok a

abbrev is_nonempty : String → Bool
is_nonempty s = not (str_eq s "")

-- `age < timedelta(seconds=-60) or age > OAUTH_STATE_LIFETIME`, for the age of `issued` at `now`.
abbrev pub wrong_age : ℕ → ℕ → Bool
wrong_age issued now = ltb (now + seconds 60) issued || ltb (issued + state_lifetime) now

abbrev pub is_padding : ℕ → Bool
is_padding c = c == b'='

-- `"=" * n`.
unfoldable pub padding : ℕ → Text
padding zero = []
padding (suc n) = b'=' ∷ padding n

-- `payload[key]` of a parsed dict.
abbrev pub value_at : String → Fields → Option Value
value_at key end = none
value_at key (field (text_key k) v fields) =
    let rest = value_at key fields in if str_eq k key then some v else rest
value_at key (field other_key v fields) = value_at key fields

abbrev pub nonce_of : Option Value → ℕ → Option Payload
nonce_of (some (text s)) iat = some (record { iat = iat; nonce = s })
nonce_of _ iat = none

abbrev pub read_with : Option ℕ → Option Value → Option Payload
read_with none v = none
read_with (some iat) v = nonce_of v iat

module _ (lib : StateLib) where
  -- The dict of a new state, its keys in order.
  abbrev pub state_document : String → String → ℕ → Value
  state_document nonce jti now = object (
      field (text_key "iat") (number (lib.numeral (now / 1000000)))
        (field (text_key "jti") (text jti) (field (text_key "nonce") (text nonce) end)))

  unfoldable pub encode_state_payload : Value → Text
  encode_state_payload payload = drop_end is_padding (lib.urlsafe_b64encode (lib.dumps payload))

  abbrev pub dict_of : Option Value → Option Fields
  dict_of (some (object fields)) = some fields
  dict_of _ = none

  abbrev pub loaded : Option Text → Option Fields
  loaded none = none
  loaded (some document) = dict_of (lib.loads document)

  unfoldable pub decode_state_payload : Text → Option Fields
  unfolding padding
  decode_state_payload value =
      loaded (lib.urlsafe_b64decode (value ++ padding ((4 - length value % 4) % 4)))

  abbrev pub int_at : String → Fields → Option ℕ
  int_at key fields = elim (value_at key fields) [ none ↦ none | some v ↦ lib.read_int v ]

  abbrev pub payload_of : Option Fields → Option Payload
  payload_of none = none
  payload_of (some fields) = read_with (int_at "iat" fields) (value_at "nonce" fields)

  -- The time and the nonce of an encoded payload.
  abbrev pub read_payload : Text → Option Payload
  read_payload encoded = payload_of (decode_state_payload encoded)

  -- `nonce` and `jti` are the fresh random texts.
  unfoldable pub create_oauth_state : Text → String → String → ℕ → Text × String
  unfolding encode_state_payload
  create_oauth_state signing_secret nonce jti now =
      let encoded = encode_state_payload (state_document nonce jti now) in
      (encoded ++ b'.' ∷ lib.hmac signing_secret encoded, nonce)

  unfoldable pub validate_oauth_state : Text → Text → ℕ → Result StateError String
  unfolding split_first decode_state_payload
  validate_oauth_state value signing_secret now = do
    parts ← or_invalid (split_first value)
    guard (text_eq (lib.hmac signing_secret parts.0) parts.1) invalid_state
    payload ← or_invalid (read_payload parts.0)
    guard (is_nonempty payload.nonce) invalid_state
    guard (not (wrong_age (seconds payload.iat) now)) invalid_state
    ok payload.nonce

  -- A state is accepted only with the signature of its payload under the secret, at most 60 seconds
  -- before and 10 minutes after the time that the payload holds; the nonce is the payload's.
  pub validate_state_sound :
      (value signing_secret : Text) (now : ℕ) (nonce : String)
      → validate_oauth_state value signing_secret now ≡ ok nonce
      → (encoded : Text) × (payload : Payload) × (split_first value
          ≡ some (encoded, lib.hmac signing_secret encoded))
        × (read_payload encoded ≡ some payload)
        × (payload.nonce ≡ nonce)
        × (seconds payload.iat ≤ now + seconds 60)
        × (now ≤ seconds payload.iat + seconds 600)
  unfolding validate_oauth_state
  validate_state_sound value signing_secret now nonce h =
      let (parts, e, h₁) = bind_inversion (or_invalid (split_first value)) _ nonce h in
      let (g, h₂) =
        guard_inversion (text_eq (lib.hmac signing_secret parts.0) parts.1) _ _ nonce h₁ in
      let (payload, d, h₃) = bind_inversion (or_invalid (read_payload parts.0)) _ nonce h₂ in
      let (n, h₄) = guard_inversion (is_nonempty payload.nonce) _ _ nonce h₃ in
      let (a, h₅) = guard_inversion (not (wrong_age (seconds payload.iat) now)) _ _ nonce h₄ in
      (
        parts.0,
        payload,
        ground (arith, (text_eq_iff (lib.hmac signing_secret parts.0) parts.1).0 g),
        ground arith,
        ground arith,
        ground arith,
        ground arith,
      )

split_first-join : (s t : Text) → split_first s ≡ none → split_first (s ++ b'.' ∷ t) ≡ some (s, t)
unfolding split_first
split_first-join [] t h = refl
split_first-join (c ∷ s) t h = ground (arith, split_first-join s t)

-- What base64 writes: characters without a dot, then up to two signs "=" that make the length a
-- multiple of 4, which it reads back.
pub record IsBase64 (lib : StateLib) (document : Text) : Type 0 where
  pub body : Text
  pub signs : ℕ
  pub written : lib.urlsafe_b64encode document ≡ body ++ padding signs
  pub plain : all (λ c. not (is_padding c) && not (c == b'.')) body ≡ true
  pub few : signs ≤ 2
  pub aligned : (length body + signs) % 4 ≡ 0
  pub reads : lib.urlsafe_b64decode (body ++ padding signs) ≡ some document

drop_end-padding : (n : ℕ) → drop_end is_padding (padding n) ≡ []
unfolding drop_end padding
drop_end-padding zero = refl
drop_end-padding (suc n) = rw (drop_end-padding n) refl

drop_end-body :
    (s : Text) (n : ℕ)
    → all (λ c. not (is_padding c) && not (c == b'.')) s ≡ true
    → drop_end is_padding (s ++ padding n) ≡ s
unfolding drop_end
drop_end-body [] n h = drop_end-padding n
drop_end-body (c ∷ s) n h =
    let plain : is_padding c ≡ false = ground arith in
    rw (drop_end-body s n (ground arith), plain) (keep_plain c s)
  where
    keep_plain : (c : ℕ) (s : Text) → keep_char false c s ≡ c ∷ s
    keep_plain c [] = refl
    keep_plain c (d ∷ s) = refl

split_first-plain :
    (s : Text) → all (λ c. not (is_padding c) && not (c == b'.')) s ≡ true → split_first s ≡ none
unfolding split_first
split_first-plain [] h = refl
split_first-plain (c ∷ s) h = ground (arith, split_first-plain s)

module _ (lib : StateLib) (document : Value) (fields : Fields)
    (base64 : IsBase64 lib (lib.dumps document)) where
  encode-body : encode_state_payload lib document ≡ base64.body
  unfolding encode_state_payload
  encode-body = rw base64.written (drop_end-body base64.body base64.signs base64.plain)

  decode-encode :
      lib.loads (lib.dumps document) ≡ some (object fields)
      → decode_state_payload lib (encode_state_payload lib document) ≡ some fields
  unfolding decode_state_payload
  decode-encode loads =
      let few = base64.few in
      let aligned = base64.aligned in
      let signs : (4 - length base64.body % 4) % 4 ≡ base64.signs = omega arith in
      rw encode-body (rw signs (rw base64.reads (rw loads refl)))

-- A state that was made at a time is accepted for the next 599 seconds and gives back the nonce, if
-- that is not empty, `int` reads the numeral of the time, JSON reads the dict that it wrote, and
-- base64 reads the document that it wrote, which has no dot in it and at most two signs "=" at the
-- end that make its length a multiple of 4.
pub validate-create :
    (lib : StateLib) (signing_secret : Text) (nonce jti : String) (issued now : ℕ)
    → let document = state_document lib nonce jti issued in
      lib.loads (lib.dumps document) ≡ some document
      → IsBase64 lib (lib.dumps (state_document lib nonce jti issued))
      → lib.read_int (number (lib.numeral (issued / 1000000))) ≡ some (issued / 1000000)
      → str_eq nonce "" ≡ false
      → issued ≤ now
      → now ≤ issued + 599 * 1000000
      → validate_oauth_state lib
          (create_oauth_state lib signing_secret nonce jti issued).0
          signing_secret
          now
        ≡ ok nonce
unfolding validate_oauth_state create_oauth_state
validate-create lib signing_secret nonce jti issued now loads base64 ints filled lo hi =
    let document = state_document lib nonce jti issued in
    let encoded = encode_state_payload lib document in
    let body : split_first encoded ≡ none =
      rw (encode-body lib document end base64) (split_first-plain base64.body base64.plain) in
    let reads = decode-encode lib document _ base64 loads in
    let payload : read_payload lib encoded
        ≡ some (record { iat = issued / 1000000; nonce = nonce }) =
      rw reads (rw ints refl) in
    ground (
      arith,
      payload,
      split_first-join encoded (lib.hmac signing_secret encoded) body,
      text_eq_refl (lib.hmac signing_secret encoded),
    )
