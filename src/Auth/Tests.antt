-- ===== src/Auth/Tests.antt =====
-- A small history of logins: tests, and instances of the theorems.
use competitor_scout.Prelude.{
  ℕ, ◌+◌, ◌-◌, ◌%◌, ◌==◌, str_eq, length, ◌≡◌, refl, List, [], ◌∷◌, ◌++◌, Option, none, some, ok,
  if◌then◌else◌, arith, ◌≤◌, seconds,
}
use competitor_scout.Prelude.Texts.{Text, str, text_eq, drop_end}
use competitor_scout.Auth.{
  AuthLib, User, Session, AuthTables, AuthenticatedSession, resolve_session, create_session, logout,
  new_session, touch, put_session, parse_session_cookie, revoke,
}
use competitor_scout.Auth.Accounts.{GoogleIdentity, Fresh, new_user}
use competitor_scout.Auth.Resolving.{Resolved, resolve_sound}
use competitor_scout.Auth.History.{Event, sign_in, request, run}
use competitor_scout.Auth.Sessions.{signed_out, session_ends}
use competitor_scout.Auth.Registration.{Accounts, run-Accounts}
use competitor_scout.Json.{Value, number, text, object, end, field, text_key}
use competitor_scout.Auth.OAuth.{
  StateLib, Payload, read_payload, padding, is_padding, IsBase64, create_oauth_state,
  validate_oauth_state, validate_state_sound, validate-create, split_first,
}

-- One UUID, "7", and digests that keep the text.
abbrev toy : AuthLib
toy = record {
  sha256 = λ t. t;
  hmac = λ s m. s ++ m;
  parse_uuid = λ t. if text_eq t (str "7") then some 7 else none;
  show_uuid = λ i. str "7";
  casefold = λ t. t;
}

abbrev no_rows : AuthTables
no_rows = record { users = []; identities = []; sessions = [] }

abbrev fresh : Fresh
fresh = record { user_key = 1; identity_key = 2; clock = 50; now = 50 }

abbrev ada : GoogleIdentity
ada = record { subject = str "s"; google_email = str "a@b.c"; name = str "Ada"; picture = none }

abbrev eve : GoogleIdentity
eve = record { subject = str "t"; google_email = str "e@b.c"; name = str "Eve"; picture = none }

abbrev cookie : Option Text
cookie = some (str "7.secret")

abbrev logins : List Event
logins =
    sign_in fresh ada 7 (str "secret") 50
    ∷ sign_in (record fresh { user_key = 3; identity_key = 4 }) eve 8 (str "x") 51
    ∷ request cookie 60
    ∷ []

no_rows-Accounts : Accounts 1 [] []
no_rows-Accounts = record {
  ids = tt;
  within = omega arith;
  one_per_email = λ e. omega arith;
  one_per_subject = λ s. omega arith;
}

run-Accounts_example :
    let after = run toy 1 (str "k") logins no_rows in Accounts 1 after.users after.identities
run-Accounts_example = run-Accounts 1 toy (str "k") logins no_rows no_rows-Accounts

abbrev user : User
user = new_user toy fresh ada (str "a@b.c")

abbrev session : Session
session = new_session toy 7 50 50 1 (str "secret")

abbrev stored : AuthTables
stored = record { users = user ∷ []; identities = []; sessions = session ∷ [] }

abbrev signed_in : AuthenticatedSession × AuthTables
signed_in = (
  record { session = touch 60 session; user = user; cookie_secret = str "secret" },
  put_session 7 (touch 60) stored,
)

accepted : resolve_session toy cookie 60 stored ≡ some signed_in
unfolding resolve_session text_eq
accepted = refl

resolve_sound_example : Resolved toy cookie 60 stored signed_in
resolve_sound_example = resolve_sound toy cookie 60 stored signed_in accepted

abbrev after_logout : AuthTables
after_logout = put_session 7 (revoke 60) (put_session 7 (touch 60) stored)

cookie_parsed : parse_session_cookie toy cookie ≡ some (7, str "secret")
unfolding parse_session_cookie text_eq
cookie_parsed = refl

logout_runs : logout toy (str "k") cookie (some (str "k7.secret")) 60 stored ≡ ok after_logout
unfolding logout text_eq
logout_runs = refl

signed_out_example : resolve_session toy cookie 70 (run toy 1 (str "k") logins after_logout) ≡ none
signed_out_example =
    signed_out toy 1 (str "k") cookie (some (str "k7.secret")) 7 (str "secret") 60 stored
      after_logout cookie_parsed logout_runs logins cookie (str "secret") 70 cookie_parsed

abbrev without_session : AuthTables
without_session = record stored { sessions = [] }

created : create_session toy 7 50 (str "secret") 50 user without_session ≡ ok (session, stored)
unfolding create_session
created = refl

session_ends_example :
    resolve_session toy cookie (seconds 2592001) (run toy 1 (str "k") logins stored) ≡ none
session_ends_example =
    session_ends toy 1 (str "k") 7 50 (str "secret") 50 user session without_session stored created
      logins cookie (str "secret") (seconds 2592001) (omega arith) cookie_parsed

-- JSON of one dict, and base64 that pads a text with "=".
abbrev document : Value
document = object (
    field (text_key "iat") (number "5")
      (field (text_key "jti") (text "j") (field (text_key "nonce") (text "nn") end)))

abbrev number_or_zero : Value → ℕ
number_or_zero (number s) = if str_eq s "5" then 5 else 0
number_or_zero _ = 0

abbrev state_lib : StateLib
state_lib = record {
  hmac = λ s m. s ++ m;
  dumps = λ v. str "5,j,nn";
  loads = λ t. if text_eq t (str "5,j,nn") then some document else none;
  urlsafe_b64encode = λ t. t ++ padding ((4 - length t % 4) % 4);
  urlsafe_b64decode = λ t. some (drop_end is_padding t);
  numeral = λ n. if n == 5 then "5" else "0";
  read_int = λ v. some (number_or_zero v);
}

document_IsBase64 : IsBase64 state_lib (str "5,j,nn")
unfolding padding drop_end
document_IsBase64 = record {
  body = str "5,j,nn";
  signs = 2;
  written = refl;
  plain = refl;
  few = omega arith;
  aligned = refl;
  reads = refl;
}

document_read : state_lib.loads (state_lib.dumps document) ≡ some document
unfolding text_eq
document_read = refl

validate-create_example :
    validate_oauth_state state_lib
      (create_oauth_state state_lib (str "k") "nn" "j" 5000000).0
      (str "k")
      6000000
    ≡ ok "nn"
validate-create_example =
    validate-create state_lib (str "k") "nn" "j" 5000000 6000000 document_read document_IsBase64
      refl refl (omega arith) (omega arith)

state_accepted : validate_oauth_state state_lib (str "5,j,nn.k5,j,nn") (str "k") 6000000 ≡ ok "nn"
unfolding validate_oauth_state text_eq drop_end padding
state_accepted = refl

validate_state_sound_example :
    (encoded : Text) × (p : Payload) × (split_first (str "5,j,nn.k5,j,nn")
      ≡ some (encoded, state_lib.hmac (str "k") encoded))
    × (read_payload state_lib encoded ≡ some p)
    × (p.nonce ≡ "nn")
    × (seconds p.iat ≤ 6000000 + seconds 60)
    × (6000000 ≤ seconds p.iat + seconds 600)
validate_state_sound_example =
    validate_state_sound state_lib (str "5,j,nn.k5,j,nn") (str "k") 6000000 "nn" state_accepted
