-- ===== src/Bridge/Client.antt =====
-- internal/bridge/client.go: doWithRetry, CreateAuthObject and CreateInstallation.

use mathlib.Core.Bool.{false≢true}
use ivory_operator.Bridge.{Installation, AuthObject}
use ivory_operator.Kube.{failed, found, Answer}
use ivory_operator.Prelude.{
  ◌∙◌, sym, refl, if_elim, true, false, ◌≡◌, zero, some, ltb, ◌&&◌, suc, none, leb, Option, Bool,
  ◌==◌, ℕ, String, if◌then◌else◌,
}

-- http.Response: `retry_after` is what strconv.Atoi makes of the header, and 0 where that is not
-- positive.
pub record Response : Type 0 where
  pub status_code : ℕ
  pub status : String
  pub retry_after : ℕ
  pub body : String

-- What doWithBackoff answers.
pub data Reply (E : Type 0) : Type 0 where
  no_reply : E → Reply E
  reply : Response → Reply E

-- How long to wait before the request is sent again.
unfoldable pub retry_delay : {E : Type 0} → Reply E → ℕ
retry_delay (no_reply e) = 0
retry_delay (reply r) = if r.status_code == 429 then r.retry_after else 0

-- doWithRetry on fuel, from the replies by their number, and from what ends the context during a wait:
-- `none` while it is still to send.
unfoldable pub do_with_retry :
    {E : Type 0} → (ℕ → Reply E) → (ℕ → Option E) → ℕ → ℕ → Option (Reply E)
unfolding retry_delay
do_with_retry replies cancelled zero n = none
do_with_retry replies cancelled (suc fuel) n =
    let again = do_with_retry replies cancelled fuel (suc n) in
    if retry_delay (replies n) == 0
    then some (replies n)
    else elim (cancelled n) [ none ↦ again | some e ↦ some (no_reply e) ]

-- A success, a failed authentication, and any other error.
pub data Renewal (E : Type 0) : Type 0 where
  renewed : AuthObject → Renewal E
  unauthorized : E → Renewal E
  refused : E → Renewal E

abbrev pub is_401 : {E : Type 0} → Reply E → Bool
is_401 (no_reply e) = false
is_401 (reply r) = r.status_code == 401

abbrev pub is_unauthorized : {E : Type 0} → Renewal E → Bool
is_unauthorized (renewed a) = false
is_unauthorized (unauthorized e) = true
is_unauthorized (refused e) = false

-- encoding/json and fmt.Errorf
pub record ClientEnv (E : Type 0) : Type 0 where
  pub read_auth_object : String → Answer E AuthObject
  pub read_installation : String → Answer E Installation
  pub authentication_failed : String → E
  pub unexpected : String → String → E
  pub malformed : E → String → E

unfoldable pub is_success : ℕ → Bool
is_success code = leb 200 code && ltb code 300

module _ {E : Type 0} (env : ClientEnv E) where
  unfoldable pub decode_auth : String → Answer E AuthObject → Renewal E
  decode_auth body (found a) = renewed a
  decode_auth body (failed e) = refused (env.malformed e body)

  -- CreateAuthObject, from the reply to its request.
  unfoldable pub auth_result : Reply E → Renewal E
  unfolding is_success decode_auth
  auth_result (no_reply e) = refused e
  auth_result (reply r) =
      if is_success r.status_code
      then decode_auth r.body (env.read_auth_object r.body)
      else if r.status_code == 401
      then unauthorized (env.authentication_failed r.body)
      else refused (env.unexpected r.status r.body)

  unfoldable pub decode_installation : String → Answer E Installation → Answer E Installation
  decode_installation body (found i) = found i
  decode_installation body (failed e) = failed (env.malformed e body)

  -- CreateInstallation, from the reply to its request.
  unfoldable pub installation_result : Reply E → Answer E Installation
  unfolding is_success decode_installation
  installation_result (no_reply e) = failed e
  installation_result (reply r) =
      if is_success r.status_code
      then decode_installation r.body (env.read_installation r.body)
      else failed (env.unexpected r.status r.body)

  decode_auth-authorised :
      (body : String) (answer : Answer E AuthObject)
      → is_unauthorized (decode_auth body answer) ≡ false
  unfolding decode_auth
  decode_auth-authorised body (found a) = refl
  decode_auth-authorised body (failed e) = refl

  -- The authentication fails only on a reply 401.
  pub auth_result-401 : (r : Reply E) → is_unauthorized (auth_result r) ≡ true → is_401 r ≡ true
  unfolding auth_result
  auth_result-401 (no_reply c) = λ h. absurd (false≢true h)
  auth_result-401 (reply r) =
      if_elim {A = Renewal E} (λ x. is_unauthorized x ≡ true → (r.status_code == 401) ≡ true)
        (is_success r.status_code)
        (λ _ h.
          absurd
            (false≢true (sym (decode_auth-authorised r.body (env.read_auth_object r.body)) ∙ h)))
        (λ _.
          if_elim {A = Renewal E} (λ x. is_unauthorized x ≡ true → (r.status_code == 401) ≡ true)
            (r.status_code == 401) (λ e _. e) (λ _ h. absurd (false≢true h)))
