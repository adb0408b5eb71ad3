-- ===== src/Csrf.antt =====
-- internal/middleware/csrf.go: the token that every state-changing request from a browser carries.
-- Texts are lists of code points. What the request says, the token that its session holds, blank
-- for none, and the new token, or nothing when the system has no randomness, are parameters;
-- `saves` says whether the session could be written. ConstantTimeCompare is equality.
pub mod Laws
mod Tests
use loon_site.Prelude.{
  ℕ, Bool, true, false, Option, none, some, List, [], ◌∷◌, ◌==◌, if◌then◌else◌, any, String, map,
}
use loon_site.Prelude.Bytes.{Bytes, bytes_eq, codes}
use loon_site.Prelude.Text.{trim_space}

pub data Method : Type 0 where
  post put patch delete other_method : Method

pub record CsrfRequest : Type 0 where
  pub full_path : Bytes
  pub method : Method
  pub form_field : Bytes
  pub header : Bytes

-- What becomes of a request: the handler runs, a 500, or a 403.
pub data Verdict : Type 0 where
  passes server_error forbidden : Verdict

pub record Answered : Type 0 where
  pub verdict : Verdict
  pub session_token : Bytes
  pub context_token : Option Bytes
  pub cookie : Option Bytes

-- The routes that carry a credential of their own, and the page of the inspector.
abbrev pub keyed_paths : List Bytes
keyed_paths =
    codes "/api"
    ∷ codes "/rss"
    ∷ codes "/api/downloads/report"
    ∷ codes "/api/agent/register"
    ∷ codes "/api/agent/poll"
    ∷ codes "/api/agent/progress"
    ∷ codes "/api/agent/status"
    ∷ codes "/api/agent/complete"
    ∷ []

unfoldable pub is_exempt : Bytes → Bool
is_exempt path = if any (λ p. path == p) keyed_paths then true else path == codes "/dev/focus"

abbrev pub changes_state : Method → Bool
changes_state post = true
changes_state put = true
changes_state patch = true
changes_state delete = true
changes_state other_method = false

-- The token that the request brings: the form's, or the header's when the form has none.
unfoldable pub token_given : (ℕ → Bool) → CsrfRequest → Bytes
token_given space r =
    if trim_space space r.form_field == [] then r.header else trim_space space r.form_field

-- The switch on the method.
unfoldable pub verdict_of : (ℕ → Bool) → Bytes → CsrfRequest → Verdict
unfolding token_given
verdict_of space token r =
    if changes_state r.method
    then if token_given space r == token then passes else forbidden
    else passes

-- The token goes to the templates and into the cookie, whatever the verdict.
abbrev pub hand_out : (ℕ → Bool) → Bytes → Bytes → CsrfRequest → Answered
hand_out space kept token r = record {
  verdict = verdict_of space token r;
  session_token = kept;
  context_token = some token;
  cookie = some token;
}

-- A session without a token gets one; when it is not saved the session stays without.
unfoldable pub issue : (ℕ → Bool) → Option Bytes → Bool → CsrfRequest → Answered
unfolding verdict_of
issue space none saves r = record {
  verdict = server_error;
  session_token = [];
  context_token = none;
  cookie = none;
}
issue space (some token) saves r = hand_out space (if saves then token else []) token r

-- `CSRF`
unfoldable pub csrf : (ℕ → Bool) → Option Bytes → Bool → Bytes → CsrfRequest → Answered
unfolding issue verdict_of is_exempt
csrf space drawn saves session r =
    if is_exempt r.full_path
    then record { verdict = passes; session_token = session; context_token = none; cookie = none }
    else if session == []
    then issue space drawn saves r
    else hand_out space session session r
