-- ===== src/Providers/RandomData.antt =====
-- cluster-executor/src/request_providers.rs: `get_n` of `RandomDataRequest`. The draws are numbered,
-- the first of a call being `n`; `none` is a panic.
use Prim.Native.String.{String}
use text.Mathlib.Text
use overload.Common.{
  ℕ, zero, suc, Bool, true, false, Option, none, some, List, [], ◌∷◌, if◌then◌else◌, ◌>>=◌,
}
use overload.Datagen.{DataSchema}
use overload.Datagen.Drawing.{Draws, generate_data}
use overload.Datagen.Parsing.{Numbers}
use overload.Foreign.{Foreign}
use overload.Http.{HttpReq, RandomDataRequest, UrlParam}
use overload.Json.{Value}
use overload.Providers.UrlParams.{find_param_positions, substitute_param_with_data}

-- The matches of the regular expression in a URL, and `to_string` of a JSON value.
pub record Printing (F : Foreign) : Type 0 where
  pub find_iter : String → List (ℕ × ℕ)
  pub to_string : Value F.Number → String

module _ {F : Foreign} (numbers : Numbers F) (draws : Draws F) (printing : Printing F) where
  unfoldable pub params_of :
      Option (DataSchema F) → RandomDataRequest F → Option (RandomDataRequest F)
  params_of none self = some (record self { init = true })
  params_of (some schema) self = do
    match_indices ← find_param_positions printing.find_iter self.url
    some (record self { init = true; url_param_pos = some match_indices })

  -- The block `if !self.init`.
  unfoldable pub init_params : RandomDataRequest F → Option (RandomDataRequest F)
  init_params self = if self.init then some self else params_of self.uri_param_schema self

  unfoldable pub url_by :
      String → Option (DataSchema F) → Option (List UrlParam) → ℕ → Option (String × ℕ)
  url_by url none positions n = some (url, n)
  url_by url (some schema) none n = some (url, n)
  url_by url (some schema) (some positions) n = do
    drawn ← generate_data numbers draws schema n
    url' ← substitute_param_with_data numbers.number_i64 url positions drawn.0
    some (url', drawn.1)

  unfoldable pub body_by : (is_post : Bool) → Option (DataSchema F) → ℕ → Option (Option String × ℕ)
  body_by false schema n = some (none, n)
  body_by true none n = some (none, n)
  body_by true (some schema) n = do
    drawn ← generate_data numbers draws schema n
    some (some (printing.to_string drawn.0), drawn.1)

  -- A round of the loop.
  unfoldable pub random_request : RandomDataRequest F → ℕ → Option (HttpReq × ℕ)
  random_request self n = do
    url ← url_by self.url self.uri_param_schema self.url_param_pos n
    body ← body_by (Text.◌==◌ self.method "POST") self.body_schema url.1
    some (
      record { id = ""; method = self.method; url = url.0; body = body.0; headers = self.headers },
      body.1,
    )

  unfoldable pub random_requests : RandomDataRequest F → (count n : ℕ) → Option (List HttpReq × ℕ)
  random_requests self zero n = some ([], n)
  random_requests self (suc count) n = do
    req ← random_request self n
    requests ← random_requests self count req.1
    some (req.0 ∷ requests.0, requests.1)

  unfoldable pub random_get_n :
      RandomDataRequest F → (count n : ℕ) → Option (List HttpReq × RandomDataRequest F × ℕ)
  random_get_n self count n = do
    self' ← init_params self
    requests ← random_requests self' count n
    some (requests.0, self', requests.1)
