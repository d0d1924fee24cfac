-- ===== src/Providers/Rendered.antt =====
-- The requests with random data are those that the description asks for.
use Prim.Native.String.{String}
use text.Mathlib.Text
use overload.Common.{
  ℕ, zero, suc, ◌≤◌, ◌≡◌, refl, ap, ◌∙◌, subst, sym, Bool, true, false, Option, none, some, ◌>>=◌,
  All, length, if◌then◌else◌,
}
use overload.Common.Ensures.{Returns, returns, ◌⟫=◌}
use overload.Datagen.{DataSchema}
use overload.Datagen.Conformance.{Fits, IsSafe}
use overload.Datagen.Drawing.{Draws}
use overload.Datagen.Generating.{generate_data-Fits}
use overload.Datagen.Parsing.{Numbers}
use overload.Datagen.Validity.{IsValid}
use overload.Foreign.{Foreign}
use overload.Http.{HttpReq, RandomDataRequest}
use overload.Json.{Value}
use overload.Providers.RandomData.{
  Printing, params_of, init_params, url_by, body_by, random_request, random_requests, random_get_n,
}
use overload.Providers.Substitution.{matches, count_params, found_positions, substituted}
use overload.Providers.Template.{Template, braced, render, descending, value_in}
use overload.Providers.UrlParams.{find_param_positions}

module _ {F : Foreign} (numbers : Numbers F) (draws : Draws F) (printing : Printing F) where
  -- The URL with the values of data that fits the schema.
  abbrev pub IsUrl : Template → DataSchema F → String → Type 0
  IsUrl t schema url =
      (data' : Value F.Number) × Fits numbers schema data'
      × (url ≡ render (value_in numbers.number_i64 data') t)

  -- A body only of a POST, and then the text of data that fits the schema.
  abbrev pub IsBody : (is_post : Bool) → Option (DataSchema F) → Option String → Type 0
  IsBody true (some schema) (some body) =
      (data' : Value F.Number) × Fits numbers schema data' × (body ≡ printing.to_string data')
  IsBody true (some schema) none = ⊥
  IsBody true none body = body ≡ none
  IsBody false schema body = body ≡ none

  abbrev pub IsDrawable : Option (DataSchema F) → Type 0
  IsDrawable none = Unit
  IsDrawable (some schema) = IsValid schema × IsSafe schema

  abbrev pub IsRendered : RandomDataRequest F → Template → DataSchema F → HttpReq → Type 0
  IsRendered self t schema req =
      (req.method ≡ self.method)
      × (req.headers ≡ self.headers)
      × IsUrl t schema req.url
      × IsBody (Text.◌==◌ self.method "POST") self.body_schema req.body

  url_by-IsUrl :
      (t : Template) (schema : DataSchema F) (n : ℕ)
      → IsValid schema
      → IsSafe schema
      → Returns
          (λ r. IsUrl t schema r.0)
          (url_by numbers draws printing (render braced t) (some schema) (some (descending t)) n)
  unfolding url_by
  url_by-IsUrl t schema n v s = generate_data-Fits numbers draws schema n v s ⟫= λ drawn f.
      rw (substituted numbers.number_i64 drawn.0 t) (returns (drawn.0, f, refl))

  body_by-IsBody :
      (is_post : Bool) (schema : Option (DataSchema F)) (n : ℕ)
      → IsDrawable schema
      → Returns (λ r. IsBody is_post schema r.0) (body_by numbers draws printing is_post schema n)
  unfolding body_by
  body_by-IsBody false schema n d = returns refl
  body_by-IsBody true none n d = returns refl
  body_by-IsBody true (some schema) n (v, s) =
      generate_data-Fits numbers draws schema n v s ⟫= λ drawn f. returns (drawn.0, f, refl)

  random_request-IsRendered :
      (self : RandomDataRequest F) (t : Template) (schema : DataSchema F) (n : ℕ)
      → self.url ≡ render braced t
      → self.uri_param_schema ≡ some schema
      → self.url_param_pos ≡ some (descending t)
      → IsValid schema
      → IsSafe schema
      → IsDrawable self.body_schema
      → Returns (λ r. IsRendered self t schema r.0) (random_request numbers draws printing self n)
  unfolding random_request
  random_request-IsRendered self t schema n u p q v s d =
      subst (Returns (λ r. IsUrl t schema r.0))
        (λ i. url_by numbers draws printing (sym u i) (sym p i) (sym q i) n)
        (url_by-IsUrl t schema n v s)
      ⟫= λ url is_url.
          body_by-IsBody (Text.◌==◌ self.method "POST") self.body_schema url.1 d ⟫= λ body is_body.
          returns (refl, refl, is_url, is_body)

  random_requests-IsRendered :
      (self : RandomDataRequest F) (t : Template) (schema : DataSchema F) (count n : ℕ)
      → self.url ≡ render braced t
      → self.uri_param_schema ≡ some schema
      → self.url_param_pos ≡ some (descending t)
      → IsValid schema
      → IsSafe schema
      → IsDrawable self.body_schema
      → Returns
          (λ r. (length r.0 ≡ count) × All (IsRendered self t schema) r.0)
          (random_requests numbers draws printing self count n)
  unfolding random_requests
  random_requests-IsRendered self t schema zero n u p q v s d = returns (refl, tt)
  random_requests-IsRendered self t schema (suc count) n u p q v s d =
      random_request-IsRendered self t schema n u p q v s d ⟫= λ req r.
      random_requests-IsRendered self t schema count req.1 u p q v s d ⟫= λ requests rs.
      returns (ap suc rs.0, (r, rs.1))

  init_params-found :
      (self : RandomDataRequest F) (t : Template) (schema : DataSchema F)
      → self.init ≡ false
      → self.uri_param_schema ≡ some schema
      → find_param_positions printing.find_iter self.url ≡ some (descending t)
      → init_params numbers draws printing self
        ≡ some (record self { init = true; url_param_pos = some (descending t) })
  unfolding init_params params_of
  init_params-found self t schema i p found =
      ap (λ b. if b then some self else params_of numbers draws printing self.uri_param_schema self)
        i
      ∙ ap (λ s. params_of numbers draws printing s self) p
      ∙ ap (λ o. o >>= λ found. some (record self { init = true; url_param_pos = some found }))
          found

  -- The first call for `count` requests with random data, for a URL with at most two parameters, all
  -- of which the regular expression finds, and well-formed schemas that data can be drawn for, does
  -- not panic and gives `count` requests. Each has the method and the headers of the description,
  -- the URL with its parameters replaced by values of data that fits the schema of the URL, and,
  -- only if it is a POST with a schema for the body, the text of data that fits that.
  pub random_get_n-IsRendered :
      (self : RandomDataRequest F) (t : Template) (schema : DataSchema F) (count n : ℕ)
      → self.init ≡ false
      → self.url ≡ render braced t
      → count_params t ≤ 2
      → printing.find_iter (render braced t) ≡ matches t
      → self.uri_param_schema ≡ some schema
      → IsValid schema
      → IsSafe schema
      → IsDrawable self.body_schema
      → Returns
          (λ r. (length r.0 ≡ count) × All (IsRendered self t schema) r.0)
          (random_get_n numbers draws printing self count n)
  unfolding random_get_n
  random_get_n-IsRendered self t schema count n i u h m p v s d =
      rw
        (init_params-found self t schema i p (
          ap (find_param_positions printing.find_iter) u
          ∙ found_positions printing.find_iter t h m))
        (random_requests-IsRendered
            (record self { init = true; url_param_pos = some (descending t) }) t schema count n u p
            refl v s d
          ⟫= λ requests rs. returns rs)
