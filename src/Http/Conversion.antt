-- ===== src/Http/Conversion.antt =====
-- overload-http/src/lib.rs: the conversion of what a user sends, `RequestShadow`, into a `Request`.
use Prim.Native.String.{String}
use text.Mathlib.Text
use text.Mathlib.TextEquality.{eq_iff}
use overload.Common.{
  ℕ, ◌≡◌, refl, ap, ◌∙◌, Bool, true, false, Option, none, some, List, [], ◌∷◌, inl, inr, ◌⊎◌,
  if◌then◌else◌, Bool-cases, arith,
}
use overload.Common.Dict.{Dict, lookup, insert, lookup-insert}
use overload.Assert.{ResponseAssertion}
use overload.Foreign.{Foreign}
use overload.Http.{
  Target, RequestSpec, RateSpecEnum, ConcurrentConnectionRateSpec, ConnectionKeepAlive,
  LoadGenerationMode, Request,
}

-- `http::header::host_name`: its text, and `eq` with a text.
pub record HeaderName : Type 0 where
  pub text : String
  pub eq : String → Bool

pub record RequestShadow (F : Foreign) : Type 0 where
  pub name : Option String
  pub duration : ℕ
  pub target : Target
  pub req : RequestSpec F
  pub qps : RateSpecEnum F
  pub concurrent_connection : ConcurrentConnectionRateSpec F
  pub connection_keep_alive : ConnectionKeepAlive
  pub histogram_buckets : List F.Double
  pub response_assertion : Option (ResponseAssertion F)
  pub generation_mode : LoadGenerationMode

-- `keys().any(...)`.
unfoldable pub any_key : (String → Bool) → Dict String → Bool
any_key p [] = false
any_key p ((k, v) ∷ m) = if p k then true else any_key p m

any_key-insert :
    (p : String → Bool) (k v : String) (m : Dict String)
    → p k ≡ true
    → any_key p (insert k v m) ≡ true
unfolding any_key insert
any_key-insert p k v [] h = ground arith
any_key-insert p k v ((j, w) ∷ m) h = ground (arith, any_key-insert p k v m h)

lookup-any_key :
    (p : String → Bool) (k : String) (m : Dict String)
    → p k ≡ true
    → any_key p m ≡ false
    → lookup k m ≡ none
unfolding any_key lookup
lookup-any_key p k [] h e = refl
lookup-any_key p k ((j, w) ∷ m) h e = elim (Bool-cases (p j)) [
  | inl a ↦ grind arith
  | inr a ↦ elim (Bool-cases (Text.◌==◌ k j)) [
    | inl b ↦ ground (arith, ap p ((eq_iff k j).0 b))
    | inr b ↦ rw b (lookup-any_key p k m h (grind arith))
  ]
]

module _ (host_name : HeaderName) where
  unfoldable pub validate_and_update_host_header : Dict String → Target → Dict String
  validate_and_update_host_header headers target =
      if any_key host_name.eq headers then headers else insert host_name.text target.host headers

  module _ {F : Foreign} where
    -- The `match` on the request.
    unfoldable pub with_host : RequestSpec F → Target → RequestSpec F
    with_host (RequestSpec.json_template_request r) target =
        RequestSpec.json_template_request
          (record r { headers = validate_and_update_host_header r.headers target })
    with_host (RequestSpec.random_data_request r) target =
        RequestSpec.random_data_request
          (record r { headers = validate_and_update_host_header r.headers target })
    with_host (RequestSpec.request_list r) target = RequestSpec.request_list r
    with_host (RequestSpec.request_file r) target = RequestSpec.request_file r
    with_host (RequestSpec.split_request_file r) target = RequestSpec.split_request_file r

    unfoldable pub from : RequestShadow F → Request F
    from value = record {
      name = value.name;
      duration = value.duration;
      target = value.target;
      req = with_host value.req value.target;
      qps = value.qps;
      concurrent_connection = value.concurrent_connection;
      connection_keep_alive = value.connection_keep_alive;
      histogram_buckets = value.histogram_buckets;
      response_assertion = value.response_assertion;
      generation_mode = value.generation_mode;
    }

  validated :
      (headers : Dict String) (target : Target)
      → host_name.eq host_name.text ≡ true
      → any_key host_name.eq (validate_and_update_host_header headers target) ≡ true
  unfolding validate_and_update_host_header
  validated headers target h = elim (Bool-cases (any_key host_name.eq headers)) [
    | inl e ↦ rw e e
    | inr e ↦ rw e (any_key-insert host_name.eq host_name.text target.host headers h)
  ]

  validated_again :
      (headers : Dict String) (target : Target)
      → any_key host_name.eq headers ≡ true
      → validate_and_update_host_header headers target ≡ headers
  unfolding validate_and_update_host_header
  validated_again headers target h =
      ap (λ b. if b then headers else insert host_name.text target.host headers) h

  -- The look-up of a header in `new` and in `old`: the same, or the host of the target, where
  -- `old` has no host header.
  abbrev pub IsKept : (target : Target) (old new : Dict String) → String → Type 0
  IsKept target old new k =
      (lookup k new ≡ lookup k old)
      ⊎ ((any_key host_name.eq old ≡ false)
          × (k ≡ host_name.text)
          × (lookup k old ≡ none)
          × (lookup k new ≡ some target.host))

  validated_keeps :
      (headers : Dict String) (target : Target)
      → host_name.eq host_name.text ≡ true
      → (k : String) → IsKept target headers (validate_and_update_host_header headers target) k
  unfolding validate_and_update_host_header
  validated_keeps headers target h k = elim (Bool-cases (any_key host_name.eq headers)) [
    | inl e ↦ inl (rw e refl)
    | inr e ↦ elim (Bool-cases (Text.◌==◌ k host_name.text)) [
      | inl b ↦ inr (
        e,
        (eq_iff k host_name.text).0 b,
        lookup-any_key host_name.eq k headers (ap host_name.eq ((eq_iff k host_name.text).0 b) ∙ h)
            e,
        rw e (
            lookup-insert host_name.text k target.host headers
            ∙ ap (λ b. if b then some target.host else lookup k headers) b),
      )
      | inr b ↦ inl (
          rw e (
            lookup-insert host_name.text k target.host headers
            ∙ ap (λ b. if b then some target.host else lookup k headers) b))
    ]
  ]

  -- The headers that a request carries in its own description.
  abbrev pub headers_of : {F : Foreign} → RequestSpec F → Option (Dict String)
  headers_of (RequestSpec.json_template_request r) = some r.headers
  headers_of (RequestSpec.random_data_request r) = some r.headers
  headers_of (RequestSpec.request_list r) = none
  headers_of (RequestSpec.request_file r) = none
  headers_of (RequestSpec.split_request_file r) = none

  -- What the headers `new` of a converted request with this target are to the headers `old` that
  -- were sent.
  pub record IsHosted (target : Target) (old new : Dict String) : Type 0 where
    pub hosted : any_key host_name.eq new ≡ true
    pub kept : (k : String) → IsKept target old new k

  abbrev pub IsOptionHosted : (target : Target) (old new : Option (Dict String)) → Type 0
  IsOptionHosted target (some old) (some new) = IsHosted target old new
  IsOptionHosted target none none = Unit
  IsOptionHosted target none (some new) = ⊥
  IsOptionHosted target (some old) none = ⊥

  validated-IsHosted :
      (headers : Dict String) (target : Target)
      → host_name.eq host_name.text ≡ true
      → IsHosted target headers (validate_and_update_host_header headers target)
  validated-IsHosted headers target h = record {
    hosted = validated headers target h;
    kept = λ k. validated_keeps headers target h k;
  }

  module _ {F : Foreign} where
    with_host-IsHosted :
        (req : RequestSpec F) (target : Target)
        → host_name.eq host_name.text ≡ true
        → IsOptionHosted target (headers_of req) (headers_of (with_host req target))
    unfolding with_host
    with_host-IsHosted (RequestSpec.json_template_request r) target h =
        validated-IsHosted r.headers target h
    with_host-IsHosted (RequestSpec.random_data_request r) target h =
        validated-IsHosted r.headers target h
    with_host-IsHosted (RequestSpec.request_list r) target h = tt
    with_host-IsHosted (RequestSpec.request_file r) target h = tt
    with_host-IsHosted (RequestSpec.split_request_file r) target h = tt

    with_host_idem :
        (req : RequestSpec F) (target : Target)
        → host_name.eq host_name.text ≡ true
        → with_host (with_host req target) target ≡ with_host req target
    unfolding with_host
    with_host_idem (RequestSpec.json_template_request r) target h =
        ap (λ m. RequestSpec.json_template_request (record r { headers = m }))
          (validated_again _ target (validated r.headers target h))
    with_host_idem (RequestSpec.random_data_request r) target h =
        ap (λ m. RequestSpec.random_data_request (record r { headers = m }))
          (validated_again _ target (validated r.headers target h))
    with_host_idem (RequestSpec.request_list r) target h = refl
    with_host_idem (RequestSpec.request_file r) target h = refl
    with_host_idem (RequestSpec.split_request_file r) target h = refl

    pub record IsConverted (value : RequestShadow F) : Type 0 where
      pub headers : IsOptionHosted value.target (headers_of value.req) (headers_of (from value).req)
      pub again : from (record value { req = (from value).req }) ≡ from value

    -- If the name of the host header equals itself, then a converted request whose description has
    -- headers has a host header, and the look-up of every header finds what was sent, except that
    -- the host header is the host of the target where none was sent. A description without headers
    -- gets none. A converted request that is converted again is unchanged.
    pub from-IsConverted :
        (value : RequestShadow F) → host_name.eq host_name.text ≡ true → IsConverted value
    unfolding from
    from-IsConverted value h = record {
      headers = with_host-IsHosted value.req value.target h;
      again = ap (λ r. record (from value) { req = r }) (with_host_idem value.req value.target h);
    }
