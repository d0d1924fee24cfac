-- ===== src/Names.antt =====
-- The name of a job: `job_id` of overload/src/overload/lib.rs, and of cluster-executor/src/secondary.rs.
pub mod Tests
use Prim.Native.String
use Prim.Native.String.{String}
use overload.Common.{◌≡◌, ap, ◌∙◌, refl, Bool, true, false, Option, none, some, if◌then◌else◌}

-- The regular expression of an id, and `trim`.
pub record Matching : Type 0 where
  pub is_match : String → Bool
  pub trim : String → String

-- `new_v4` is a new id.
unfoldable pub job_id : Matching → (new_v4 : String) → (request_name : Option String) → String
job_id text new_v4 none = new_v4
job_id text new_v4 (some n) =
    if text.is_match n then n else String.◌++◌ (text.trim n) (String.◌++◌ "-" new_v4)

-- Every text that ends in a new id matches.
pub record EndsInId (text : Matching) (new_v4 : String) : Type 0 where
  pub alone : text.is_match new_v4 ≡ true
  pub behind : (s : String) → text.is_match (String.◌++◌ s (String.◌++◌ "-" new_v4)) ≡ true

if-is_match :
    (text : Matching) (n other : String)
    → text.is_match n ≡ true
    → (if text.is_match n then n else other) ≡ n
if-is_match text n other h = ap (λ b. if b then n else other) h

-- A name that was given once is kept by every node that the request is forwarded to, if a text
-- that ends in a new id is taken for a name with an id.
pub job_id_idem :
    (text : Matching) (id later : String) (request_name : Option String)
    → EndsInId text id
    → job_id text later (some (job_id text id request_name)) ≡ job_id text id request_name
unfolding job_id
job_id_idem text id later none h = if-is_match text id _ h.alone
job_id_idem text id later (some n) h = go (text.is_match n) refl
  where
    named : String
    named = String.◌++◌ (text.trim n) (String.◌++◌ "-" id)

    go :
        (b : Bool)
        → text.is_match n ≡ b
        → (if text.is_match (if b then n else named)
            then (if b then n else named)
            else String.◌++◌ (text.trim (if b then n else named)) (String.◌++◌ "-" later))
          ≡ (if b then n else named)
    go true e = if-is_match text n _ e
    go false e = if-is_match text named _ (h.behind (text.trim n))
