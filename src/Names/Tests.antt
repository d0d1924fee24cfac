-- ===== src/Names/Tests.antt =====
-- Names of which those of six characters or more count as names with an id.
use Prim.Native.String
use Prim.Native.String.{String, count}
use text.Mathlib.TextLemmas.{length-append}
use overload.Common.{◌≡◌, refl, some, leb, arith}
use overload.Names.{Matching, EndsInId, job_id}

abbrev pub matching : Matching
matching = record { is_match = λ s. leb 6 (count s); trim = λ s. s }

pub long_enough : EndsInId matching "1f2e3d"
long_enough = record {
  alone = refl;
  behind = λ s. ground (arith, length-append s (String.◌++◌ "-" "1f2e3d"));
}

first_name : job_id matching "1f2e3d" (some "load") ≡ "load-1f2e3d"
unfolding job_id
first_name = refl
