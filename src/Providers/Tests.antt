-- ===== src/Providers/Tests.antt =====
-- A table of ten rows, of which the file reads rows 3 to 5, and requests with a random number in the
-- URL and in the body.
use overload.Common.{
  ℕ, ◌-◌, ◌≡◌, refl, [], ◌∷◌, map, some, none, false, arith, count_up, ◌>>=◌, length, All,
}
use overload.Samples.{foreign}
use overload.Http.{HttpReq, SplitRequestFile, RandomDataRequest}
use overload.Providers.{ok, Sqlite, open_file, split_get_n}
use overload.Providers.Cycle.{IsTable, IsInRange, split_get_n-walk}
use overload.Providers.RandomData.{Printing, random_get_n}
use overload.Providers.Rendered.{IsRendered, random_get_n-IsRendered}
use overload.Providers.Template.{Template, literal, then_param}
use overload.Providers.UrlParams.{
  find_param_positions, push_matches, heap_push, sift_up, put_at, substitute_param_with_data,
  substitute_one, replace_range, text_of, show_i64,
}
use overload.Common.Ensures.{Returns}
use overload.Common.Decimal.{show}
use overload.Datagen.{DataSchema, cons, nil}
use overload.Datagen.Conformance.{IsSafe, and_next, none_left}
use overload.Datagen.Tests.{numbers, draws, range, range-IsValidMap}
use overload.Datagen.Validity.{IsValid, IsValidAs, root, and_schema, no_schema}
use overload.Json.{Value, field, end}
use overload.Json.Access.{get, look_up}

abbrev req : ℕ → HttpReq
req row = record { id = ""; method = "GET"; url = "/get"; body = none; headers = [] }

abbrev db : Sqlite foreign
db = record {
  connect = λ file. some 1;
  count = λ connection. some 10;
  select_range = λ connection start end. some (map req (count_up start (end - start)));
}

table : IsTable db 1 10
table = record { row = req; selects = λ start end h k. refl }

abbrev file : SplitRequestFile foreign
file = record {
  file_name = "data.sqlite";
  inner = none;
  size = 2147483647;
  range_start_inclusive = 3;
  range_end_inclusive = 5;
  next_read_cursor = 3;
}

abbrev opened : SplitRequestFile foreign
opened = record file { inner = some 1; size = 10 }

opens : open_file db file ≡ (some 1, opened)
unfolding open_file
opens = refl

opened-IsInRange : IsInRange 10 opened
opened-IsInRange = record {
  from_one = omega arith;
  begun = omega arith;
  inside = omega arith;
  within = omega arith;
}

split_get_n-walk_example :
    (split_get_n db 8 file 7
      ≡ (ok (map req (3 ∷ 4 ∷ 5 ∷ 3 ∷ 4 ∷ 5 ∷ 3 ∷ [])), record opened { next_read_cursor = 4 }))
    × IsInRange 10 (record opened { next_read_cursor = 4 })
unfolding table
split_get_n-walk_example =
    split_get_n-walk db 1 10 table 8 7 file opened opens opened-IsInRange (omega arith)
      (omega arith) (omega arith)

abbrev id_schema : DataSchema foreign
id_schema = DataSchema.object none (cons (DataSchema.integer "id" range) nil)

abbrev user_url : Template
user_url = then_param (literal "/users/") "id" "/posts"

abbrev printing : Printing foreign
printing = record { find_iter = λ url. (7, 11) ∷ []; to_string = λ value. "a value" }

abbrev random_posts : RandomDataRequest foreign
random_posts = record {
  init = false;
  method = "POST";
  url = "/users/{id}/posts";
  url_param_pos = none;
  headers = [];
  body_schema = some id_schema;
  uri_param_schema = some id_schema;
}

id_schema-IsValid : IsValid id_schema
id_schema-IsValid = root (and_schema (IsValidAs.integer range-IsValidMap) no_schema)

id_schema-IsSafe : IsSafe id_schema
id_schema-IsSafe = IsSafe.object (and_next IsSafe.integer none_left)

random_get_n-IsRendered_example :
    Returns
      (λ r.
        (length r.0 ≡ 2)
        × All (IsRendered numbers draws printing random_posts user_url id_schema) r.0)
      (random_get_n numbers draws printing random_posts 2 0)
random_get_n-IsRendered_example =
    random_get_n-IsRendered numbers draws printing random_posts user_url id_schema 2 0 refl refl
      (omega arith) refl refl id_schema-IsValid id_schema-IsSafe
      (id_schema-IsValid, id_schema-IsSafe)

abbrev three_ids : Value ℕ
three_ids =
    Value.object
      (field "a" (Value.number 1) (field "b" (Value.number 2) (field "c" (Value.number 3) end)))

-- The heap of three parameters has the second one last, as its positions have moved.
corrupts_third :
    (find_param_positions (λ url. (1, 4) ∷ (5, 8) ∷ (9, 12) ∷ []) "/{a}/{b}/{c}" >>= λ positions.
    substitute_param_with_data numbers.number_i64 "/{a}/{b}/{c}" positions three_ids)
    ≡ some "/1/{b2"
unfolding find_param_positions push_matches heap_push sift_up put_at substitute_param_with_data
    substitute_one replace_range text_of show_i64 show get look_up
corrupts_third = refl
