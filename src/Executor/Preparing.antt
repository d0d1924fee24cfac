-- ===== src/Executor/Preparing.antt =====
-- cluster-executor/src/secondary.rs: the data file of a test is downloaded from the primary. `none` is
-- a panic, behind which the files are not looked at.
use Prim.Native.String.{String}
use overload.Common.{is_some, Bool, true, false, Option, some, ◌&&◌, if◌then◌else◌, ◌>>=◌}
use overload.Common.Dict.{Dict, lookup, insert}
use overload.Foreign.{Foreign}
use overload.Http.{RequestSpec, Request}

-- What the client gets from a URL: no request, no answer, or a body, of which only a part may arrive.
pub data Fetched (Contents : Type 0) : Type 0 where
  invalid_request client_error : Fetched Contents
  body : Contents → (complete : Bool) → Fetched Contents

pub data Prepared : Type 0 where
  ok failed : Prepared

-- The file system with `PathBuf::file_name`, the URL that url makes of the host and the name of a
-- file, and the client. `is_accessible` says where `try_exists` has an answer, and `is_creatable`
-- where a file can be created.
pub record DataSource (Contents : Type 0) : Type 0 where
  pub is_accessible : String → Bool
  pub is_creatable : String → Bool
  pub file_name : String → Option String
  pub data_file_url : (host filename : String) → Option String
  pub get : String → Fetched Contents
  pub nothing : Contents

module _ {Contents : Type 0} where
  -- What the client got is copied into the file that was created; the status is not looked at.
  unfoldable pub copy :
      (path : String) → Fetched Contents → Dict Contents → Prepared × Dict Contents
  copy path invalid_request files = (failed, files)
  copy path client_error files = (failed, files)
  copy path (body contents true) files = (ok, insert path contents files)
  copy path (body contents false) files = (failed, insert path contents files)

  unfoldable pub download_file_from_url :
      DataSource Contents
      → (host filename path : String) → Dict Contents
      → Option (Prepared × Dict Contents)
  download_file_from_url env host filename path files = do
    url ← env.data_file_url host filename
    some (copy path (env.get url) files)

  unfoldable pub exists : DataSource Contents → String → Dict Contents → Bool
  exists env path files = env.is_accessible path && is_some (lookup path files)

  unfoldable pub download_request_file_from_primary :
      DataSource Contents
      → (path primary_uri : String) → Dict Contents
      → Option (Prepared × Dict Contents)
  download_request_file_from_primary env path primary_uri files =
      if exists env path files
      then some (ok, files)
      else (if env.is_creatable path
          then (do
            filename ← env.file_name path
            download_file_from_url env primary_uri filename path (insert path env.nothing files))
          else some (failed, files))

  unfoldable pub initiator_for_request_from_primary :
      {F : Foreign}
      → DataSource Contents
      → RequestSpec F
      → (primary_uri : String) → Dict Contents
      → Option (Prepared × Dict Contents)
  initiator_for_request_from_primary env (RequestSpec.request_file req) primary_uri files =
      download_request_file_from_primary env req.file_name primary_uri files
  initiator_for_request_from_primary env (RequestSpec.split_request_file req) primary_uri files =
      download_request_file_from_primary env req.file_name primary_uri files
  initiator_for_request_from_primary env (RequestSpec.random_data_request req) primary_uri files =
      some (ok, files)
  initiator_for_request_from_primary env (RequestSpec.request_list req) primary_uri files =
      some (ok, files)
  initiator_for_request_from_primary env (RequestSpec.json_template_request req) primary_uri files =
      some (ok, files)

  unfoldable pub prepare :
      {F : Foreign}
      → DataSource Contents
      → Request F
      → (primary_uri : String) → Dict Contents
      → Option (Prepared × Dict Contents)
  prepare env request primary_uri files =
      initiator_for_request_from_primary env request.req primary_uri files
