-- ===== src/Executor/Downloads.antt =====
-- What is in the file system after the data file of a test was downloaded, or was not.
use Prim.Native.String.{String}
use text.Mathlib.Text.{◌==◌}
use overload.Common.{
  is_some, Bool, true, false, Option, none, some, if◌then◌else◌, ◌>>=◌, ◌≡◌, refl, ap, ◌∙◌, subst,
  ◌⊎◌, inl, inr, Bool-cases, arith,
}
use overload.Common.Dict.{Dict, lookup, insert, lookup-insert, lookup-insert_self}
use overload.Common.Ensures.{Ensures, gives, value_of, Returns, returns, ◌⟫◌, anything}
use overload.Executor.Preparing.{
  Fetched, invalid_request, client_error, body, Prepared, ok, failed, DataSource, copy,
  download_file_from_url, exists, download_request_file_from_primary,
  initiator_for_request_from_primary, prepare,
}
use overload.Foreign.{Foreign}
use overload.Http.{RequestSpec, Request}

-- The data file of a test.
abbrev pub file_of : {F : Foreign} → RequestSpec F → Option String
file_of (RequestSpec.request_file req) = some req.file_name
file_of (RequestSpec.split_request_file req) = some req.file_name
file_of _ = none

module _ {Contents : Type 0} where
  -- Only the file at `path` may have changed.
  abbrev pub IsKept : (path : String) (before after : Dict Contents) → Type 0
  IsKept path before after = (j : String) → (j == path) ≡ false → lookup j after ≡ lookup j before

  insert-IsKept :
      (path : String) (c : Contents) (files : Dict Contents)
      → IsKept path files (insert path c files)
  insert-IsKept path c files j h =
      lookup-insert path j c files ∙ ap (λ b. if b then some c else lookup j files) h

  -- `got` are the bodies that the primary sent as a whole.
  abbrev pub IsThere :
      (path : String) (got : Contents → Type 0) (before after : Dict Contents) → Prepared → Type 0
  IsThere path got before after failed = Unit
  IsThere path got before after ok =
      (c : Contents) × (lookup path after ≡ some c) × ((lookup path before ≡ some c) ⊎ got c)

  copied :
      (path : String) (got : Contents → Type 0) (answer : Fetched Contents)
      (before files : Dict Contents)
      → ((c : Contents) → answer ≡ body c true → got c)
      → IsKept path before files
      → IsKept path before (copy path answer files).1
        × IsThere path got before (copy path answer files).1 (copy path answer files).0
  unfolding copy
  copied path got invalid_request before files h k = (k, tt)
  copied path got client_error before files h k = (k, tt)
  copied path got (body c true) before files h k = (
    λ j e. insert-IsKept path c files j e ∙ k j e,
    (c, lookup-insert_self path c files, inr (h c refl)),
  )
  copied path got (body c false) before files h k =
      (λ j e. insert-IsKept path c files j e ∙ k j e, tt)

  is_some-value : (o : Option Contents) → is_some o ≡ true → (c : Contents) × (o ≡ some c)
  is_some-value none h = absurd (ground arith)
  is_some-value (some c) h = (c, refl)

  exists-value :
      (env : DataSource Contents) (path : String) (files : Dict Contents)
      → exists env path files ≡ true
      → (c : Contents) × (lookup path files ≡ some c)
  unfolding exists
  exists-value env path files h = is_some-value (lookup path files) (ground arith)

  -- The primary's URL for the file.
  abbrev pub IsAddressed : DataSource Contents → (primary_uri path url : String) → Type 0
  IsAddressed env primary_uri path url =
      (name : String) × (env.file_name path ≡ some name)
      × (env.data_file_url primary_uri name ≡ some url)

  abbrev pub IsDownloaded :
      DataSource Contents
      → (url : String) → Dict Contents
      → (path : String) → Prepared × Dict Contents
      → Type 0
  IsDownloaded env url files path r =
      IsKept path files r.1 × IsThere path (λ c. env.get url ≡ body c true) files r.1 r.0

  fresh-IsDownloaded :
      (env : DataSource Contents) (primary_uri path url : String) (files : Dict Contents)
      (creatable : Bool)
      → IsAddressed env primary_uri path url
      → Returns (IsDownloaded env url files path) (
          if creatable
          then (env.file_name path >>= λ filename.
              download_file_from_url env primary_uri filename path (insert path env.nothing files))
          else some (failed, files))
  unfolding download_file_from_url
  fresh-IsDownloaded env primary_uri path url files false (name, f, u) = returns ((λ j e. refl), tt)
  fresh-IsDownloaded env primary_uri path url files true (name, f, u) = rw f (
      rw u (
        returns (
          copied path (λ c. env.get url ≡ body c true) (env.get url) files
            (insert path env.nothing files) (λ c e. e) (insert-IsKept path env.nothing files))))

  download-IsDownloaded :
      (env : DataSource Contents) (primary_uri path url : String) (files : Dict Contents)
      → IsAddressed env primary_uri path url
      → Returns
          (IsDownloaded env url files path)
          (download_request_file_from_primary env path primary_uri files)
  unfolding download_request_file_from_primary
  download-IsDownloaded env primary_uri path url files a =
      elim (Bool-cases (exists env path files)) [
        | inl e ↦
            let there = exists-value env path files e in
            rw e (returns ((λ j h. refl), (there.0, there.1, inl there.1)))
        | inr e ↦ rw e (fresh-IsDownloaded env primary_uri path url files (env.is_creatable path) a)
      ]

  left_behind :
      (env : DataSource Contents) (primary_uri path : String) (files : Dict Contents)
      → env.is_creatable path ≡ true
      → Ensures
          (λ r. (c : Contents) × (lookup path r.1 ≡ some c))
          (download_request_file_from_primary env path primary_uri files)
  unfolding download_request_file_from_primary download_file_from_url copy
  left_behind env primary_uri path files creatable = elim (Bool-cases (exists env path files)) [
    | inl e ↦ rw e (gives (exists-value env path files e))
    | inr e ↦ rw e (
        rw creatable (
          anything (env.file_name path) ⟫ λ name u.
          anything (env.data_file_url primary_uri name) ⟫ λ url u. gives (created (env.get url))))
  ]
    where
      created :
          (answer : Fetched Contents)
          → (c : Contents) × (lookup path (copy path answer (insert path env.nothing files)).1
              ≡ some c)
      created invalid_request = (env.nothing, lookup-insert_self path env.nothing files)
      created client_error = (env.nothing, lookup-insert_self path env.nothing files)
      created (body c true) = (c, lookup-insert_self path c _)
      created (body c false) = (c, lookup-insert_self path c _)

  abbrev pub IsPrepared :
      DataSource Contents
      → (url : String) → Dict Contents
      → Option String
      → Prepared × Dict Contents
      → Type 0
  IsPrepared env url files none r = r ≡ (ok, files)
  IsPrepared env url files (some path) r = IsDownloaded env url files path r

  abbrev pub IsAddressedIf :
      DataSource Contents → (primary_uri url : String) → Option String → Type 0
  IsAddressedIf env primary_uri url none = Unit
  IsAddressedIf env primary_uri url (some path) = IsAddressed env primary_uri path url

  -- The preparation of a test, whose data file, if it has one, has the URL `url` at the primary, ends
  -- without a panic. Without a data file it succeeds and no file changes. With one no other file
  -- changes, and if it succeeds the file has what was in it before, or all that the primary sent.
  pub prepare-IsPrepared :
      {F : Foreign} (env : DataSource Contents) (request : Request F) (primary_uri url : String)
      (files : Dict Contents)
      → IsAddressedIf env primary_uri url (file_of request.req)
      → Returns
          (IsPrepared env url files (file_of request.req))
          (prepare env request primary_uri files)
  unfolding prepare initiator_for_request_from_primary
  prepare-IsPrepared {F} env request primary_uri url files = go request.req
    where
      go :
          (spec : RequestSpec F)
          → IsAddressedIf env primary_uri url (file_of spec)
          → Returns
              (IsPrepared env url files (file_of spec))
              (initiator_for_request_from_primary env spec primary_uri files)
      go (RequestSpec.request_file req) a =
          download-IsDownloaded env primary_uri req.file_name url files a
      go (RequestSpec.split_request_file req) a =
          download-IsDownloaded env primary_uri req.file_name url files a
      go (RequestSpec.random_data_request req) a = returns refl
      go (RequestSpec.request_list req) a = returns refl
      go (RequestSpec.json_template_request req) a = returns refl

  -- When the download of a file that may be created and looked at has failed, the next one succeeds
  -- at once, whatever the primary then sends, and keeps what the failed one left.
  pub failed_download-again :
      (env : DataSource Contents) (primary_uri path : String) (files left : Dict Contents)
      (get : String → Fetched Contents)
      → env.is_accessible path ≡ true
      → env.is_creatable path ≡ true
      → download_request_file_from_primary env path primary_uri files ≡ some (failed, left)
      → download_request_file_from_primary (record env { get = get }) path primary_uri left
        ≡ some (ok, left)
  unfolding download_request_file_from_primary exists
  failed_download-again env primary_uri path files left get accessible creatable e =
      let there =
        value_of (subst (Ensures _) e (left_behind env primary_uri path files creatable)) in
      rw accessible (rw there.1 refl)
