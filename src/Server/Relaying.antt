-- ===== src/Server/Relaying.antt =====
-- A node of a cluster hands its requests to the primary, and gives back what that answers.
use Prim.Native.String
use Prim.Native.String.{String}
use overload.Common.{
  ℕ, ◌≡◌, refl, ap, ◌∙◌, sym, subst, true, false, none, some, List, [], ◌∷◌, inl, inr,
}
use overload.Common.Decimal.{show}
use overload.Common.Dict.{Dict}
use overload.Common.Ensures.{Returns, returns}
use overload.Jobs.{JobStatus}
use overload.Names.{job_id}
use overload.Server.Relay.{
  GenericResult, ok, err, GenericError, new, internal_500, and_then, or_500, HttpRequest, Wire,
  Primaries, primary_uri, build, forward_other_requests_to_primary, send_stop,
  forward_stop_request_to_primary, send_upload, ClusterView, stop, handle_file_upload, save_sqlite,
}

-- What a relayed answer becomes: that of the primary, and an error of another kind.
abbrev pub IsRelayedAs :
    GenericResult (List (String × String)) → GenericResult (List (String × String)) → Type 0
IsRelayedAs (ok data') answer = answer ≡ ok data'
IsRelayedAs (err e) answer = (e' : String) × (answer ≡ err (internal_500 e'))

module _ (wire : Wire) where
  -- The wire carries `req` to a primary whose result is `result`: an answer is read back as the same
  -- map, and an error, whose code is a number, is not read as a map of texts.
  pub record Carries (req : HttpRequest wire.Bytes)
      (result : GenericResult (List (String × String))) : Type 0 where
    pub reply : wire.Bytes
    pub builds : wire.build_error req ≡ none
    pub sends : wire.send req ≡ inr reply
    pub reads :
        (data' : List (String × String)) → result ≡ ok data' → wire.read_map reply ≡ inr data'
    pub rejects :
        (e : GenericError) → result ≡ err e → (e' : String) × (wire.read_map reply ≡ inl e')

  read-IsRelayedAs :
      (reply : wire.Bytes) (result : GenericResult (List (String × String)))
      → ((data' : List (String × String)) → result ≡ ok data' → wire.read_map reply ≡ inr data')
      → ((e : GenericError) → result ≡ err e → (e' : String) × (wire.read_map reply ≡ inl e'))
      → IsRelayedAs result (or_500 (wire.read_map reply))
  unfolding or_500
  read-IsRelayedAs reply (ok data') reads rejects = ap or_500 (reads data' refl)
  read-IsRelayedAs reply (err e) reads rejects =
      let (e', rejected) = rejects e refl in (e', ap or_500 rejected)

  carried :
      (req : HttpRequest wire.Bytes) (result : GenericResult (List (String × String)))
      → Carries req result
      → IsRelayedAs result
          (and_then (build wire req) (forward_other_requests_to_primary wire wire.read_map))
  unfolding build forward_other_requests_to_primary and_then or_500
  carried req result c =
      subst (IsRelayedAs result)
        (sym (
          ap
            (λ o.
              and_then (elim o [ none ↦ ok req | some e ↦ err (new e 400) ])
                (forward_other_requests_to_primary wire wire.read_map))
            c.builds
          ∙ ap (λ o. and_then (or_500 o) (λ bytes. or_500 (wire.read_map bytes))) c.sends))
        (read-IsRelayedAs c.reply result c.reads c.rejects)

  abbrev pub stop_request : (uri job_id : String) → HttpRequest wire.Bytes
  stop_request uri job_id = record {
    uri = String.◌++◌ uri (String.◌++◌ "/test/stop" (String.◌++◌ "/" job_id));
    method = "GET";
    headers = [];
    body = wire.empty;
  }

  stop-forwarded :
      (cluster : ClusterView) (job_id : String) (own : Dict JobStatus)
      → cluster.is_active ≡ true
      → cluster.is_primary ≡ false
      → stop wire cluster job_id own
        ≡ (forward_stop_request_to_primary wire job_id cluster.primaries, own)
  unfolding stop
  stop-forwarded cluster job_id own active other = rw active (rw other refl)

  stop-sent :
      (primaries : Primaries) (uri job_id : String)
      → primary_uri primaries ≡ some uri
      → forward_stop_request_to_primary wire job_id primaries
        ≡ and_then
            (build wire (stop_request uri job_id))
            (forward_other_requests_to_primary wire wire.read_map)
  unfolding forward_stop_request_to_primary send_stop
  stop-sent primaries uri job_id found = ap (send_stop wire job_id) found

  -- An active node that is not the primary, and whose request to stop a job the wire carries to the
  -- primary, answers what the primary answers to it, or an internal error if that answers an error,
  -- and leaves its own jobs alone.
  pub stop-IsRelayed :
      (cluster primary : ClusterView) (uri job_id : String) (own jobs : Dict JobStatus)
      → cluster.is_active ≡ true
      → cluster.is_primary ≡ false
      → primary_uri cluster.primaries ≡ some uri
      → Carries (stop_request uri job_id) (stop wire primary job_id jobs).0
      → IsRelayedAs (stop wire primary job_id jobs).0 (stop wire cluster job_id own).0
        × ((stop wire cluster job_id own).1 ≡ own)
  stop-IsRelayed cluster primary uri job_id own jobs active other found c =
      let forwarded = stop-forwarded cluster job_id own active other in
      (
        subst (IsRelayedAs (stop wire primary job_id jobs).0)
            (sym (ap (λ r. r.0) forwarded ∙ stop-sent cluster.primaries uri job_id found))
            (carried (stop_request uri job_id) (stop wire primary job_id jobs).0 c),
        ap (λ r. r.1) forwarded,
      )

  abbrev pub upload_request :
      (url : String) → List (String × String) → wire.Bytes → HttpRequest wire.Bytes
  upload_request url headers stream = record {
    uri = url;
    method = "POST";
    headers = headers;
    body = stream;
  }

  -- The upload of a file or of a table by an active node that is not the primary, and whose request
  -- the wire carries to the primary, gives what the upload gives there, or an internal error if that
  -- is an error.
  pub save_sqlite-IsRelayed :
      (cluster : ClusterView) (uri csv_url sqlite_url encoding : String) (len : ℕ)
      (data' : wire.Bytes) (own saved : GenericResult (List (String × String)))
      → cluster.is_active ≡ true
      → cluster.is_primary ≡ false
      → primary_uri cluster.primaries ≡ some uri
      → wire.join uri "/request-file/csv" ≡ some csv_url
      → wire.join uri "/request-file/sqlite" ≡ some sqlite_url
      → Carries (upload_request csv_url (("content-length", show len) ∷ []) data') saved
      → Carries
          (upload_request sqlite_url
            (("content-length", show len) ∷ ("content-encoding", encoding) ∷ [])
            data')
          saved
      → Returns (IsRelayedAs saved) (handle_file_upload wire cluster own data' len)
        × Returns (IsRelayedAs saved) (save_sqlite wire cluster own data' len encoding)
  unfolding handle_file_upload save_sqlite send_upload
  save_sqlite-IsRelayed cluster uri csv_url sqlite_url encoding len data' own saved active other
        found csv sqlite c d =
      (
        rw active (rw other (rw found (rw csv (returns (carried _ saved c))))),
        rw active (rw other (rw found (rw sqlite (returns (carried _ saved d))))),
      )
