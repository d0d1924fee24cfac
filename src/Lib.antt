-- ===== src/Lib.antt =====
-- overload is a load generator for HTTP. A request describes a test: a target, where the requests
-- come from, how many of them each second gets, and how many connections. A node that runs alone,
-- or the primary of a cluster, turns the description into a stream with one pair of rates for each
-- second, and sends every pair to the executors, which send the requests.
--
-- The files, and the code of the repository that they are about:
--   RateSpec and below      overload-http/src/rate_spec.rs, cluster-executor/src/rate_spec.rs: the
--                           rates of a second, and the validation of steps (`steps_try_from`)
--   Http                    overload-http/src/lib.rs, request_specs.rs, common-types/src/lib.rs: the
--                           types of a request
--   Datagen and below       datagen/src/lib.rs: Parsing reads a schema (`data_schema_from_value`),
--                           Drawing generates data for it (`generate_data`); what is drawn is a
--                           parameter, numbered in the order of the calls
--   Http.Conversion         overload-http/src/lib.rs: `From<RequestShadow>`, the host header
--   Generator and below     cluster-executor/src/lib.rs: `RequestGenerator`, the stream of rates
--   Providers and below     cluster-executor/src/request_providers.rs: `get_n` of a list, of a file
--                           that is split among executors, and of random data; UrlParams is
--                           `find_param_positions` and what follows it in
--                           overload-http/src/request_specs.rs
--   Split and below         cluster-executor/src/split_request.rs: the ranges of the split
--                           and the requests with a range
--   Messages, Primary       cluster-executor/src/lib.rs, primary.rs: what the primary sends
--   Primary.Session, below  cluster-executor/src/primary.rs: `handle_request`, the run of one test
--   Standalone and below    cluster-executor/src/standalone.rs: the run of one test on a node alone
--   HttpFuture and below    cluster-executor/src/lib.rs: `HttpRequestFuture`; Driving is its task,
--                           Straight the request as a straight line
--   Pool and below          cluster-executor/src/connection.rs: `QueuePool`; its steps by the owner,
--                           spawned tasks and requests in flight are a relation
--   Jobs and below          cluster-executor/src/lib.rs, overload/src/overload/standalone.rs,
--                           cluster/mod.rs: the registry `JOB_STATUS` and its handlers
--   Assert and below        response-assert/src/lib.rs: `simple_assert`, the check of a response
--   Status and below        overload-http/src/lib.rs, overload/src/filters_cluster.rs,
--                           overload/src/overload/cluster/mod.rs, secondary.rs: the status route, its
--                           query, and the forwarding of it by a secondary
--   Server and below        overload/src/overload: `handle_request` and `handle_multi_request` of
--                           standalone.rs, the handlers of posted tests of cluster/mod.rs, and
--                           `pre_check` of lib.rs; Relay is the stop and the uploads of
--                           cluster/mod.rs, and the forwarding of cluster/secondary.rs
--   Names                   overload/src/overload/lib.rs: `job_id`
--   Executor and below      cluster-executor/src/secondary.rs: Session and Connection are the
--                           handlers of a primary's connection, Registry the pools of the jobs, Cycle
--                           the requests of one second, Filling the repeating of requests,
--                           Preparing the download of the data file of a test
--   Foreign, Json           what is taken from other crates: the types, and the functions used
--   Common                  integers, lists, maps and texts shared by all parts
--   Samples, and every Tests file: concrete values, runs of the code and instances of the results
--
-- How the code is read. A `u32` is a natural number, and an addition that can pass 2 ^ 32 is taken
-- modulo 2 ^ 32, as a release build does. A panic is `none` or `panicked`. `Result` is a type of
-- results or an `Option`. A `HashMap` that is only walked is the list of its entries in the order of
-- the walk; the `BTreeMap` of the jobs is the list of its entries in the order of the keys. Code
-- behind an `await` that belongs to another crate, the network and SQLite, is a parameter: `World`
-- says which attempts to send succeed, `Sqlite` what the database answers. `Foreign` collects the
-- types and functions of other crates and the arithmetic of floating point.
-- A `oneshot` receiver of tokio that has answered once, with an error or not, is taken to panic when
-- it is awaited again. The unwraps of what the cluster knows, the host of the own node and the ids of
-- the secondaries, are panics as well; the theorems that exclude them say so (`IsIdentified`).
--
-- Loops run on fuel where they do not follow a list. `split_get_n` is given `n + 1` rounds for `n`
-- rows, since every round reads a row; `collect` and the loop of `handle_request` get one more
-- than the seconds of the test, since every round polls one second. The loop of an executor's
-- second gets one more than the round in which the clock says that the time is up, and the filling
-- up of requests twice the number of connections and one, since it starts over after a request at
-- least. What other tasks do between two seconds of a test, to the registry of jobs and in the
-- cluster, is a parameter of the run.
--
-- Not modelled: logging, the routes of warp, the tables of SQLite that an upload fills, discovery
-- and elections of the cluster, the connections' traffic, requests from a whole file and from JSON
-- templates, the scripts of Lua and of rhai, and the registration of metrics.
pub mod Common
pub mod HttpFuture
pub mod Jobs
pub mod Json
pub mod Assert
pub mod Datagen
pub mod Executor
pub mod Foreign
pub mod Generator
pub mod Http
pub mod Messages
pub mod Names
pub mod Pool
pub mod Primary
pub mod Providers
pub mod RateSpec
pub mod Samples
pub mod Split
pub mod Standalone
pub mod Server
pub mod Status
