-- ===== src/Plugin/BifrostServer/Routes.antt =====
-- What the proxy answers to requests for itself.
use mathlib.Core.List.{reverse}
use bifrost_core.Prelude.{
  ℕ, ◌≡◌, ◌≢◌, refl, Bool, true, false, some, List, [], ◌∷◌, take, arith, Bool-cases, inl, inr,
  if◌then◌else◌,
}
use bifrost_core.Prelude.Exec.{Outcome, Exec, ok, err, panic, pure, lift}
use bifrost_core.Prelude.Text.{Str, codes, str_eq}
use bifrost_core.Http.{header_text, Request, Reply, options_method}
use bifrost_core.NetworkRecord.{NetworkRecord}
use bifrost_core.Store.{Store}
use bifrost_core.Global.{Global, on_store}
use bifrost_core.Plugin.Json.{Value, string, Serde}
use bifrost_core.Plugin.BifrostServer.{
  wrapped, handle_not_found, handle_get_record, handle_config, handle_traffic_stats, route,
  host_server, json_reply, code_and, record_json, collect, array_of, config_json, stats_json,
  options_reply, not_found_json, not_found_reply,
}

-- The reply lets any origin read it.
abbrev pub HasCors : Reply → Type 0
HasCors reply = header_text (codes "access-control-allow-origin") reply.headers ≡ some (codes "*")

abbrev pub is_ok {ℓ} : {A : Type ℓ} → Outcome A → Bool
is_ok (ok a) = true
is_ok _ = false

-- The status for a path, where `records_ok` says whether the records could be turned into JSON.
abbrev pub path_status : Str → Bool → ℕ
path_status path records_ok =
    if str_eq path (codes "/")
    then 200
    else if str_eq path (codes "/config")
    then 200
    else if str_eq path (codes "/get_record")
    then (if records_ok then 200 else 500)
    else if str_eq path (codes "/traffic_stats")
    then 200
    else 404

options_reply-HasCors : HasCors options_reply
unfolding header_text str_eq
options_reply-HasCors = refl

json_reply-HasCors : (serde : Serde) (status : ℕ) (v : Value) → HasCors (json_reply serde status v)
unfolding header_text str_eq
json_reply-HasCors serde status v = refl

module _ (serde : Serde) where
  -- A reply with the status that the outcome of a handler asks for.
  record Answers (status : ℕ) (g : Global) (m : Exec Global Reply) : Type 0 where
    reply : Reply
    answered : m g ≡ (ok reply, g)
    has_status : reply.status ≡ status
    has_cors : HasCors reply

  wrapped-Answers :
      (handler : Exec Global Value) (g : Global) (r : Outcome Value)
      → handler g ≡ (r, g)
      → r ≢ panic
      → Answers (if is_ok r then 200 else 500) g (wrapped serde handler)
  unfolding wrapped
  wrapped-Answers handler g (ok v) e h = record {
    reply = json_reply serde 200 (code_and 0 (codes "data") v);
    answered = rw e refl;
    has_status = refl;
    has_cors = json_reply-HasCors serde 200 (code_and 0 (codes "data") v);
  }
  wrapped-Answers handler g (err x) e h = record {
    reply = json_reply serde 500 (code_and 1 (codes "message") (string x));
    answered = rw e refl;
    has_status = refl;
    has_cors = json_reply-HasCors serde 500 (code_and 1 (codes "message") (string x));
  }
  wrapped-Answers handler g panic e h = absurd (h refl)

  -- What `/get_record` turns into JSON.
  pub records_of : Store → Outcome (List Value)
  records_of s = collect serde (take 10 (reverse s.network_records))

  module _ (can_print : (r : NetworkRecord) → serde.to_value r ≢ panic) where
    record_json-ne-panic : (r : NetworkRecord) → record_json serde r ≢ panic
    unfolding record_json
    record_json-ne-panic r = ground (arith, can_print r)

    collect-ne-panic : (rs : List NetworkRecord) → collect serde rs ≢ panic
    unfolding collect
    collect-ne-panic [] = cc
    collect-ne-panic (r ∷ rs) = ground (arith, record_json-ne-panic r, collect-ne-panic rs)

    array_of-ne-panic : (o : Outcome (List Value)) → o ≢ panic → array_of o ≢ panic
    array_of-ne-panic (ok vs) h = cc
    array_of-ne-panic (err e) h = cc
    array_of-ne-panic panic h = absurd (h refl)

    is_ok-array_of : (o : Outcome (List Value)) → is_ok (array_of o) ≡ is_ok o
    is_ok-array_of (ok vs) = refl
    is_ok-array_of (err e) = refl
    is_ok-array_of panic = refl

    module _ (s : Store) (g : Global) (ready : g.context ≡ some s) where
      get_record-Answers :
          Answers
            (if is_ok (records_of s) then 200 else 500)
            g
            (wrapped serde (handle_get_record serde))
      get_record-Answers = rw (← is_ok-array_of (records_of s)) (
          wrapped-Answers (handle_get_record serde) g (array_of (records_of s))
            (unfold handle_get_record records_of in unfold on_store in rw ready refl)
            (array_of-ne-panic (records_of s)
              (unfold records_of in collect-ne-panic (take 10 (reverse s.network_records)))))

      root-Answers : Answers 200 g (wrapped serde (pure (string (codes "Bifrost is working"))))
      root-Answers =
          wrapped-Answers (pure (string (codes "Bifrost is working"))) g
            (ok (string (codes "Bifrost is working"))) refl (cc)

      config-Answers : Answers 200 g (wrapped serde handle_config)
      config-Answers =
          wrapped-Answers (handle_config) g (ok (config_json s.config))
            (unfold handle_config in rw ready refl) (cc)

      stats-Answers : Answers 200 g (wrapped serde (handle_traffic_stats serde))
      stats-Answers =
          wrapped-Answers (handle_traffic_stats serde) g (ok (stats_json serde s.traffic_stats))
            (unfold handle_traffic_stats in rw ready refl) (cc)

      not_found-Answers : Answers 404 g (lift (handle_not_found serde))
      unfolding handle_not_found
      not_found-Answers = record {
        reply = not_found_reply serde;
        answered = refl;
        has_status = refl;
        has_cors = json_reply-HasCors serde 404 not_found_json;
      }

      route-Answers :
          (path : Str) → Answers (path_status path (is_ok (records_of s))) g (route serde path)
      unfolding route
      route-Answers path = elim (Bool-cases (str_eq path (codes "/"))) [
        | inl here ↦ rw here root-Answers
        | inr no_root ↦ elim (Bool-cases (str_eq path (codes "/config"))) [
          | inl here ↦ rw (no_root, here) config-Answers
          | inr no_config ↦ elim (Bool-cases (str_eq path (codes "/get_record"))) [
            | inl here ↦ rw (no_root, no_config, here) get_record-Answers
            | inr no_record ↦ elim (Bool-cases (str_eq path (codes "/traffic_stats"))) [
              | inl here ↦ rw (no_root, no_config, no_record, here) stats-Answers
              | inr no_stats ↦ rw (no_root, no_config, no_record, no_stats) not_found-Answers
            ]
          ]
        ]
      ]

    -- On an initialised store, and where turning a record into JSON does not panic, every request
    -- for the proxy itself is answered without an error and without a change to the global state.
    -- The status is 200 for OPTIONS and for the four known paths, 500 for `/get_record` if a
    -- record could not be turned into JSON, and 404 for any other path; and each of these replies
    -- lets every origin read it.
    pub host_server-answers :
        (req : Request) (s : Store) (g : Global)
        → g.context ≡ some s
        → (reply : Reply) × (host_server serde req g ≡ (ok reply, g))
          × (reply.status ≡ (
              if str_eq req.method options_method
              then 200
              else path_status req.uri.path (is_ok (records_of s))))
          × HasCors reply
    unfolding host_server
    host_server-answers req s g ready = elim (Bool-cases (str_eq req.method options_method)) [
      | inl preflight ↦ (options_reply, rw preflight refl, rw preflight refl, options_reply-HasCors)
      | inr other ↦
          (let a = route-Answers s g ready req.uri.path in
            (a.reply, rw other a.answered, rw other a.has_status, a.has_cors))
    ]
