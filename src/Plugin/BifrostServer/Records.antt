-- ===== src/Plugin/BifrostServer/Records.antt =====
-- What `/get_record` shows of the records.
use mathlib.Core.List.{reverse}
use bifrost_core.Prelude.{
  suc, ◌≤◌, ◌≡◌, ◌≢◌, refl, ap, some, List, [], ◌∷◌, arith, All, length, length-take-le, take, inl,
  inr, Bool-cases,
}
use bifrost_core.Prelude.Exec.{Outcome, ok, err, panic}
use bifrost_core.Prelude.Text.{Str, codes, str_eq, ne_of_str_eq}
use bifrost_core.NetworkRecord.{NetworkRecord}
use bifrost_core.Store.{Store}
use bifrost_core.Global.{Global, on_store}
use bifrost_core.Plugin.Json.{
  Value, null, bool, num, string, array, object, Fields, end, field, Serde, remove, keys, of_list,
}
use bifrost_core.Plugin.BifrostServer.{
  strip, record_json, collect, collect_cons, array_of, handle_get_record,
}

abbrev pub HasNoBody : Value → Type 0
HasNoBody (object fields) =
    All (λ k. (k ≢ codes "request_body") × (k ≢ codes "response_body")) (keys fields)
HasNoBody _ = Unit

All-remove :
    (P : Str → Type 0) (key : Str) (fs : Fields) → All P (keys fs) → All P (keys (remove key fs))
unfolding remove
All-remove P key end h = tt
All-remove P key (field k v fs) h = elim (Bool-cases (str_eq k key)) [
  | inl e ↦ rw e (All-remove P key fs h.1)
  | inr e ↦ rw e (h.0, All-remove P key fs h.1)
]

remove-ne : (key : Str) (fs : Fields) → All (λ k. k ≢ key) (keys (remove key fs))
unfolding remove
remove-ne key end = tt
remove-ne key (field k v fs) = elim (Bool-cases (str_eq k key)) [
  | inl e ↦ rw e (remove-ne key fs)
  | inr e ↦ rw e (ne_of_str_eq k key e, remove-ne key fs)
]

All-both : (P Q : Str → Type 0) (ks : List Str) → All P ks → All Q ks → All (λ k. P k × Q k) ks
All-both P Q [] p q = tt
All-both P Q (k ∷ ks) p q = ((p.0, q.0), All-both P Q ks p.1 q.1)

strip-HasNoBody : (v : Value) → HasNoBody (strip v)
strip-HasNoBody (object fs) =
    All-both (λ k. k ≢ codes "request_body") (λ k. k ≢ codes "response_body") _
      (All-remove (λ k. k ≢ codes "request_body") (codes "response_body")
        (remove (codes "request_body") fs) (remove-ne (codes "request_body") fs))
      (remove-ne (codes "response_body") (remove (codes "request_body") fs))
strip-HasNoBody null = tt
strip-HasNoBody (bool b) = tt
strip-HasNoBody (num n) = tt
strip-HasNoBody (string s) = tt
strip-HasNoBody (array vs) = tt

collect_cons-ok :
    (o : Outcome Value) (os : Outcome (List Value)) {vs : List Value}
    → collect_cons o os ≡ ok vs
    → (v : Value) × (ws : List Value) × (o ≡ ok v) × (os ≡ ok ws) × (vs ≡ v ∷ ws)
collect_cons-ok (ok v) (ok ws) e = (v, ws, refl, refl, cc)
collect_cons-ok (ok v) (err x) e = cc
collect_cons-ok (ok v) panic e = cc
collect_cons-ok (err x) os e = cc
collect_cons-ok panic os e = cc

module _ (serde : Serde) where
  -- Each value is that of the record in its place, without the bodies.
  abbrev pub AreShown : List NetworkRecord → List Value → Type 0
  AreShown [] [] = Unit
  AreShown (r ∷ rs) (v ∷ vs) =
      ((w : Value) × (serde.to_value r ≡ ok w) × (v ≡ strip w)) × AreShown rs vs
  AreShown _ _ = ⊥

  record_json-ok :
      (r : NetworkRecord) (v : Value)
      → record_json serde r ≡ ok v
      → (w : Value) × (serde.to_value r ≡ ok w) × (v ≡ strip w)
  unfolding record_json
  record_json-ok r v e = ground arith

  collect-AreShown :
      (rs : List NetworkRecord) (vs : List Value) → collect serde rs ≡ ok vs → AreShown rs vs
  unfolding collect
  collect-AreShown [] [] e = tt
  collect-AreShown [] (v ∷ vs) e = cc
  collect-AreShown (r ∷ rs) vs e =
      let (v, ws, here, later, same) = collect_cons-ok _ _ e in
      rw same (record_json-ok r v here, collect-AreShown rs ws later)

  AreShown-HasNoBody :
      (rs : List NetworkRecord) (vs : List Value) → AreShown rs vs → All HasNoBody vs
  AreShown-HasNoBody [] [] h = tt
  AreShown-HasNoBody [] (v ∷ vs) h = absurd h
  AreShown-HasNoBody (r ∷ rs) [] h = absurd h
  AreShown-HasNoBody (r ∷ rs) (v ∷ vs) ((w, made, same), h) =
      (rw same (strip-HasNoBody w), AreShown-HasNoBody rs vs h)

  AreShown-length :
      (rs : List NetworkRecord) (vs : List Value) → AreShown rs vs → length vs ≡ length rs
  AreShown-length [] [] h = refl
  AreShown-length [] (v ∷ vs) h = absurd h
  AreShown-length (r ∷ rs) [] h = absurd h
  AreShown-length (r ∷ rs) (v ∷ vs) h = ap suc (AreShown-length rs vs h.1)

  array_of-ok :
      (o : Outcome (List Value)) {v : Value}
      → array_of o ≡ ok v
      → (vs : List Value) × (o ≡ ok vs) × (v ≡ array (of_list vs))
  array_of-ok (ok vs) e = (vs, refl, cc)
  array_of-ok (err x) e = cc
  array_of-ok panic e = cc

  -- A successful answer to `/get_record` is the array of the ten newest records at most, the
  -- newest first, each as JSON without its bodies, and none has a key of a body.
  pub handle_get_record-shows :
      (s : Store) (g : Global) (v : Value)
      → g.context ≡ some s
      → (handle_get_record serde g).0 ≡ ok v
      → (vs : List Value) × (v ≡ array (of_list vs))
        × AreShown (take 10 (reverse s.network_records)) vs
        × All HasNoBody vs
        × (length vs ≤ 10)
  unfolding handle_get_record on_store
  handle_get_record-shows s g v ready e =
      let newest = take 10 (reverse s.network_records) in
      let (vs, made, same) = array_of-ok (collect serde newest) (rw ready at e) in
      let shown = collect-AreShown newest vs made in
      (
        vs,
        same,
        shown,
        AreShown-HasNoBody newest vs shown,
        omega
            (arith, AreShown-length newest vs shown, length-take-le 10 (reverse s.network_records)),
      )
