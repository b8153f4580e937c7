-- ===== src/Debug/Service.antt =====
-- extensions/debug/debug_state.go: the calls of the service that read and write one entry, or list keys.
-- The state that StateFn gives is a parameter, as is the stub of the context.
use cckit.Base.{◌≡◌, ap, sym, ◌∙◌, Option, none, some, List, [], ◌∷◌, Text, Bytes}
use cckit.Convert.{to_bytes}
use cckit.Lang.Exec.{Exec, lift, reads, ◌>>=◌, ◌>>◌, continue-eq-ok, read-eq-ok}
use cckit.Lang.Result.{Result, ok, err, panic, map_each, ok-injective}
use cckit.Lang.Result.{◌>>=◌ as bind}
use cckit.Lang.Value.{Value, str, strs, bytes, obj, Methods}
use cckit.State.Impl.{Impl, get, put, delete}
use cckit.State.Impl.Laws.{Decodes, get-put}
use cckit.State.Impl.Listing.{keys}
use cckit.State.Key.{Key, normalize_key}
use cckit.State.Stub.{Stub, ReadsWrites}

-- Value of debug_state.pb.go
pub record StateValue : Type 0 where
  pub key : Key
  pub value : Bytes
  pub json : Text

module _ {S U : Type 0} (m : Methods U) (stub : Stub S) (i : Impl S U) where
  unfoldable pub state_keys : Key → S → Result (List Key)
  state_keys prefix s =
      bind (keys m i (strs prefix) s) λ ks. map_each (λ k. normalize_key stub m (str k)) ks

  -- `jsonVal, _ = json.Marshal(val)`
  abbrev or_nothing : Result Bytes → Result Text
  or_nothing (ok b) = ok b
  or_nothing (err _) = ok []
  or_nothing panic = panic

  abbrev json_if_proto : U → Option (Result Bytes) → Result Text
  json_if_proto u (some _) = or_nothing (m.json_marshal (obj u))
  json_if_proto u none = ok []

  abbrev json_of : Value U → Result Text
  json_of (obj u) = json_if_proto u (m.proto_marshal u)
  json_of _ = ok []

  unfoldable pub state_get : Key → S → Result StateValue
  state_get key s = bind (get m i (strs key) [] s) λ val.
      bind (to_bytes m val)
        λ bb. bind (json_of val) λ json. ok (record { key = key; value = bb; json = json })

  unfoldable pub state_put : StateValue → Exec S StateValue
  state_put val = do put m i (strs val.key) (bytes val.value ∷ []); lift (ok val)

  unfoldable pub state_delete : Key → Exec S StateValue
  unfolding state_get
  state_delete key = do val ← reads (state_get key); delete m i (strs key); lift (ok val)

  state_get-bytes :
      (key : Key) (b : Bytes) (s : S)
      → get m i (strs key) [] s ≡ ok (bytes b)
      → state_get key s ≡ ok (record { key = key; value = b; json = [] })
  unfolding state_get to_bytes
  state_get-bytes key b s h = rw h

  -- After a StatePut that succeeds StateGet returns its key and its value without JSON, and a
  -- StateDelete that then succeeds returns the same, after a Delete of the state for that key that
  -- has succeeded, given a state that reads its writes back and decodes bytes as it encodes them.
  pub state_delete-state_put :
      (val put_ deleted : StateValue) (s s' s'' : S)
      → ReadsWrites i.get_state i.put_state
      → Decodes i (bytes val.value) []
      → state_put val s ≡ (ok put_, s')
      → state_delete val.key s' ≡ (ok deleted, s'')
      → (state_get val.key s' ≡ ok (record val { json = [] }))
        × (deleted ≡ record val { json = [] })
        × (delete m i (strs val.key) s' ≡ (ok tt, s''))
  unfolding state_put state_delete
  state_delete-state_put val put_ deleted s s' s'' rws decodes hp hd =
      let (u, t, e, f) =
        continue-eq-ok (put m i (strs val.key) (bytes val.value ∷ []) s) _ put_ s' hp in
      let w = e ∙ ap (λ (p : Result StateValue × S). (ok tt, p.1)) f in
      let got =
        state_get-bytes val.key val.value s'
          (get-put m i rws (strs val.key) (bytes val.value) [] s s' decodes w).0 in
      let (found, g, h1) = read-eq-ok (state_get val.key s') s' _ deleted s'' hd in
      let (u', t', e', f') = continue-eq-ok (delete m i (strs val.key) s') _ deleted s'' h1 in
      (
        got,
        sym (ok-injective (ap (λ p. p.0) f')) ∙ ok-injective (sym g ∙ got),
        e' ∙ ap (λ (p : Result StateValue × S). (ok tt, p.1)) f',
      )
