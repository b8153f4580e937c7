-- ===== src/State/Impl/Listing/Laws.antt =====
-- What List and Keys of state/state.go return of what the iterator yields.
use cckit.Base.{
  ◌≡◌, refl, sym, ◌∙◌, ap, false, List, [], ◌∷◌, ◌++◌, map, append-nil, append_assoc, Text, All,
}
use cckit.Lang.Result.{Result, ok, panic, map_each}
use cckit.Lang.Value.{Value, Methods}
use cckit.Convert.{from_bytes}
use cckit.State.Impl.{Impl, new_state}
use cckit.State.Impl.Listing.{
  StateList, items, get_list, is_proto, new_state_list, fill_loop, fill,
  create_state_query_iterator, list_state, key_of_entry, keys,
}
use cckit.State.Key.{Key, key_to_string}
use cckit.State.Key.Laws.{IsPlainKey, key_from_composite-key_to_string}
use cckit.State.Stub.{Stub, Kv, CompositeKeys}
use cckit.State.Transformer.{convert_from_bytes}

-- An entry of the ledger: the key that the caller gave, the record, and the string of that key.
pub record Stored : Type 0 where
  pub origin : Key
  pub kv : Kv
  pub string : Text

-- The record is held under the string of the transformed key, which the reverse transformer undoes.
pub record IsStored {S U : Type 0} (i : Impl S U) (e : Stored) : Type 0 where
  pub parts : Key
  pub plain : IsPlainKey parts
  pub held : key_to_string i.stub parts ≡ ok e.kv.key
  pub undone : i.key_reverse_transformer parts ≡ ok e.origin
  pub printed : key_to_string i.stub e.origin ≡ ok e.string

module _ {S U : Type 0} (m : Methods U) (i : Impl S U) where
  key_of_entry-IsStored :
      (laws : CompositeKeys i.stub) (e : Stored)
      → IsStored i e
      → key_of_entry m i (ok e.kv) ≡ ok e.string
  unfolding key_of_entry
  key_of_entry-IsStored laws e h = rw (
    key_from_composite-key_to_string i.stub laws h.parts e.kv.key h.plain h.held,
    h.undone,
    h.printed,
  )

  map_each-IsStored :
      (laws : CompositeKeys i.stub) (es : List Stored)
      → All (IsStored i) es
      → map_each (key_of_entry m i) (map (λ e. ok e.kv) es) ≡ ok (map (λ e. e.string) es)
  unfolding map_each
  map_each-IsStored laws [] h = refl
  map_each-IsStored laws (e ∷ es) (h, hs) =
      rw (key_of_entry-IsStored laws e h, map_each-IsStored laws es hs)

  -- Keys returns the strings of the keys that the callers gave, in the order of the ledger, where
  -- the ledger holds each entry under its transformed key and the reverse transformer undoes the
  -- transformer.
  pub keys-IsStored :
      (laws : CompositeKeys i.stub) (namespace : Value U) (es : List Stored) (s : S)
      → All (IsStored i) es
      → create_state_query_iterator m i namespace s ≡ ok (map (λ e. ok e.kv) es)
      → keys m i namespace s ≡ ok (map (λ e. e.string) es)
  unfolding keys
  keys-IsStored laws namespace es s h e = rw e (map_each-IsStored laws es h)

  -- A record and the value that it decodes to at a target.
  abbrev pub IsDecoded : Value U → Kv × Value U → Type 0
  IsDecoded target (kv, v) = i.get_transformer kv.value (target ∷ []) ≡ ok v

  fill_loop-IsDecoded :
      (sl : StateList U) (es : List (Kv × Value U))
      → All (IsDecoded sl.item_target) es
      → fill_loop m i.get_transformer sl (map (λ e. ok e.0) es)
        ≡ ok (record sl { list = sl.list ++ map (λ e. e.1) es })
  unfolding fill_loop
  fill_loop-IsDecoded sl [] h = ap (λ l. ok (record sl { list = l })) (sym (append-nil sl.list))
  fill_loop-IsDecoded sl ((kv, v) ∷ es) (h, hs) = rw h (
      fill_loop-IsDecoded (record sl { list = sl.list ++ v ∷ [] }) es hs
      ∙ ap (λ l. ok (record sl { list = l })) (append_assoc sl.list (v ∷ []) (map (λ e. e.1) es)))

  -- List with a target that is no message returns every record that the iterator yields, decoded at
  -- that target, in the order of the ledger.
  pub list_state-IsDecoded :
      (namespace target : Value U) (es : List (Kv × Value U)) (s : S)
      → is_proto m target ≡ false
      → All (IsDecoded target) es
      → create_state_query_iterator m i namespace s ≡ ok (map (λ e. ok e.0) es)
      → list_state m i namespace (target ∷ []) s ≡ ok (items (map (λ e. e.1) es))
  unfolding list_state fill new_state_list get_list is_proto
  list_state-IsDecoded namespace target es s plain h e =
      rw (e, fill_loop-IsDecoded (new_state_list (target ∷ [])) es h, plain)

-- With the transformers of NewState, List without a target panics at the first record: the target
-- that it hands to FromBytes is nil.
pub list_state-no_target :
    {S U : Type 0} (m : Methods U) (stub : Stub S) (namespace : Value U) (kv : Kv)
    (iter : List (Result Kv)) (s : S)
    → create_state_query_iterator m (new_state m stub) namespace s ≡ ok (ok kv ∷ iter)
    → list_state m (new_state m stub) namespace [] s ≡ panic
unfolding list_state fill fill_loop new_state_list new_state convert_from_bytes from_bytes
list_state-no_target m stub namespace kv iter s h = rw h
