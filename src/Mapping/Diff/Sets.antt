-- ===== src/Mapping/Diff/Sets.antt =====
-- state/mapping/state_mapping.go: KeyRefsDiff as a difference of sets, up to the strings of keys.
use cckit.Base.{
  ◌≡◌, ◌≢◌, ◌⊎◌, refl, ap, sym, ◌∙◌, subst, Bool-cases, inl, inr, Option, Option-cases, none, some,
  List, [], ◌∷◌, map, Text, Map, find, store, find-store, find-store_self, In, text_eq, codes,
}
use cckit.Lang.Error.{Error}
use cckit.Lang.Result.{ok}
use cckit.Lang.Value.{Methods}
use cckit.Mapping.Diff.{missing_in, by_string, key_refs_diff}
use cckit.Mapping.Diff.Laws.{
  on_values, store-on_values, missing_in-on_values, find-In, In-missing_in, missing_in-In,
}
use cckit.Mapping.KeyRefs.Laws.{ref_key_of, as_mapped, mapped_key-as_mapped}
use cckit.Mapping.Schema.{Entity, KeyRef, Field}
use cckit.State.Key.{key_string}

-- The string by which an entry of an index is noted.
abbrev pub ref_string : KeyRef → Text
ref_string r = key_string (ref_key_of r)

-- The last entry of each string.
keyed : List KeyRef → Map KeyRef → Map KeyRef
keyed [] m = m
keyed (r ∷ rs) m = keyed rs (store (ref_string r) r m)

store-In :
    {V : Type 0} (j k : Text) (w v : V) (m : Map V)
    → In (k, v) (store j w m)
    → ((k ≡ j) × (v ≡ w)) ⊎ In (k, v) m
unfolding store
store-In j k w v [] (inl e) = inl (ap (λ p. p.0) e, ap (λ p. p.1) e)
store-In j k w v [] (inr i) = absurd i
store-In j k w v ((i, x) ∷ m) h = elim (Bool-cases (text_eq i j)) [
  | inl e ↦ elim (rw e at h) [
    | inl same ↦ inl (ap (λ p. p.0) same, ap (λ p. p.1) same)
    | inr rest ↦ inr (inr rest)
  ]
  | inr e ↦ elim (rw e at h) [
    | inl same ↦ inr (inl same)
    | inr rest ↦ elim (store-In j k w v m rest) [ inl new ↦ inl new | inr old ↦ inr (inr old) ]
  ]
]

keyed-In :
    (rs : List KeyRef) (m : Map KeyRef) (k : Text) (r : KeyRef)
    → In (k, r) (keyed rs m)
    → In (k, r) m ⊎ ((k ≡ ref_string r) × In r rs)
unfolding keyed
keyed-In [] m k r i = inl i
keyed-In (q ∷ rs) m k r i = elim (keyed-In rs (store (ref_string q) q m) k r i) [
  | inr (e, j) ↦ inr (e, inr j)
  | inl j ↦ elim (store-In (ref_string q) k q r m j) [
    | inl (e, same) ↦ inr (e ∙ ap ref_string (sym same), inl same)
    | inr old ↦ inl old
  ]
]

keyed-keeps :
    (rs : List KeyRef) (m : Map KeyRef) (k : Text) (r : KeyRef)
    → find k m ≡ some r
    → (q : KeyRef) × (find k (keyed rs m) ≡ some q)
unfolding keyed
keyed-keeps [] m k r h = (r, h)
keyed-keeps (q ∷ rs) m k r h = elim (Bool-cases (text_eq (ref_string q) k)) [
  | inl e ↦ keyed-keeps rs _ k q (find-store (ref_string q) k q m ∙ rw e refl)
  | inr e ↦ keyed-keeps rs _ k r (find-store (ref_string q) k q m ∙ rw e h)
]

find-keyed :
    (rs : List KeyRef) (m : Map KeyRef) (r : KeyRef)
    → In r rs
    → (q : KeyRef) × (find (ref_string r) (keyed rs m) ≡ some q)
unfolding keyed
find-keyed [] m r i = absurd i
find-keyed (q ∷ rs) m r (inl e) = keyed-keeps rs _ (ref_string r) q (
    subst (λ x. find (ref_string x) (store (ref_string q) q m) ≡ some q) (sym e)
      (find-store_self (ref_string q) q m))
find-keyed (q ∷ rs) m r (inr i) = find-keyed rs (store (ref_string q) q m) r i

-- What is in the one list and, by its string, not in the other; of the entries of one string, one.
pub record IsDifference (ps ns ds : List KeyRef) : Type 0 where
  pub only :
      (d : KeyRef) → In d ds → In d ps × ((n : KeyRef) → In n ns → ref_string n ≢ ref_string d)
  pub all :
      (p : KeyRef)
      → In p ps
      → ((n : KeyRef) → In n ns → ref_string n ≢ ref_string p)
      → (d : KeyRef) × In d ds × (ref_string d ≡ ref_string p)

missing_in-IsDifference :
    (ps ns : List KeyRef) → IsDifference ps ns (missing_in (keyed ps []) (keyed ns []))
missing_in-IsDifference ps ns = record {
  only = λ d i.
      let (k, j, free) = In-missing_in d (keyed ps []) (keyed ns []) i in
      elim (keyed-In ps [] k d j) [
        | inl nothing ↦ absurd nothing
        | inr (e, at) ↦ (
          at,
          λ n h same.
              let (q, found) = find-keyed ns [] n h in
              let clash : some q ≡ none =
                sym found ∙ ap (λ s. find s (keyed ns [])) (same ∙ sym e) ∙ free in
              cc,
        )
      ];
  all = λ p i apart.
      let (q, found) = find-keyed ps [] p i in
      let j = find-In (ref_string p) q (keyed ps []) found in
      let free : find (ref_string p) (keyed ns []) ≡ none =
        elim (Option-cases (find (ref_string p) (keyed ns []))) [
          | inl e ↦ e
          | inr (w, e) ↦
              elim (keyed-In ns [] (ref_string p) w (find-In (ref_string p) w (keyed ns []) e)) [
                | inl nothing ↦ absurd nothing
                | inr (s, at) ↦ absurd (apart w at (sym s))
              ]
        ] in
      let same : ref_string q ≡ ref_string p = elim (keyed-In ps [] (ref_string p) q j) [
        | inl nothing ↦ absurd nothing
        | inr (s, at) ↦ sym s
      ] in
      (q, missing_in-In (ref_string p) q (keyed ps []) (keyed ns []) j free, same);
}

module _ {U : Type 0} (m : Methods (Entity U)) (show : Error → Text)
    (reflect : U → Option (List Field)) where
  by_string-keyed :
      (note : Text) (rs : List KeyRef) (keys : Map KeyRef)
      → by_string m show reflect note
          (map (as_mapped m show reflect) rs)
          (on_values (as_mapped m show reflect) keys)
        ≡ ok (on_values (as_mapped m show reflect) (keyed rs keys))
  unfolding by_string keyed
  by_string-keyed note [] keys = refl
  by_string-keyed note (r ∷ rs) keys =
      rw
        (
          mapped_key-as_mapped m show reflect r,
          store-on_values (as_mapped m show reflect) (ref_string r) r keys,
        )
        (by_string-keyed note rs (store (ref_string r) r keys))

  -- KeyRefsDiff of entries of indexes is their difference both ways.
  pub key_refs_diff-IsDifference :
      (ps ns : List KeyRef)
      → (ds is : List KeyRef) × (key_refs_diff m show reflect
            (map (as_mapped m show reflect) ps)
            (map (as_mapped m show reflect) ns)
          ≡ ok (map (as_mapped m show reflect) ds, map (as_mapped m show reflect) is))
        × IsDifference ps ns ds
        × IsDifference ns ps is
  unfolding key_refs_diff
  key_refs_diff-IsDifference ps ns = (
    missing_in (keyed ps []) (keyed ns []),
    missing_in (keyed ns []) (keyed ps []),
    rw
        (
          by_string-keyed (codes "prev ref key") ps [],
          by_string-keyed (codes "new ref key") ns [],
          missing_in-on_values (as_mapped m show reflect) (keyed ps []) (keyed ns []),
          missing_in-on_values (as_mapped m show reflect) (keyed ns []) (keyed ps []),
        )
        refl,
    missing_in-IsDifference ps ns,
    missing_in-IsDifference ns ps,
  )
