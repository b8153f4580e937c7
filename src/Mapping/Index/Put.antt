-- ===== src/Mapping/Index/Put.antt =====
-- state/mapping/state.go: Put of an entity over one that was there changes the indexes by their
-- difference, and leaves what a Delete and an Insert would leave.
use cckit.Base.{
  ◌≡◌, ◌≢◌, refl, ap, sym, ◌∙◌, subst, fun_ext, true, Option, none, some, List, [], ◌∷◌, ◌++◌, Text,
  All-of-In, In, In-All, inl, inr,
}
use cckit.Lang.Error.{Error}
use cckit.Lang.Value.{obj, Methods}
use cckit.Mapping.Diff.Sets.{IsDifference, ref_string}
use cckit.Mapping.Index.{IsIndexed, LeavesRefs, same_ref, IsMapped-own}
use cckit.Mapping.Index.Cases.{key_in, deleted_cases, removed_cases, inserted_cases}
use cckit.Mapping.Index.Delete as Deletion
use cckit.Mapping.Index.Delete.{In-deletions}
use cckit.Mapping.Index.Insert as Insertion
use cckit.Mapping.Index.Insert.{In-insertions}
use cckit.Mapping.KeyRefs.Laws.{ref_key_of}
use cckit.Mapping.MappedState.Loops.{insertions, deletions, AreFree}
use cckit.Mapping.MappedState.Writes.{IsMapped}
use cckit.Mapping.Schema.{Entity, key_ref, KeyRef, Field}
use cckit.Mapping.StateMappings.{StateMappings, ProtoStateMapped, key_eq}
use cckit.Mapping.Views.{View, over, key_eq_refl}
use cckit.State.Key.{Key, key_string}

module _ {U : Type 0} (m : Methods (Entity U)) (show : Error → Text)
    (reflect : U → Option (List Field)) (mappings : StateMappings U) where
  -- The keys of the index entries of entities are known by their strings.
  pub record HasStrings : Type 0 where
    pub same_key :
        (x y : Entity U) (pm pm' : ProtoStateMapped U) (pk pk' : Key) (rs qs : List KeyRef)
        (r q : KeyRef)
        → IsMapped m show reflect mappings (obj x) pm pk rs
        → IsMapped m show reflect mappings (obj y) pm' pk' qs
        → In r rs
        → In q qs
        → ref_string r ≡ ref_string q
        → ref_key_of r ≡ ref_key_of q

-- `x` is put over `y`, whose index entries are `qs`; `ds` goes and `is` comes.
module _ {U : Type 0} (m : Methods (Entity U)) (show : Error → Text)
    (reflect : U → Option (List Field)) (mappings : StateMappings U) (w : View (Entity U))
    (x y : Entity U) (pm pm' : ProtoStateMapped U) (pk : Key) (rs qs ds is : List KeyRef)
    (leaves : LeavesRefs m show reflect mappings) (strings : HasStrings m show reflect mappings)
    (new : IsMapped m show reflect mappings (obj x) pm pk rs)
    (old : IsMapped m show reflect mappings (obj y) pm' pk qs)
    (indexed : IsIndexed m show reflect mappings w) (at_pk : w pk ≡ some y)
    (goes : IsDifference qs rs ds) (comes : IsDifference rs qs is)
    (free : (r : KeyRef) → In r is → w (ref_key_of r) ≡ none) where
  abbrev pub put_view : View (Entity U)
  put_view = over (insertions is ++ (pk, some x) ∷ []) (over (deletions ds) w)

  abbrev removed : View (Entity U)
  removed = over (deletions qs ++ (pk, none) ∷ []) w

  abbrev replaced : View (Entity U)
  replaced = over (insertions rs ++ (pk, some x) ∷ []) removed

  -- An entry of both lists is one entry.
  shared : (r q : KeyRef) → In r rs → In q qs → ref_key_of r ≡ ref_key_of q → r ≡ q
  shared r q i k e =
      let a =
        In-All (λ (p : KeyRef). p.p_key ≡ pk) r rs
          (IsMapped-own m show reflect mappings x pm pk rs new) i in
      let b =
        In-All (λ (p : KeyRef). p.p_key ≡ pk) q qs
          (IsMapped-own m show reflect mappings y pm' pk qs old) k in
      same_ref r q e (a ∙ sym b)

  own : (r q : KeyRef) → In r rs → In q rs → ref_key_of r ≡ ref_key_of q → r ≡ q
  own r q i k e =
      let all = IsMapped-own m show reflect mappings x pm pk rs new in
      let a = In-All (λ (p : KeyRef). p.p_key ≡ pk) r rs all i in
      let b = In-All (λ (p : KeyRef). p.p_key ≡ pk) q rs all k in same_ref r q e (a ∙ sym b)

  held : (q : KeyRef) → In q qs → w (ref_key_of q) ≡ some (key_ref q)
  held q k =
      In-All (λ (p : KeyRef). w (ref_key_of p) ≡ some (key_ref p)) q qs
        (indexed.complete pk y pm' pk qs at_pk old).1 k

  not_pk : (r : KeyRef) → In r rs → ref_key_of r ≢ pk
  not_pk r i e =
      let a = leaves.apart x pm pk rs r new in
      let b = subst (λ l. key_eq (ref_key_of r) l ≡ true) e (key_eq_refl (ref_key_of r)) in cc

  -- An entry that the old entity does not have at its key comes.
  new-comes :
      (r : KeyRef)
      → In r rs
      → ((q : KeyRef) → In q qs → ref_key_of r ≢ ref_key_of q)
      → (i : KeyRef) × In i is × (ref_key_of i ≡ ref_key_of r)
  new-comes r i other =
      let (d, k, e) =
        comes.all r i
          (λ q l h. other q l (strings.same_key x y pm pm' pk pk rs qs r q new old i l (sym h))) in
      (d, k, strings.same_key x x pm pm pk pk rs rs d r new new (comes.only d k).0 i e)

  old-goes :
      (q : KeyRef)
      → In q qs
      → ((r : KeyRef) → In r rs → ref_key_of q ≢ ref_key_of r)
      → (d : KeyRef) × In d ds × (ref_key_of d ≡ ref_key_of q)
  old-goes q i other =
      let (d, k, e) =
        goes.all q i
          (λ r l h. other r l (sym (strings.same_key x y pm pm' pk pk rs qs r q new old l i h))) in
      (d, k, strings.same_key y y pm' pm' pk pk qs qs d q old old (goes.only d k).0 i e)

  removed_pk : removed pk ≡ none
  removed_pk = Deletion.after-gone m show reflect mappings w y pm' pk qs leaves old indexed at_pk

  frees : AreFree removed rs
  frees = All-of-In rs (λ r i. elim (removed_cases w (ref_key_of r) qs pk) [
    | inr (e, _) ↦ e
    | inl (e, _, other) ↦ let (k, l, same) = new-comes r i other in e ∙ sym (ap w same) ∙ free k l
  ])

  replaced-IsIndexed : IsIndexed m show reflect mappings replaced
  replaced-IsIndexed =
      Insertion.after-IsIndexed m show reflect mappings removed x pm pk rs leaves new removed_pk
        frees
        (Deletion.after-IsIndexed m show reflect mappings w y pm' pk qs leaves old indexed at_pk)

  pub put_view_pk : put_view pk ≡ some x
  put_view_pk = elim (inserted_cases (over (deletions ds) w) pk is pk x) [
    | inl (_, np, _) ↦ absurd (np refl)
    | inr (inl (e, _)) ↦ e
    | inr (inr (k, l, at, _)) ↦ absurd (not_pk k (comes.only k l).0 (sym at))
  ]

  -- At the key of an entry of the new entity.
  put_view-new : (r : KeyRef) → In r rs → put_view (ref_key_of r) ≡ some (key_ref r)
  put_view-new r i = elim (inserted_cases (over (deletions ds) w) (ref_key_of r) is pk x) [
    | inr (inl (e, at)) ↦ absurd (not_pk r i at)
    | inr (inr (k, l, at, e)) ↦
        e ∙ ap (λ p. some (key_ref p)) (sym (own r k i (comes.only k l).0 at))
    | inl (e, _, other) ↦ elim (key_in (ref_key_of r) qs) [
      | inr none_of ↦ let (k, l, same) = new-comes r i none_of in absurd (other k l (sym same))
      | inl (q, k, at) ↦
          let same = shared r q i k at in
          elim (deleted_cases w (ref_key_of r) ds) [
            | inl (kept, _) ↦
                e
                ∙ kept
                ∙ ap (λ p. w (ref_key_of p)) same
                ∙ held q k
                ∙ ap (λ p. some (key_ref p)) (sym same)
            | inr (_, (d, l, at_d)) ↦
                let (j, apart) = goes.only d l in absurd (apart r i (ap key_string at_d))
          ]
    ]
  ]

  -- At a key where nothing of the new entity stands.
  put_view-other :
      (j : Key) → j ≢ pk → ((r : KeyRef) → In r rs → j ≢ ref_key_of r) → put_view j ≡ removed j
  put_view-other j np other = elim (inserted_cases (over (deletions ds) w) j is pk x) [
    | inr (inl (_, at)) ↦ absurd (np at)
    | inr (inr (k, l, at, _)) ↦ absurd (other k (comes.only k l).0 at)
    | inl (e, _, _) ↦ elim (removed_cases w j qs pk) [
      | inl (e', _, not_old) ↦ elim (deleted_cases w j ds) [
        | inl (kept, _) ↦ e ∙ kept ∙ sym e'
        | inr (_, (d, l, at)) ↦ absurd (not_old d (goes.only d l).0 at)
      ]
      | inr (e', inl at) ↦ absurd (np at)
      | inr (e', inr (q, k, at)) ↦
          let (d, l, same) = old-goes q k (λ r i h. other r i (at ∙ h)) in
          elim (deleted_cases w j ds) [
            | inl (_, none_of) ↦ absurd (none_of d l (at ∙ sym same))
            | inr (gone, _) ↦ e ∙ gone ∙ sym e'
          ]
    ]
  ]

  put_view-eq-replaced : put_view ≡ replaced
  put_view-eq-replaced = fun_ext (λ j. elim (inserted_cases removed j rs pk x) [
    | inl (e, np, other) ↦ put_view-other j np other ∙ sym e
    | inr (inl (e, at)) ↦ ap put_view at ∙ put_view_pk ∙ sym e
    | inr (inr (r, i, at, e)) ↦ ap put_view at ∙ put_view-new r i ∙ sym e
  ])

  pub put_view-IsIndexed : IsIndexed m show reflect mappings put_view
  put_view-IsIndexed =
      subst (IsIndexed m show reflect mappings) (sym put_view-eq-replaced) replaced-IsIndexed
