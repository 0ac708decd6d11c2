-- ===== src/Types/Description/Reading.antt =====
-- reflectType on a complete description, where the calls for its parts give the types of the parts.
use coroutine_durable_fork.Prelude.{
  ℕ, suc, ◌+◌, ◌*◌, ◌^◌, ◌<◌, ◌≡◌, ◌≢◌, ◌⊎◌, refl, sym, ap, subst, ◌∙◌, Bool, Bool-cases, true,
  false, inl, inr, List, [], ◌∷◌, ◌++◌, Option, none, some, arith, ◌==◌, ==_iff, length, ltb,
  get_elem?, length-append,
}
use mathlib.Core.List.{Memᴰ}
use mathlib.Core.List.Memᴰ.{head, tail, append_cases}
use coroutine_durable_fork.Prelude.Dict.{lookup}
use coroutine_durable_fork.Types.Info.{
  Field, Info, StructField, Shape, basic, struct_of, func_of, unsafe_pointer,
}
use coroutine_durable_fork.Types.Typemap.{
  expect, out_of_range, Serde, Typemap, Failure, M, ◌>>=◌, get_k, get_v,
}
use coroutine_durable_fork.Types.Description.{
  Rec, is_exported, boolint, to_types, field_of, struct_field, struct_fields, offset_for_type,
  type_for_offset, name_offset, make_type, make_func, by_kind, reflect_type,
}
use coroutine_durable_fork.Types.Description.Graph.{
  Ends, ends, Ends-bind, Points, end, point, PointFields, Fills, fills_basic, fills_array,
  fills_map, fills_pointer, fills_unsafe_pointer, fills_slice, fills_struct, fills_func, fills_chan,
}
use coroutine_durable_fork.Types.Description.Fill.{
  IsPart, of_array, key_of_map, of_map, of_pointer, of_slice, of_struct, in_func, out_func, of_chan,
}
use coroutine_durable_fork.Types.Description.Terminates.{nonzero, IsGraph}
use coroutine_durable_fork.Types.Description.Rebuild.{
  type_for_offset-offset_for_type, offset-zero, type_offset, take-length, drop-length, half, odd,
  direction-dir_of,
}

-- No panic is right.
abbrev pub Never : Failure → Type 0
Never e = ⊥

Points-append :
    (k : List (ℕ × ℕ)) (ts us ps qs : List ℕ)
    → Points k ts ps
    → Points k us qs
    → Points k (ts ++ us) (ps ++ qs)
Points-append k _ us _ qs end r = r
Points-append k _ us _ qs (point t p ts ps e s) r =
    point t p (ts ++ us) (ps ++ qs) e (Points-append k ts us ps qs s r)

no_path : (xs : List ℕ) → (elim xs [ [] ↦ true | _ ∷ _ ↦ false ]) ≡ true → [] ≡ xs
no_path [] e = refl
no_path (x ∷ xs) e = cc

struct_field-field_of :
    (f : StructField) (p : ℕ) → is_exported f ≡ true → struct_field (field_of f p) f.typ ≡ f
struct_field-field_of f p e = ap (λ x. record f { pkg_path = x }) (no_path f.pkg_path e)

cons_eq : {A : Type 0} {x y : A} {xs ys : List A} → x ≡ y → xs ≡ ys → x ∷ xs ≡ y ∷ ys
cons_eq e h = cc

enough : (xs ys : List ℕ) → ltb (length (xs ++ ys)) (length xs) ≡ false
enough xs ys = let both = length-append xs ys in ground (arith, both)

module _ (byte : ℕ) (describe : ℕ → Shape) (named : ℕ → Bool) (make : Shape → Option ℕ)
    (serdes : List (ℕ × Serde)) where
  -- A description of the type tells its shape only: it is not nil, has no custom serializer, and
  -- the offset is 0.
  abbrev pub IsShaped : ℕ → Type 0
  IsShaped t =
      (t ≢ 0)
      × (lookup t serdes ≡ none)
      × (type_offset byte t (name_offset byte describe named t) (describe t) ≡ 0)

  -- Such types are nested less deep than a number, and reflect makes them from what it says of
  -- them.
  pub data IsRebuilt : ℕ → ℕ → Type 0 where
    rebuilt :
        (n t : ℕ)
        → t < 2 ^ 64
        → (IsShaped t → make (describe t) ≡ some t)
        → ((u : ℕ) → IsShaped t → IsPart u (describe t) → IsRebuilt n u)
        → IsRebuilt (suc n) t

  module _ (customs : List ℕ) (g : Typemap)
      (graph : IsGraph byte describe named serdes customs g) where
    -- A typemap with the descriptions of the graph, and a cache that agrees with it.
    pub record IsCopy (m : Typemap) : Type 0 where
      pub custom : m.custom ≡ customs
      pub infos : (p : ℕ) (i : Info) → lookup p g.infos ≡ some i → lookup p m.infos ≡ some i
      pub right : (t p : ℕ) → get_v p m ≡ some t → get_k t g ≡ some p

    abbrev pub Gives : ℕ → ℕ → Typemap → Type 0
    Gives t x m = IsCopy m × (x ≡ t)

    abbrev pub Reading : ℕ → Rec → Type 0
    Reading n rec =
        (t p : ℕ) (m : Typemap)
        → IsRebuilt n t
        → get_k t g ≡ some p
        → IsCopy m
        → Ends (Gives t) Never (rec p m)

    pointer_positive : (u p : ℕ) → get_k u g ≡ some p → (p == 0) ≡ false
    pointer_positive u p h = let b = graph.sane.bounded u p h in let pos = b.0 in ground arith

    pub not_struct :
        (t : ℕ) (fs : List StructField)
        → byte < 2 ^ 64
        → t < 2 ^ 64
        → describe byte ≡ basic 8
        → describe t ≡ struct_of fs
        → offset_for_type byte t ≢ 0
    not_struct t fs h k b s e =
        let same : t ≡ byte = offset-zero byte t h k e in
        let two : basic 8 ≡ struct_of fs = sym b ∙ subst (λ u. describe u ≡ struct_of fs) same s in
        cc

    module _ (n : ℕ) (rec : Rec) (step : Reading n rec) where
      part :
          {B : Type 0} (P : B → Typemap → Type 0) (f : ℕ → M B) (t p : ℕ) (m : Typemap)
          → IsRebuilt n t
          → get_k t g ≡ some p
          → IsCopy m
          → ((l : Typemap) → IsCopy l → Ends P Never (f t l))
          → Ends P Never ((rec p >>= f) m)
      part P f t p m r k c h =
          Ends-bind P (rec p) f (step t p m r k c)
            (λ x l a. subst (λ y. Ends P Never (f y l)) (sym (a.1)) (h l (a.0)))

      made :
          (s : Shape) (t : ℕ) (m : Typemap)
          → make s ≡ some t
          → IsCopy m
          → Ends (Gives t) Never (make_type byte make s m)
      made s t m e c = rw e (ends t m (c, refl))

      types-Ends :
          (ts ps : List ℕ) (m : Typemap)
          → Points g.from_k ts ps
          → ((u : ℕ) → Memᴰ u ts → IsRebuilt n u)
          → IsCopy m
          → Ends (λ xs l. IsCopy l × (xs ≡ ts)) Never (to_types rec ps m)
      unfolding to_types
      types-Ends _ _ m end q c = ends [] m (c, refl)
      types-Ends _ _ m (point t p ts ps e r) q c = part _ _ t p m (q t (head refl)) e c (λ l d.
          Ends-bind _ (to_types rec ps) _ (types-Ends ts ps l r (λ u i. q u (tail i)) d)
            (λ xs k a. ends _ k (a.0, ap (λ ys. t ∷ ys) (a.1))))

      fields-Ends :
          (fs : List StructField) (ps : List Field) (m : Typemap)
          → PointFields g.from_k fs ps
          → ((f : StructField) → Memᴰ f fs → IsRebuilt n f.typ × (is_exported f ≡ true))
          → IsCopy m
          → Ends (λ xs l. IsCopy l × (xs ≡ fs)) Never (struct_fields rec ps m)
      unfolding struct_fields
      fields-Ends _ _ m PointFields.end q c = ends [] m (c, refl)
      fields-Ends _ _ m (PointFields.point f p fs ps e r) q c =
          part _ _ f.typ p m ((q f (head refl)).0) e c (λ l d.
            Ends-bind _ (struct_fields rec ps) _ (fields-Ends fs ps l r (λ u i. q u (tail i)) d)
              (λ xs k a.
                ends _ k (a.0, cons_eq (struct_field-field_of f p ((q f (head refl)).1)) (a.1))))

      make_func-Ends :
          (ins outs : List ℕ) (v : Bool) (t : ℕ) (m : Typemap)
          → make (func_of ins outs v) ≡ some t
          → IsCopy m
          → Ends (Gives t) Never (make_func byte make (2 * length ins + boolint v) (ins ++ outs) m)
      make_func-Ends ins outs v t m e c =
          rw
            (
              half (length ins) v,
              odd (length ins) v,
              take-length ins outs,
              drop-length ins outs,
              enough ins outs,
            )
            (made (func_of ins outs v) t m e c)

      pub by_kind-Ends :
          (t o : ℕ) (s : Shape) (i : Info) (m : Typemap)
          → Fills byte g.from_k t o s i
          → make s ≡ some t
          → ((u : ℕ) → IsPart u s → IsRebuilt n u)
          → ((f : StructField) (fs : List StructField)
              → s ≡ struct_of fs
              → Memᴰ f fs
              → is_exported f ≡ true)
          → IsCopy m
          → Ends (Gives t) Never (by_kind byte make rec i i.kind m)
      unfolding by_kind
      by_kind-Ends t o _ _ m (fills_basic k b) e q x c = rw b (made (basic k) t m e c)
      by_kind-Ends t o _ _ m (fills_array k u p a) e q x c =
          part _ _ u p m (q u (of_array k u)) a c (λ l d. made _ t l e d)
      by_kind-Ends t o _ _ m (fills_map k u r p a b) e q x c =
          part _ _ k r m (q k (key_of_map k u)) a c
            (λ l d. part _ _ u p l (q u (of_map k u)) b d (λ l' d'. made _ t l' e d'))
      by_kind-Ends t o _ _ m (fills_pointer u p a) e q x c =
          rw (pointer_positive u p a)
            (part _ _ u p m (q u (of_pointer u)) a c (λ l d. made _ t l e d))
      by_kind-Ends t o _ _ m fills_unsafe_pointer e q x c = made unsafe_pointer t m e c
      by_kind-Ends t o _ _ m (fills_slice u p a) e q x c =
          part _ _ u p m (q u (of_slice u)) a c (λ l d. made _ t l e d)
      by_kind-Ends t o _ _ m (fills_struct fs ps a) e q x c =
          Ends-bind _ (struct_fields rec ps) _
            (fields-Ends fs ps m a (λ f i. (q f.typ (of_struct f fs i), x f fs refl i)) c)
            (λ xs l b.
              subst (λ ys. Ends (Gives t) Never (make_type byte make (struct_of ys) l)) (sym (b.1))
                (made (struct_of fs) t l e (b.0)))
      by_kind-Ends t o _ _ m (fills_func ins outs ps qs v a b) e q x c =
          Ends-bind _ (to_types rec (ps ++ qs)) _
            (types-Ends (ins ++ outs) (ps ++ qs) m (Points-append g.from_k ins outs ps qs a b)
              (λ u i. elim (append_cases ins i) [
                | inl j ↦ q u (in_func u ins outs v j)
                | inr j ↦ q u (out_func u ins outs v j)
              ])
              c)
            (λ xs l b'.
              subst
                (λ ys. Ends (Gives t) Never (make_func byte make (2 * length ins + boolint v) ys l))
                (sym (b'.1)) (make_func-Ends ins outs v t l e (b'.0)))
      by_kind-Ends t o _ _ m (fills_chan dd u p a) e q x c =
          rw (direction-dir_of dd) (part _ _ u p m (q u (of_chan dd u)) a c (λ l d. made _ t l e d))

      pub custom_Gives :
          (s : Serde) (t : ℕ) (m : Typemap)
          → get_elem? customs s.id ≡ some t
          → IsCopy m
          → Ends (Gives t) Never (expect out_of_range (get_elem? m.custom s.id) m)
      custom_Gives s t m e c =
          let here : get_elem? m.custom s.id ≡ some t = ap (λ cs. get_elem? cs s.id) c.custom ∙ e in
          rw here (ends t m (c, refl))

      pub by_offset :
          (t : ℕ) (i : Info) (m : Typemap)
          → t < 2 ^ 64
          → byte < 2 ^ 64
          → (i.offset ≡ 0) ⊎ (i.offset ≡ offset_for_type byte t)
          → (i.offset ≡ 0 → Ends (Gives t) Never (by_kind byte make rec i i.kind m))
          → IsCopy m
          → Ends (Gives t) Never (reflect_type byte make rec i m)
      unfolding reflect_type
      by_offset t i m h k own by_shape c = elim (Bool-cases (i.offset == 0)) [
        | inl e ↦ rw e (by_shape ((==_iff i.offset 0).0 e))
        | inr e ↦ elim own [
          | inl z ↦ absurd (nonzero i.offset e z)
          | inr z ↦ rw e (
              ends _ m
                (c, ap (type_for_offset byte) z ∙ type_for_offset-offset_for_type byte t k h))
        ]
      ]
