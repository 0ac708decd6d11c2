-- ===== src/Types/Description/RoundTrip.antt =====
-- ToReflect gives back the type that a description was made of.
use coroutine_durable_fork.Prelude.{
  ℕ, zero, suc, ◌^◌, ◌<◌, ◌≡◌, ◌⊎◌, refl, sym, ap, subst, ◌∙◌, Bool, inl, inr, List, Option, none,
  some, some-inj, length,
}
use mathlib.Core.List.{Memᴰ}
use coroutine_durable_fork.Prelude.Dict.{lookup, insert-some}
use coroutine_durable_fork.Types.Info.{blank, type_custom, Info, Shape, basic}
use coroutine_durable_fork.Types.Typemap.{
  IsRegistry, gives, panics, out_of_fuel, Serde, Typemap, Failure, Outcome, M, ◌>>=◌, get_k, get_v,
  add, load, give,
}
use coroutine_durable_fork.Types.Description.{
  Rec, offset_for_type, name_offset, by_kind, reflect_type, cached_or, rebuild, to_reflect, to_type,
  deserialize_type,
}
use coroutine_durable_fork.Types.Description.Graph.{
  Ends, ends, fails, Ends-bind, Describes, no_type, custom_type, shaped,
}
use coroutine_durable_fork.Types.Description.Terminates.{
  IsGraph, IsGraphWith, Leads, to_type-IsGraph,
}
use coroutine_durable_fork.Types.Description.Reading.{
  Never, IsShaped, IsRebuilt, rebuilt, IsCopy, Gives, Reading, by_kind-Ends, custom_Gives,
  by_offset, not_struct,
}
use coroutine_durable_fork.Types.Description.Rebuild.{
  name_offset-own, Fills-offset, type_offset-own, field_offset-exported, type_offset,
}

module _ (byte : ℕ) (describe : ℕ → Shape) (named : ℕ → Bool) (make : Shape → Option ℕ)
    (serdes : List (ℕ × Serde)) (customs : List ℕ) (g : Typemap)
    (graph : IsGraph byte describe named serdes customs g) where
  module _ (n : ℕ) (rec : Rec)
      (step : Reading byte describe named make serdes customs g graph n rec) where
    reflect_type-Ends :
        (t : ℕ) (i : Info) (m : Typemap)
        → byte < 2 ^ 64
        → describe byte ≡ basic 8
        → IsRegistry serdes customs
        → IsRebuilt byte describe named make serdes (suc n) t
        → Describes byte describe named serdes g.from_k t i
        → IsCopy byte describe named make serdes customs g graph m
        → Ends
            (Gives byte describe named make serdes customs g graph t)
            Never
            (reflect_type byte make rec i m)
    unfolding reflect_type by_kind
    reflect_type-Ends _ _ m h b reg r no_type c = ends 0 m (c, refl)
    reflect_type-Ends _ _ m h b reg (rebuilt _ _ k e q) (custom_type t s nz z) c =
        by_offset byte describe named make serdes customs g graph n rec step t
          (record (blank (name_offset byte describe named t)) { kind = type_custom; val = s.id }) m
          k h (name_offset-own byte describe named t)
          (λ o.
            custom_Gives byte describe named make serdes customs g graph n rec step s t m
              (reg t s z) c)
          c
    reflect_type-Ends _ _ m h b reg (rebuilt _ _ k e q) (shaped t i nz z f) c =
        let own = Fills-offset byte g.from_k t _ (describe t) i f in
        by_offset byte describe named make serdes customs g graph n rec step t i m k h
          (subst (λ o. (o ≡ 0) ⊎ (o ≡ offset_for_type byte t)) (sym own)
            (type_offset-own byte t _ (describe t) (name_offset-own byte describe named t)))
          (λ o.
            let shape : IsShaped byte describe named make serdes t = (nz, z, sym own ∙ o) in
            by_kind-Ends byte describe named make serdes customs g graph n rec step t _ (describe t)
              i m f (e shape) (λ u p. q u shape p)
              (λ a fs s j.
                field_offset-exported byte t
                  (λ y. not_struct byte describe named make serdes customs g graph t fs h k b s y) _
                  fs
                  (subst (λ w. type_offset byte t (name_offset byte describe named t) w ≡ 0) s
                    (shape.2))
                  a j)
              c)
          c

  -- What ToReflect does with its result.
  abbrev keep : ℕ → ℕ → M ℕ
  keep p t = add t p >>= (λ q. give t)

  module _ (h : byte < 2 ^ 64) (b : describe byte ≡ basic 8) (reg : IsRegistry serdes customs) where
    -- The description that is read gives the type.
    load-Ends :
        (n t p : ℕ) (m : Typemap) (rec : Rec)
        → Reading byte describe named make serdes customs g graph n rec
        → IsRebuilt byte describe named make serdes (suc n) t
        → get_k t g ≡ some p
        → IsCopy byte describe named make serdes customs g graph m
        → Ends
            (λ i l.
              Ends
                (Gives byte describe named make serdes customs g graph t)
                Never
                (reflect_type byte make rec i l))
            Never
            (load p m)
    unfolding load
    load-Ends n t p m rec step r e c =
        let d = graph.complete t p e in
        let same : d.pointer ≡ p = some-inj d.cached e in
        let here : lookup p m.infos ≡ some d.info =
          c.infos p d.info (subst (λ q. lookup q g.infos ≡ some d.info) same d.found) in
        rw here (ends d.info m (reflect_type-Ends n rec step t d.info m h b reg r d.right c))

    rebuild-Ends :
        (n t p : ℕ) (m : Typemap) (rec : Rec)
        → Reading byte describe named make serdes customs g graph n rec
        → IsRebuilt byte describe named make serdes (suc n) t
        → get_k t g ≡ some p
        → IsCopy byte describe named make serdes customs g graph m
        → Ends
            (Gives byte describe named make serdes customs g graph t)
            Never
            (rebuild byte make rec p m)
    unfolding add
    rebuild-Ends n t p m rec step r e c =
        Ends-bind _ (load p) _ (load-Ends n t p m rec step r e c) (λ i k f.
          Ends-bind _ (reflect_type byte make rec i) (keep p) f (λ x l a. ends x _ (
            record {
              custom = a.0.custom;
              infos = a.0.infos;
              right = λ u q w. elim (insert-some p q x u l.from_v w) [
                | inr old ↦ a.0.right u q old
                | inl (v, j) ↦
                    subst (λ y. get_k u g ≡ some y) v
                      (subst (λ y. get_k y g ≡ some p) (sym (a.1) ∙ j) e)
              ];
            },
            a.1,
          )))

    cached-Gives :
        (n t p : ℕ) (m : Typemap) (o : Option ℕ) (rec : Rec)
        → get_v p m ≡ o
        → Reading byte describe named make serdes customs g graph n rec
        → IsRebuilt byte describe named make serdes (suc n) t
        → get_k t g ≡ some p
        → IsCopy byte describe named make serdes customs g graph m
        → Ends
            (Gives byte describe named make serdes customs g graph t)
            Never
            (cached_or o (rebuild byte make rec p) m)
    cached-Gives n t p m none rec v step r e c = rebuild-Ends n t p m rec step r e c
    cached-Gives n t p m (some x) rec v step r e c =
        ends x m (c, some-inj (graph.sane.back x p (c.right x p v)) (graph.sane.back t p e))

    to_reflect-to_type :
        (n : ℕ) → Reading byte describe named make serdes customs g graph n (to_reflect byte make n)
    unfolding to_reflect
    to_reflect-to_type zero t p m r e c = absurd (elim r [ ])
    to_reflect-to_type (suc n) t p m r e c =
        cached-Gives n t p m (get_v p m) (to_reflect byte make n) refl (to_reflect-to_type n) r e c

abbrev Content : {A : Type 0} → (A → Typemap → Type 0) → Outcome A → Type 0
Content P (gives a m) = P a m
Content P (panics e) = Unit
Content P out_of_fuel = Unit

content :
    {A : Type 0} {P : A → Typemap → Type 0} {W : Failure → Type 0} {r : Outcome A}
    → Ends P W r
    → Content P r
content (ends a m p) = p
content (fails e w) = tt

result :
    {t : ℕ} {P : Typemap → Type 0} {r : Outcome ℕ}
    → Ends (λ x l. P l × (x ≡ t)) Never r
    → (l : Typemap) × (r ≡ gives t l)
result (ends x l p) = (l, ap (λ y. gives y l) (p.1))
result (fails e w) = absurd w

module _ (byte : ℕ) (describe : ℕ → Shape) (named : ℕ → Bool) (make : Shape → Option ℕ)
    (serdes : List (ℕ × Serde)) (customs : List ℕ) where
  -- A type that ToType describes comes back from its description. Let the typemap hold complete
  -- descriptions only, on fuel as ToType needs it, and let another typemap have the same types with
  -- custom serializers, each at its index, the descriptions under the same pointers, and a cache
  -- that leads no pointer to another type. Then the end of deserializeType gives the type, if the
  -- types that a description tells only by their shape are nested no deeper than the fuel, and
  -- reflect makes each of them from what it says of it; types have addresses of 64 bits, and byte
  -- is of the kind reflect.Uint8.
  pub deserialize_type-to_type :
      (m l c : Typemap) (t p n k : ℕ) (types : List ℕ)
      → byte < 2 ^ 64
      → describe byte ≡ basic 8
      → IsRegistry serdes customs
      → IsGraph byte describe named serdes customs m
      → ((u : ℕ) → Leads describe serdes t u → Memᴰ u types)
      → length types < n
      → IsRebuilt byte describe named make serdes (suc k) t
      → to_type byte describe named n t m ≡ gives p l
      → c.custom ≡ customs
      → ((q : ℕ) (i : Info) → lookup q l.infos ≡ some i → lookup q c.infos ≡ some i)
      → ((u q : ℕ) → get_v q c ≡ some u → get_k u l ≡ some q)
      → (d : Typemap) × (deserialize_type byte make k p c ≡ gives t d)
  unfolding deserialize_type
  deserialize_type-to_type m l c t p n k types h b reg g leads f r run cu inf rt =
      let after : IsGraphWith byte describe named serdes customs m t p l =
        subst (λ o. Content (IsGraphWith byte describe named serdes customs m t) o) run
          (content (to_type-IsGraph byte describe named serdes customs m t n types g leads f)) in
      result (
        Ends-bind _ (load p) _
          (load-Ends byte describe named make serdes customs l after.graph h b reg k t p c
            (to_reflect byte make k)
            (to_reflect-to_type byte describe named make serdes customs l after.graph h b reg k) r
            after.cached (record { custom = cu; infos = inf; right = rt }))
          (λ i j e. e))
