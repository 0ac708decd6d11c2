-- ===== src/Types/Description/Fill.antt =====
-- The switch of ToType: where the calls for the parts of a type describe them, it describes the
-- type.
use coroutine_durable_fork.Prelude.{
  ℕ, zero, suc, ◌<◌, ◌≡◌, refl, Bool, inl, inr, false, List, [], ◌∷◌, none, some, arith, ◌==◌,
  Bool-cases,
}
use mathlib.Core.List.{Memᴰ}
use mathlib.Core.List.Memᴰ.{head, tail}
use coroutine_durable_fork.Prelude.Dict.{lookup, free, free_mono}
use coroutine_durable_fork.Types.Info.{
  Direction, StructField, Shape, basic, array, map_of, pointer_to, unsafe_pointer, slice_of,
  struct_of, func_of, chan_of,
}
use coroutine_durable_fork.Types.Typemap.{
  Serde, Typemap, Failure, invalid_kind, unsupported_kind, M, ◌>>=◌, get_k,
}
use coroutine_durable_fork.Types.Description.{Rec, is_basic, to_types, to_fields, fill}
use coroutine_durable_fork.Types.Description.Graph.{
  Ends, ends, fails, Ends-bind, Ends-map, Points, end, point, PointFields, Fills, fills_basic,
  fills_array, fills_map, fills_pointer, fills_unsafe_pointer, fills_slice, fills_struct,
  fills_func, fills_chan, Points-Keeps, IsSane, After, After-refl,
}
use coroutine_durable_fork.Types.Description.Growth.{After-trans}

-- The types that the description of a type of this shape leads to.
pub data IsPart : ℕ → Shape → Type 0 where
  of_array : (n e : ℕ) → IsPart e (array n e)
  key_of_map : (k e : ℕ) → IsPart k (map_of k e)
  of_map : (k e : ℕ) → IsPart e (map_of k e)
  of_pointer : (e : ℕ) → IsPart e (pointer_to e)
  of_slice : (e : ℕ) → IsPart e (slice_of e)
  of_struct : (f : StructField) (fs : List StructField) → Memᴰ f fs → IsPart f.typ (struct_of fs)
  in_func : (t : ℕ) (ins outs : List ℕ) (v : Bool) → Memᴰ t ins → IsPart t (func_of ins outs v)
  out_func : (t : ℕ) (ins outs : List ℕ) (v : Bool) → Memᴰ t outs → IsPart t (func_of ins outs v)
  of_chan : (d : Direction) (e : ℕ) → IsPart e (chan_of d e)

-- The panic for a kind that the switch does not handle.
abbrev pub kind_failure : ℕ → Failure
kind_failure zero = invalid_kind
kind_failure (suc k) = unsupported_kind

-- A type that ToType cannot describe.
abbrev pub Unsupported : (ℕ → Shape) → List (ℕ × Serde) → (ℕ → Type 0) → Failure → Type 0
Unsupported describe serdes Q e =
    (t : ℕ) × (k : ℕ) × Q t
    × (lookup t serdes ≡ none)
    × (describe t ≡ basic k)
    × (is_basic k ≡ false)
    × (e ≡ kind_failure k)

positive : (k : ℕ) → (suc k == 0) ≡ false
positive k = ground arith

module _ (byte : ℕ) (describe : ℕ → Shape) (named : ℕ → Bool) (serdes : List (ℕ × Serde))
    (customs : List ℕ) (Q : ℕ → Type 0) (keys : List ℕ) where
  -- A typemap before a call on fuel `n`, for types among `keys`.
  pub record IsReady (n : ℕ) (m : Typemap) : Type 0 where
    pub sane : IsSane byte describe named serdes customs m
    pub left : free keys m.from_k < n

  IsReady-After :
      (n : ℕ) (l m : Typemap)
      → IsReady n l
      → After byte describe named serdes customs l m
      → IsReady n m
  IsReady-After n l m r a = record {
    sane = a.sane;
    left = let less = free_mono keys l.from_k m.from_k a.kept in omega (arith, less, r.left);
  }

  abbrev pub Describing : ℕ → Rec → Type 0
  Describing n rec =
      (t : ℕ) (m : Typemap)
      → Q t
      → IsReady n m
      → Ends (λ p l. After byte describe named serdes customs m l × (get_k t l ≡ some p))
          (Unsupported describe serdes Q) (rec t m)

  module _ (n : ℕ) (rec : Rec) (step : Describing n rec) where
    -- A call for a part, and what follows it.
    call :
        {B : Type 0} {P : B → Typemap → Type 0} (f : ℕ → M B) (t : ℕ) (m : Typemap)
        → Q t
        → IsReady n m
        → ((p : ℕ) (l : Typemap)
            → After byte describe named serdes customs m l
            → IsReady n l
            → get_k t l ≡ some p
            → Ends
                (λ b k. After byte describe named serdes customs l k × P b k)
                (Unsupported describe serdes Q)
                (f p l))
        → Ends
            (λ b k. After byte describe named serdes customs m k × P b k)
            (Unsupported describe serdes Q)
            ((rec t >>= f) m)
    call f t m q r h = Ends-bind _ (rec t) f (step t m q r) (λ p l a.
        Ends-map _ (h p l (a.0) (IsReady-After n m l r (a.0)) (a.1))
          (λ b k c. (After-trans byte describe named serdes customs m l k (a.0) (c.0), c.1)))

    to_types-Ends :
        (ts : List ℕ) (m : Typemap)
        → ((t : ℕ) → Memᴰ t ts → Q t)
        → IsReady n m
        → Ends
            (λ ps l. After byte describe named serdes customs m l × Points l.from_k ts ps)
            (Unsupported describe serdes Q)
            (to_types rec ts m)
    unfolding to_types
    to_types-Ends [] m q r = ends [] m (After-refl byte describe named serdes customs m r.sane, end)
    to_types-Ends (t ∷ ts) m q r = call _ t m (q t (head refl)) r (λ p l a s h.
        Ends-bind _ (to_types rec ts) _ (to_types-Ends ts l (λ u i. q u (tail i)) s)
          (λ ps k c. ends (p ∷ ps) k (c.0, point t p ts ps (c.0.kept t p h) (c.1))))

    to_fields-Ends :
        (fs : List StructField) (m : Typemap)
        → ((f : StructField) → Memᴰ f fs → Q f.typ)
        → IsReady n m
        → Ends
            (λ ps l. After byte describe named serdes customs m l × PointFields l.from_k fs ps)
            (Unsupported describe serdes Q)
            (to_fields rec fs m)
    unfolding to_fields
    to_fields-Ends [] m q r =
        ends [] m (After-refl byte describe named serdes customs m r.sane, PointFields.end)
    to_fields-Ends (f ∷ fs) m q r = call _ f.typ m (q f (head refl)) r (λ p l a s h.
        Ends-bind _ (to_fields rec fs) _ (to_fields-Ends fs l (λ u i. q u (tail i)) s)
          (λ ps k c. ends _ k (c.0, PointFields.point f p fs ps (c.0.kept f.typ p h) (c.1))))

    fine : (m : Typemap) → IsReady n m → After byte describe named serdes customs m m
    fine m r = After-refl byte describe named serdes customs m r.sane

    pub fill-Ends :
        (t o : ℕ) (s : Shape) (m : Typemap)
        → ((u : ℕ) → IsPart u s → Q u)
        → ((k : ℕ)
            → s ≡ basic k
            → is_basic k ≡ false
            → Unsupported describe serdes Q (kind_failure k))
        → IsReady n m
        → Ends
            (λ i l. After byte describe named serdes customs m l × Fills byte l.from_k t o s i)
            (Unsupported describe serdes Q)
            (fill byte rec t o s m)
    unfolding fill
    fill-Ends t o (basic zero) m q w r = fails invalid_kind (w 0 refl refl)
    fill-Ends t o (basic (suc k)) m q w r = elim (Bool-cases (is_basic (suc k))) [
      | inr e ↦ rw (e, positive k) (fails unsupported_kind (w (suc k) refl e))
      | inl e ↦ rw (e, positive k) (ends _ m (fine m r, fills_basic (suc k) e))
    ]
    fill-Ends t o (array k e) m q w r =
        call _ e m (q e (of_array k e)) r (λ p l a s h. ends _ l (fine l s, fills_array k e p h))
    fill-Ends t o (map_of d e) m q w r = call _ d m (q d (key_of_map d e)) r (λ p l a s h.
        call _ e l (q e (of_map d e)) s
          (λ p' l' a' s' h'. ends _ l' (fine l' s', fills_map d e p p' (a'.kept d p h) h')))
    fill-Ends t o (pointer_to e) m q w r =
        call _ e m (q e (of_pointer e)) r (λ p l a s h. ends _ l (fine l s, fills_pointer e p h))
    fill-Ends t o unsafe_pointer m q w r = ends _ m (fine m r, fills_unsafe_pointer)
    fill-Ends t o (slice_of e) m q w r =
        call _ e m (q e (of_slice e)) r (λ p l a s h. ends _ l (fine l s, fills_slice e p h))
    fill-Ends t o (struct_of fs) m q w r =
        Ends-bind _ (to_fields rec fs) _ (to_fields-Ends fs m (λ f i. q f.typ (of_struct f fs i)) r)
          (λ ps l a. ends _ l (a.0, fills_struct fs ps (a.1)))
    fill-Ends t o (func_of ins outs v) m q w r =
        Ends-bind _ (to_types rec ins) _
          (to_types-Ends ins m (λ u i. q u (in_func u ins outs v i)) r)
          (λ ps l a.
            Ends-bind _ (to_types rec outs) _
              (to_types-Ends outs l (λ u i. q u (out_func u ins outs v i))
                (IsReady-After n m l r (a.0)))
              (λ qs k c. ends _ k (
                After-trans byte describe named serdes customs m l k (a.0) (c.0),
                fills_func ins outs ps qs v
                    (Points-Keeps byte l.from_k k.from_k ins ps (c.0.kept) (a.1)) (c.1),
              )))
    fill-Ends t o (chan_of d e) m q w r =
        call _ e m (q e (of_chan d e)) r (λ p l a s h. ends _ l (fine l s, fills_chan d e p h))
