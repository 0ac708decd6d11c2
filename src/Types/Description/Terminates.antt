-- ===== src/Types/Description/Terminates.antt =====
-- ToType, on the types that a type leads to.
use coroutine_durable_fork.Prelude.{
  ℕ, zero, ◌≤◌, Bool, suc, ◌<◌, ◌≡◌, ◌≢◌, refl, sym, ap, subst, Bool-cases, true, false, inl, inr,
  List, ◌==◌, ==_iff, ◌∷◌, Option, none, some, arith, length,
}
use mathlib.Core.List.{Memᴰ}
use coroutine_durable_fork.Prelude.Dict.{lookup, Keeps, free_le, free-insert, insert-lookup}
use coroutine_durable_fork.Types.Info.{Info, Shape, blank}
use coroutine_durable_fork.Types.Typemap.{
  Serde, Typemap, get_k, serde_of, add, allocate, write_info,
}
use coroutine_durable_fork.Types.Description.{
  name_offset, new_info, cached_or, with_serde, to_type, fill,
}
use coroutine_durable_fork.Types.Description.Graph.{
  Ends, ends, Ends-bind, Ends-map, no_type, custom_type, shaped, IsDescribed, IsSane, After,
  After-refl,
}
use coroutine_durable_fork.Types.Description.Growth.{
  IsDescribed-After, with_type, with_type-IsSane, with_type-After, write-After,
}
use coroutine_durable_fork.Types.Description.Fill.{
  IsPart, IsReady, Unsupported, Describing, fill-Ends,
}

-- A type leads to itself, and to the parts of what it leads to that have no custom serializer.
pub data Leads (describe : ℕ → Shape) (serdes : List (ℕ × Serde)) (t : ℕ) : ℕ → Type 0 where
  itself : Leads describe serdes t t
  through :
      (u v : ℕ)
      → Leads describe serdes t u
      → u ≢ 0
      → lookup u serdes ≡ none
      → IsPart v (describe u)
      → Leads describe serdes t v

pub nonzero : (t : ℕ) → (t == 0) ≡ false → t ≢ 0
nonzero t h e = let z : (t == 0) ≡ true = (==_iff t 0).1 e in cc

module _ (byte : ℕ) (describe : ℕ → Shape) (named : ℕ → Bool) (serdes : List (ℕ × Serde))
    (customs : List ℕ) (Q : ℕ → Type 0) (keys : List ℕ)
    (along : (t u : ℕ) → Q t → t ≢ 0 → lookup t serdes ≡ none → IsPart u (describe t) → Q u)
    (within : (t : ℕ) → Q t → Memᴰ t keys) where
  abbrev Ready : ℕ → Typemap → Type 0
  Ready n m = IsReady byte describe named serdes customs Q keys n m

  abbrev Step : Typemap → ℕ → ℕ → Typemap → Type 0
  Step m t p l = After byte describe named serdes customs m l × (get_k t l ≡ some p)

  with_type-Ready :
      (n : ℕ) (t : ℕ) (m : Typemap) (i : Info)
      → Q t
      → get_k t m ≡ none
      → Ready (suc n) m
      → Ready n (with_type byte describe named serdes customs m t i)
  with_type-Ready n t m i q z r = record {
    sane = with_type-IsSane byte describe named serdes customs m t i r.sane;
    left =
        let less = free-insert keys t (suc m.count) m.from_k (within t q) z in
        omega (arith, less, r.left);
  }

  module _ (n : ℕ) (t : ℕ) (m : Typemap) (q : Q t) (z : get_k t m ≡ none)
      (r : Ready (suc n) m) where
    with_serde-Ends :
        (o : Option Serde)
        → t ≢ 0
        → lookup t serdes ≡ o
        → Describing byte describe named serdes customs Q keys n (to_type byte describe named n)
        → Ends
            (Step m t)
            (Unsupported describe serdes Q)
            (with_serde byte describe named (to_type byte describe named n) t o m)
    unfolding add allocate write_info
    with_serde-Ends (some s) nz h step = ends _ _ (
      with_type-After byte describe named serdes customs m t _ z r.sane (custom_type t s nz h),
      insert-lookup t (suc m.count) m.from_k,
    )
    with_serde-Ends none nz h step =
        Ends-bind (Step m t)
          (fill byte (to_type byte describe named n) t (name_offset byte describe named t)
            (describe t))
          _
          (fill-Ends byte describe named serdes customs Q keys n (to_type byte describe named n)
            step t (name_offset byte describe named t) (describe t)
            (with_type byte describe named serdes customs m t
              (blank (name_offset byte describe named t)))
            (λ u p. along t u q nz h p) (λ k e b. (t, k, q, h, e, b, refl))
            (with_type-Ready n t m _ q z r))
          (λ i l a. ends _ _ (
            write-After byte describe named serdes customs m l t i _ z (a.0)
                (shaped t i nz h (a.1)),
            a.0.kept t (suc m.count) (insert-lookup t (suc m.count) m.from_k),
          ))

  new_info-Ends :
      (n t : ℕ) (m : Typemap)
      → Q t
      → get_k t m ≡ none
      → Ready (suc n) m
      → Describing byte describe named serdes customs Q keys n (to_type byte describe named n)
      → Ends
          (Step m t)
          (Unsupported describe serdes Q)
          (new_info byte describe named (to_type byte describe named n) t m)
  unfolding serde_of add allocate
  new_info-Ends n t m q z r step = elim (Bool-cases (t == 0)) [
    | inl e ↦
        let nil : 0 ≡ t = sym ((==_iff t 0).0 e) in
        rw e (
          ends _ _ (
            subst
              (λ u.
                After byte describe named serdes customs m
                  (with_type byte describe named serdes customs m 0 (blank 0))
                × (lookup u ((0, suc m.count) ∷ m.from_k) ≡ some (suc m.count)))
              nil
              (
                with_type-After byte describe named serdes customs m 0 (blank 0)
                    (subst (λ u. get_k u m ≡ none) (sym nil) z) r.sane no_type,
                insert-lookup 0 (suc m.count) m.from_k,
              )))
    | inr e ↦ rw e (
        with_serde-Ends n t m q z r (lookup t m.serdes) (λ nil. nonzero t e nil)
          (ap (lookup t) (sym r.sane.same_serdes)) step)
  ]

  cached_or-Ends :
      (n t : ℕ) (m : Typemap) (o : Option ℕ)
      → Q t
      → get_k t m ≡ o
      → Ready (suc n) m
      → Describing byte describe named serdes customs Q keys n (to_type byte describe named n)
      → Ends
          (Step m t)
          (Unsupported describe serdes Q)
          (cached_or o (new_info byte describe named (to_type byte describe named n) t) m)
  cached_or-Ends n t m (some p) q e r step =
      ends p m (After-refl byte describe named serdes customs m r.sane, e)
  cached_or-Ends n t m none q e r step = new_info-Ends n t m q e r step

  pub to_type-Describing :
      (n : ℕ)
      → Describing byte describe named serdes customs Q keys n (to_type byte describe named n)
  unfolding to_type
  to_type-Describing zero t m q r = let left = r.left in absurd (omega (arith, left))
  to_type-Describing (suc n) t m q r =
      cached_or-Ends n t m (get_k t m) q refl r (to_type-Describing n)

module _ (byte : ℕ) (describe : ℕ → Shape) (named : ℕ → Bool) (serdes : List (ℕ × Serde))
    (customs : List ℕ) where
  -- Each type that is cached has a complete description, and the two maps of the cache agree.
  pub record IsGraph (m : Typemap) : Type 0 where
    pub sane : IsSane byte describe named serdes customs m
    pub complete : (t p : ℕ) → get_k t m ≡ some p → IsDescribed byte describe named serdes m t

  -- A graph with the type, in which what another one has is as it was there.
  pub record IsGraphWith (m : Typemap) (t p : ℕ) (l : Typemap) : Type 0 where
    pub graph : IsGraph l
    pub cached : get_k t l ≡ some p
    pub kept : Keeps m.from_k l.from_k
    pub stays : (q : ℕ) → q ≤ m.count → lookup q l.infos ≡ lookup q m.infos

  After-IsGraph :
      (m l : Typemap) → IsGraph m → After byte describe named serdes customs m l → IsGraph l
  After-IsGraph m l g a = record {
    sane = a.sane;
    complete = λ t p h. elim (a.fresh t p h) [
      | inr new ↦ new
      | inl old ↦ IsDescribed-After byte describe named serdes customs m l t a (g.complete t p old)
    ];
  }

  -- Where a type leads to the types of a list, fuel above its length is enough for ToType, on a
  -- typemap in which each cached type has a complete description and the two maps of the cache
  -- agree. It leaves such a typemap, in which this type is cached at the pointer that it gives, and
  -- the cached types and descriptions that were there before are as they were; or it panics, and
  -- the type leads to one without a custom serializer and of a kind that is not supported.
  pub to_type-IsGraph :
      (m : Typemap) (t n : ℕ) (types : List ℕ)
      → IsGraph m
      → ((u : ℕ) → Leads describe serdes t u → Memᴰ u types)
      → length types < n
      → Ends
          (IsGraphWith m t)
          (Unsupported describe serdes (Leads describe serdes t))
          (to_type byte describe named n t m)
  to_type-IsGraph m t n types g h f =
      Ends-map _
        (to_type-Describing byte describe named serdes customs (Leads describe serdes t) types
          (λ u v l z e p. through u v l z e p) h n t m itself
          (record {
            sane = g.sane;
            left = let few = free_le types m.from_k in omega (arith, few, f);
          }))
        (λ p l a. record {
          graph = After-IsGraph m l g (a.0);
          cached = a.1;
          kept = a.0.kept;
          stays = a.0.stays;
        })
