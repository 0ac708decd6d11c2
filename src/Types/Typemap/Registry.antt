-- ===== src/Types/Typemap/Registry.antt =====
-- What attach leaves of the registered types.
use coroutine_durable_fork.Prelude.{
  ℕ, zero, suc, ◌≡◌, refl, sym, ap, subst, List, [], ◌∷◌, ◌++◌, Option, none, some, length,
  get_elem?, inl, inr, ◌≢◌, some-inj,
}
use coroutine_durable_fork.Prelude.Dict.{
  lookup, insert-some, insert-lookup, none-some, insert_apart,
}
use coroutine_durable_fork.Types.Typemap.{
  Serde, Typemap, gives, attach, attach_new, serde_of, IsRegistry,
}

get_elem?-append :
    (xs ys : List ℕ) (i x : ℕ) → get_elem? xs i ≡ some x → get_elem? (xs ++ ys) i ≡ some x
get_elem?-append [] ys i x h = absurd (none-some refl h)
get_elem?-append (y ∷ xs) ys zero x h = h
get_elem?-append (y ∷ xs) ys (suc i) x h = get_elem?-append xs ys i x h

get_elem?-last : (xs : List ℕ) (x : ℕ) → get_elem? (xs ++ x ∷ []) (length xs) ≡ some x
get_elem?-last [] x = refl
get_elem?-last (y ∷ xs) x = get_elem?-last xs x

-- The type has the functions, at an index of the type itself, which stays what it was if there was
-- one; the other types have what they had.
pub record IsAttached (t ser des : ℕ) (m n : Typemap) : Type 0 where
  pub id : ℕ
  pub mine : serde_of t n ≡ some (record { id = id; ser = ser; des = des })
  pub at : get_elem? n.custom id ≡ some t
  pub same_id : (s : Serde) → serde_of t m ≡ some s → s.id ≡ id
  pub others : (u : ℕ) → u ≢ t → serde_of u n ≡ serde_of u m

attach_new-IsRegistry :
    (t ser des : ℕ) (m : Typemap) (o : Option Serde)
    → lookup t m.serdes ≡ o
    → IsRegistry m.serdes m.custom
    → IsRegistry (attach_new t ser des o m).serdes (attach_new t ser des o m).custom
attach_new-IsRegistry t ser des m (some s) h r u e k =
    elim (insert-some t u (record s { ser = ser; des = des }) e m.serdes k) [
      | inr old ↦ r u e old
      | inl (x, y) ↦
          subst (λ f. get_elem? m.custom f.id ≡ some u) y
            (subst (λ v. get_elem? m.custom s.id ≡ some v) x (r t s h))
    ]
attach_new-IsRegistry t ser des m none h r u e k =
    elim (insert-some t u (record { id = length m.custom; ser = ser; des = des }) e m.serdes k) [
      | inr old ↦ get_elem?-append m.custom (t ∷ []) e.id u (r u e old)
      | inl (x, y) ↦
          subst (λ f. get_elem? (m.custom ++ t ∷ []) f.id ≡ some u) y
            (subst (λ v. get_elem? (m.custom ++ t ∷ []) (length m.custom) ≡ some v) x
              (get_elem?-last m.custom t))
    ]

attach_new-IsAttached :
    (t ser des : ℕ) (m : Typemap) (o : Option Serde)
    → lookup t m.serdes ≡ o
    → IsRegistry m.serdes m.custom
    → IsAttached t ser des m (attach_new t ser des o m)
unfolding serde_of
attach_new-IsAttached t ser des m (some s) h r = record {
  id = s.id;
  mine = insert-lookup t _ m.serdes;
  at = r t s h;
  same_id = λ e k. ap (λ (f : Serde). f.id) (some-inj k h);
  others = λ u d. insert_apart t u _ m.serdes (λ e. d (sym e));
}
attach_new-IsAttached t ser des m none h r = record {
  id = length m.custom;
  mine = insert-lookup t _ m.serdes;
  at = get_elem?-last m.custom t;
  same_id = λ e k. absurd (none-some h k);
  others = λ u d. insert_apart t u _ m.serdes (λ e. d (sym e));
}

-- Where the types with custom serializers stand at their indices, attach with two functions gives
-- a typemap in which they do too. The type has the functions in it, and keeps the index that it had;
-- what the other types have stays.
pub attach-IsAttached :
    (t ser des : ℕ) (m : Typemap)
    → IsRegistry m.serdes m.custom
    → (n : Typemap) × (attach t (some ser) (some des) m ≡ gives tt n)
      × IsRegistry n.serdes n.custom
      × IsAttached t ser des m n
unfolding attach
attach-IsAttached t ser des m r = (
  _,
  refl,
  attach_new-IsRegistry t ser des m (lookup t m.serdes) refl r,
  attach_new-IsAttached t ser des m (lookup t m.serdes) refl r,
)
