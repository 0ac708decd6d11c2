-- ===== src/Types/Description/Growth.antt =====
-- The steps between typemaps that ToType makes: typemaps one after the other, and a new type.
use coroutine_durable_fork.Prelude.{
  ℕ, suc, ◌≤◌, ◌≡◌, ◌⊎◌, sym, subst, ap, ◌∙◌, Bool, inl, inr, List, ◌∷◌, none, some, arith, ◌==◌,
  ==_iff, Bool-cases, some-inj,
}
use coroutine_durable_fork.Prelude.Dict.{
  insert_apart, lookup, Keeps, insert-Keeps, insert-some, insert-lookup,
}
use coroutine_durable_fork.Types.Info.{Info, Shape}
use coroutine_durable_fork.Types.Typemap.{Serde, Typemap, get_k, get_v}
use coroutine_durable_fork.Types.Description.Graph.{
  Describes, no_type, custom_type, shaped, Fills-Keeps, IsDescribed, IsSane, After,
}

module _ (byte : ℕ) (describe : ℕ → Shape) (named : ℕ → Bool) (serdes : List (ℕ × Serde)) where
  pub Describes-Keeps :
      (k l : List (ℕ × ℕ)) (t : ℕ) (i : Info)
      → Keeps k l
      → Describes byte describe named serdes k t i
      → Describes byte describe named serdes l t i
  Describes-Keeps k l _ _ h no_type = no_type
  Describes-Keeps k l _ _ h (custom_type t s z e) = custom_type t s z e
  Describes-Keeps k l _ _ h (shaped t i z e f) = shaped t i z e (Fills-Keeps byte k l _ _ _ i h f)

  module _ (customs : List ℕ) where
    pub IsDescribed-After :
        (m n : Typemap) (t : ℕ)
        → After byte describe named serdes customs m n
        → IsDescribed byte describe named serdes m t
        → IsDescribed byte describe named serdes n t
    IsDescribed-After m n t a d = record {
      pointer = d.pointer;
      info = d.info;
      cached = a.kept t d.pointer d.cached;
      known = let k = d.known in let g = a.grows in omega (arith, k, g);
      found = a.stays d.pointer d.known ∙ d.found;
      right = Describes-Keeps m.from_k n.from_k t d.info a.kept d.right;
    }

    pub After-trans :
        (l m n : Typemap)
        → After byte describe named serdes customs l m
        → After byte describe named serdes customs m n
        → After byte describe named serdes customs l n
    After-trans l m n a b = record {
      sane = b.sane;
      kept = λ t p h. b.kept t p (a.kept t p h);
      grows = let g = a.grows in let h = b.grows in omega (arith, g, h);
      stays = λ p h. b.stays p (let g = a.grows in omega (arith, g, h)) ∙ a.stays p h;
      fresh = λ t p h. elim (b.fresh t p h) [
        | inr new ↦ inr new
        | inl old ↦ elim (a.fresh t p old) [
          | inl older ↦ inl older
          | inr new ↦ inr (IsDescribed-After m n t b new)
        ]
      ];
    }

    -- The typemap with a new type.
    abbrev pub with_type : Typemap → ℕ → Info → Typemap
    with_type m t i = record m {
      from_k = (t, suc m.count) ∷ m.from_k;
      from_v = (suc m.count, t) ∷ m.from_v;
      infos = (suc m.count, i) ∷ m.infos;
      count = suc m.count;
    }

    pub with_type-IsSane :
        (m : Typemap) (t : ℕ) (i : Info)
        → IsSane byte describe named serdes customs m
        → IsSane byte describe named serdes customs (with_type m t i)
    with_type-IsSane m t i s = record {
      bounded = λ u p h. elim (insert-some t u (suc m.count) p m.from_k h) [
        | inl (x, y) ↦ (omega (arith, y), omega (arith, y))
        | inr old ↦ let b = s.bounded u p old in (b.0, omega (arith, b.1))
      ];
      back = λ u p h. elim (insert-some t u (suc m.count) p m.from_k h) [
        | inl (x, y) ↦
            subst (λ q. lookup q ((suc m.count, t) ∷ m.from_v) ≡ some u) y
              (insert-lookup (suc m.count) t m.from_v ∙ ap some x)
        | inr old ↦
            let b = s.bounded u p old in
            insert_apart (suc m.count) p t m.from_v (λ e. omega (arith, e, b.1)) ∙ s.back u p old
      ];
      same_serdes = s.same_serdes;
      same_custom = s.same_custom;
    }

    -- A new type with its description, among others.
    completed :
        (m n : Typemap) (t : ℕ) (i : Info)
        → get_k t m ≡ none
        → IsSane byte describe named serdes customs n
        → Keeps ((t, suc m.count) ∷ m.from_k) n.from_k
        → suc m.count ≤ n.count
        → ((p : ℕ) → p ≤ m.count → lookup p n.infos ≡ lookup p m.infos)
        → lookup (suc m.count) n.infos ≡ some i
        → Describes byte describe named serdes n.from_k t i
        → ((u p : ℕ)
            → get_k u n ≡ some p
            → (lookup u ((t, suc m.count) ∷ m.from_k) ≡ some p)
              ⊎ ((u ≡ t) ⊎ IsDescribed byte describe named serdes n u))
        → After byte describe named serdes customs m n
    completed m n t i z s k g w f d h =
        let done : IsDescribed byte describe named serdes n t = record {
          pointer = suc m.count;
          info = i;
          cached = k t (suc m.count) (insert-lookup t (suc m.count) m.from_k);
          known = g;
          found = f;
          right = d;
        } in
        record {
          sane = s;
          kept = λ u p e. k u p (insert-Keeps t (suc m.count) m.from_k z u p e);
          grows = omega (arith, g);
          stays = w;
          fresh = λ u p e. elim (h u p e) [
            | inr new ↦ elim new [
              | inl x ↦ inr (subst (λ v. IsDescribed byte describe named serdes n v) (sym x) done)
              | inr other ↦ inr other
            ]
            | inl old ↦ elim (insert-some t u (suc m.count) p m.from_k old) [
              | inr older ↦ inl older
              | inl (x, y) ↦ inr (subst (λ v. IsDescribed byte describe named serdes n v) x done)
            ]
          ];
        }

    -- A new type whose description is there at once.
    pub with_type-After :
        (m : Typemap) (t : ℕ) (i : Info)
        → get_k t m ≡ none
        → IsSane byte describe named serdes customs m
        → Describes byte describe named serdes ((t, suc m.count) ∷ m.from_k) t i
        → After byte describe named serdes customs m (with_type m t i)
    with_type-After m t i z s d =
        completed m (with_type m t i) t i z (with_type-IsSane m t i s) (λ u p h. h) (omega arith)
          (λ p h. insert_apart (suc m.count) p i m.infos (λ e. omega (arith, e, h)))
          (insert-lookup (suc m.count) i m.infos) d (λ u p h. inl h)

    -- A new type whose description is written after those of its parts.
    pub write-After :
        (m n : Typemap) (t : ℕ) (i j : Info)
        → get_k t m ≡ none
        → After byte describe named serdes customs (with_type m t j) n
        → Describes byte describe named serdes n.from_k t i
        → After byte describe named serdes customs m
            (record n { infos = (suc m.count, i) ∷ n.infos })
    write-After m n t i j z a d =
        let here : get_k t n ≡ some (suc m.count) =
          a.kept t (suc m.count) (insert-lookup t (suc m.count) m.from_k) in
        let grown = a.grows in
        completed m (record n { infos = (suc m.count, i) ∷ n.infos }) t i z
          (record {
            bounded = a.sane.bounded;
            back = a.sane.back;
            same_serdes = a.sane.same_serdes;
            same_custom = a.sane.same_custom;
          })
          a.kept grown
          (λ p h.
            insert_apart (suc m.count) p i n.infos (λ e. omega (arith, e, h))
            ∙ a.stays p (omega (arith, h))
            ∙ insert_apart (suc m.count) p j m.infos (λ e. omega (arith, e, h)))
          (insert-lookup (suc m.count) i n.infos) d
          (λ u p h. elim (a.fresh u p h) [
            | inl old ↦ inl old
            | inr new ↦ elim (Bool-cases (suc m.count == new.pointer)) [
              | inl e ↦
                  let q : suc m.count ≡ new.pointer = (==_iff (suc m.count) new.pointer).0 e in
                  let b : get_v new.pointer n ≡ some t =
                    subst (λ v. get_v v n ≡ some t) q (a.sane.back t (suc m.count) here) in
                  inr (inl (some-inj (a.sane.back u new.pointer new.cached) b))
              | inr e ↦ inr (
                  inr (record {
                    pointer = new.pointer;
                    info = new.info;
                    cached = new.cached;
                    known = new.known;
                    found = rw e new.found;
                    right = new.right;
                  }))
            ]
          ])
