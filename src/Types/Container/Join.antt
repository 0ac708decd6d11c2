-- ===== src/Types/Container/Join.antt =====
-- Overlapping containers: what one that contains another has, and what the merge of two arrays has.
use coroutine_durable_fork.Prelude.{
  ℕ, ◌+◌, ◌-◌, ◌*◌, ◌/◌, ◌%◌, ◌≤◌, ◌≡◌, refl, sym, ◌∙◌, true, false, ◌||◌, none, some, ◌==◌, arith,
  Bool-cases, Option-cases, inl, inr, ◌⊎◌,
}
use native.Mathlib.Nat.{div-add-mod}
use coroutine_durable_fork.Types.Container.{
  GoType, basic, structure, array, size_of, same_type, Container, size, limit, overlaps, contains,
  has, Error, Result, ok, err, bad_merge, same_array, merge, join,
}

same_type-eq : (t u : GoType) → same_type t u ≡ true → t ≡ u
unfolding same_type
same_type-eq (basic i n) (basic j m) h = ground arith
same_type-eq (structure i n) (structure j m) h = ground arith
same_type-eq (array n t) (array m u) h = ground (arith, same_type-eq t u)
same_type-eq _ _ h = cc

merged_end : (s k a b : ℕ) → a ≤ b → (b - a) % s ≡ 0 → a + ((b - a) / s + k) * s ≡ b + k * s
merged_end s k a b le e = omega (arith, div-add-mod (b - a) s)

-- What a merge gives: the region from the start of the first array to the end of the second.
merge-limit :
    (t : GoType) (k : ℕ) (a b m : Container)
    → b.typ ≡ array k t
    → a.addr ≤ b.addr
    → merge t a b ≡ ok m
    → (m.addr ≡ a.addr) × (limit m ≡ limit b)
unfolding merge size
merge-limit t k a b m e le h = elim (Bool-cases ((b.addr - a.addr) % size_of t == 0)) [
  | inl aligned ↦ ground (arith, merged_end (size_of t) k a.addr b.addr le)
  | inr uneven ↦ ground arith
]

same_array-array : (t u e : GoType) → same_array t u ≡ some e → (k : ℕ) × (u ≡ array k e)
same_array-array (array n t) (array m u) e h = elim (Bool-cases (same_type t u)) [
  | inl same ↦ (m, ground (arith, same_type-eq t u same))
  | inr other ↦ (m, ground arith)
]
same_array-array (array n t) (basic _ _) e h = cc
same_array-array (array n t) (structure _ _) e h = cc
same_array-array (basic _ _) _ e h = cc
same_array-array (structure _ _) _ e h = cc

pub contains-has : (p : ℕ) (x c : Container) → contains x c ≡ true → (has x p || has c p) ≡ has x p
unfolding contains has
contains-has p x c h = ground arith

pub merged-has :
    (p : ℕ) (x c m : Container)
    → x.addr ≤ c.addr
    → overlaps x c ≡ true
    → contains x c ≡ false
    → m.addr ≡ x.addr
    → limit m ≡ limit c
    → has m p ≡ (has x p || has c p)
unfolding overlaps contains has
merged-has p x c m le over apart start end = ground arith

pub result-cases {ℓ} :
    {A : Type ℓ} (r : Result A) → ((a : A) × (r ≡ ok a)) ⊎ ((e : Error) × (r ≡ err e))
result-cases (ok a) = inl (a, refl)
result-cases (err e) = inr (e, refl)

join-none : (x c : Container) → same_array x.typ c.typ ≡ none → join x c ≡ err bad_merge
unfolding join
join-none x c e = rw (e, join) refl

join-some :
    (x c : Container) (t : GoType) → same_array x.typ c.typ ≡ some t → join x c ≡ merge t x c
unfolding join
join-some x c t e = rw (e, join) refl

pub join-limit :
    (x c m : Container)
    → x.addr ≤ c.addr
    → join x c ≡ ok m
    → (m.addr ≡ x.addr) × (limit m ≡ limit c)
join-limit x c m le h = elim (Option-cases (same_array x.typ c.typ)) [
  | inl e ↦ let no = join-none x c e in cc
  | inr (t, e) ↦
      let (k, q) = same_array-array x.typ c.typ t e in
      merge-limit t k x c m q le (sym (join-some x c t e) ∙ h)
]
