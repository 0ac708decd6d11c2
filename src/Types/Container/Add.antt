-- ===== src/Types/Container/Add.antt =====
-- What containers.add of types/scan.go keeps: the memory that the list covers, and its order.
use coroutine_durable_fork.Prelude.{
  subst, ℕ, ◌≡◌, refl, sym, ap, ◌∙◌, Bool, true, false, ◌||◌, List, ◌==◌, ◌⊎◌, arith, Bool-cases,
  inl, inr, length,
}
use coroutine_durable_fork.Types.Container.{
  GoType, size_of, Container, size, has, ok, err, order_error, nil_pointer, not_container,
  insert_at, all_ordered, insert, add, is_container, fix_both, behind_at,
}
use coroutine_durable_fork.Types.Container.Cover.{
  covered, IsRising, covered-insert, ordered-IsRising, covered-fix_both, IsRising-fix_both, then-ok,
  ok-inj,
}

has-empty : (t : GoType) (p a : ℕ) → size_of t ≡ 0 → has (record { addr = p; typ = t }) a ≡ false
unfolding has size
has-empty t p a e = ground (arith, e)

insert-inv :
    (seek : ℕ → (ℕ → Bool) → ℕ) (x : Container) (cs ds : List Container) (i : ℕ)
    → insert seek x cs ≡ ok (i, ds)
    → ((j : ℕ) × (insert_at j x cs ≡ ds)) × (all_ordered ds ≡ true)
unfolding insert
insert-inv seek x cs ds i h =
    let j = seek (length cs) (behind_at x cs) in
    elim (Bool-cases (all_ordered (insert_at j x cs))) [
      | inl o ↦
          let q =
            ap (λ v. v.1)
              (ok-inj (ok (j, insert_at j x cs)) refl (sym (rw (o, insert) refl) ∙ h)) in
          ((j, q), subst (λ ds. all_ordered ds ≡ true) q o)
      | inr o ↦
          let no : insert seek x cs ≡ err (order_error (insert_at j x cs)) = rw (o, insert) refl in
          cc
    ]

add-inv :
    (seek : ℕ → (ℕ → Bool) → ℕ) (t : GoType) (p : ℕ) (cs ds : List Container)
    → add seek t p cs ≡ ok ds
    → ((size_of t ≡ 0) × (ds ≡ cs))
      ⊎ ((i : ℕ) × ((es : List Container) × ((insert seek (record { addr = p; typ = t }) cs
                ≡ ok (i, es))
              × (fix_both i es ≡ ok ds))))
unfolding add
add-inv seek t p cs ds h = elim (Bool-cases (size_of t == 0)) [
  | inl z ↦ inl (ground (arith, z), ok-inj _ h (rw (z, add) refl))
  | inr z ↦ elim (Bool-cases (p == 0)) [
    | inl n ↦ let no : add seek t p cs ≡ err nil_pointer = rw (z, n, add) refl in cc
    | inr n ↦ elim (Bool-cases (is_container t)) [
      | inl c ↦
          let (v, (e, f)) =
            then-ok (insert seek (record { addr = p; typ = t }) cs) (λ v. fix_both v.0 v.1) ds
              (sym (rw (z, n, c, add) refl) ∙ h) in
          inr (v.0, (v.1, (e, f)))
      | inr c ↦ let no : add seek t p cs ≡ err not_container = rw (z, n, c, add) refl in cc
    ]
  ]
]

-- Where add does not panic, the containers cover afterwards the addresses that they covered before
-- and those of the added value.
pub covered-add :
    (seek : ℕ → (ℕ → Bool) → ℕ) (t : GoType) (p : ℕ) (cs ds : List Container) (a : ℕ)
    → add seek t p cs ≡ ok ds
    → covered a ds ≡ (has (record { addr = p; typ = t }) a || covered a cs)
covered-add seek t p cs ds a h = elim (add-inv seek t p cs ds h) [
  | inl (z, e) ↦ ap (covered a) e ∙ sym (ap (λ b. b || covered a cs) (has-empty t p a z))
  | inr (i, (es, (e, f))) ↦
      let ((j, q), o) = insert-inv seek (record { addr = p; typ = t }) cs es i e in
      covered-fix_both a i es ds (ordered-IsRising es o) f
      ∙ ap (covered a) (sym q)
      ∙ covered-insert a j (record { addr = p; typ = t }) cs
]

-- Where add does not panic, the start addresses of the containers do not fall, if they did not before.
pub IsRising-add :
    (seek : ℕ → (ℕ → Bool) → ℕ) (t : GoType) (p : ℕ) (cs ds : List Container)
    → IsRising cs
    → add seek t p cs ≡ ok ds
    → IsRising ds
IsRising-add seek t p cs ds r h = elim (add-inv seek t p cs ds h) [
  | inl (z, e) ↦ subst IsRising (sym e) r
  | inr (i, (es, (e, f))) ↦
      let (jq, o) = insert-inv seek (record { addr = p; typ = t }) cs es i e in
      IsRising-fix_both i es ds (ordered-IsRising es o) f
]
