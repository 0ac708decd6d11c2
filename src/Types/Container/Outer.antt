-- ===== src/Types/Container/Outer.antt =====
-- add of types/scan.go, for a container that goes around others.
use coroutine_durable_fork.Prelude.{
  ℕ, suc, zero, ◌+◌, ◌≡◌, ◌≤◌, ◌<◌, refl, Bool, true, false, List, ◌∷◌, ◌==◌, arith, length, inl,
  inr, ◌⊎◌,
}
use coroutine_durable_fork.Types.Container.{
  GoType, size_of, Container, size, limit, contains, overlaps, ok, insert_at, all_ordered, insert,
  behind, behind_at, add, is_container, fixup_from, fixup,
}
use coroutine_durable_fork.Types.Container.Insert.{
  IsSearch, behind_at-suc, behind-ordered, and-true,
}

zero_or_suc : (i : ℕ) → (i ≡ 0) ⊎ (0 < i)
zero_or_suc zero = inl refl
zero_or_suc (suc i) = inr (omega arith)

first_place :
    (seek : ℕ → (ℕ → Bool) → ℕ) (x c : Container) (cs : List Container)
    → IsSearch seek
    → all_ordered (c ∷ cs) ≡ true
    → behind x c ≡ true
    → seek (length (c ∷ cs)) (behind_at x (c ∷ cs)) ≡ 0
first_place seek x c cs law o h =
    elim (zero_or_suc (seek (length (c ∷ cs)) (behind_at x (c ∷ cs)))) [
      | inl e ↦ e
      | inr gt ↦
          let no =
            law.below (length (c ∷ cs)) (behind_at x (c ∷ cs))
              (λ j lt h. behind_at-suc x (c ∷ cs) j o lt h) 0 gt in
          cc
    ]

fixup_around :
    (x c : Container) (cs : List Container)
    → x.addr < c.addr
    → 0 < size c
    → limit c ≤ limit x
    → fixup_from x (c ∷ cs) ≡ ok (x ∷ cs)
unfolding fixup_from overlaps contains size
fixup_around x c cs lt pos le = ground arith

insert_first :
    (seek : ℕ → (ℕ → Bool) → ℕ) (x c : Container) (cs : List Container)
    → IsSearch seek
    → all_ordered (c ∷ cs) ≡ true
    → behind x c ≡ true
    → insert seek x (c ∷ cs) ≡ ok (0, x ∷ c ∷ cs)
unfolding insert all_ordered insert_at
insert_first seek x c cs law o h =
    let e = first_place seek x c cs law o h in
    let q : all_ordered (x ∷ c ∷ cs) ≡ true = and-true (behind-ordered x c h) o in
    rw (e, q, insert) refl

-- Over a sort.Search that does as documented and for an ordered list, add of a value that begins
-- before the first container and contains it takes that one out of the list; the others stay,
-- wherever they end.
pub contained_stays :
    (seek : ℕ → (ℕ → Bool) → ℕ) (t : GoType) (p : ℕ) (c d : Container) (cs : List Container)
    → IsSearch seek
    → all_ordered (c ∷ d ∷ cs) ≡ true
    → 0 < p
    → is_container t ≡ true
    → p < c.addr
    → 0 < size c
    → limit c ≤ p + size_of t
    → add seek t p (c ∷ d ∷ cs) ≡ ok (record { addr = p; typ = t } ∷ d ∷ cs)
unfolding add size fixup
contained_stays seek t p c d cs law o pos k lt pc le =
    let x : Container = record { addr = p; typ = t } in
    let z : (size_of t == 0) ≡ false = ground arith in
    let n : (p == 0) ≡ false = ground arith in
    let b : behind x c ≡ true = ground arith in
    let first = insert_first seek x c (d ∷ cs) law o b in
    rw (z, n, k, first, add) (fixup_around x c (d ∷ cs) lt pc le)
