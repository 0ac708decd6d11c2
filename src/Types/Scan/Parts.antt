-- ===== src/Types/Scan/Parts.antt =====
-- The parts of a place against what scan looks at, both ways.
use coroutine_durable_fork.Prelude.{
  ℕ, ◌≡◌, ◌≢◌, refl, sym, subst, Bool, true, false, inl, inr, Option, none, some, ◌==◌,
  if◌then◌else◌, arith,
}
use mathlib.Core.List.{Memᴰ}
use mathlib.Core.List.Memᴰ.{head, not-nil, cases_cons}
use coroutine_durable_fork.Types.Container.{array}
use coroutine_durable_fork.Types.Scan.{
  nil_slice, of_slice, nil_interface, of_interface, nil_pointer, of_pointer, empty_string,
  of_string, View,
}
use coroutine_durable_fork.Types.Scan.Growth.{parts, nonzero}
use coroutine_durable_fork.Types.Scan.Look.{
  Layout, array_of, slice_of, pointer_to, interface, string, invalid_kind, other_kind, struct,
  map_of, TypeTable, Heap, place, element_places, field_places, slice_view, interface_view,
  pointer_view, string_view, shape_view,
}
use coroutine_durable_fork.Types.Scan.Behind.{
  IsPart, any_element, its_element, any_field, its_field, any_entry, its_entry,
}

module _ (ts : TypeTable) (h : Heap) where
  -- Not of the view of nil, and so of the other one.
  pub unless :
      (F : View → Type 0) (b : Bool) (v w : View)
      → (F v → ⊥)
      → F (if b then v else w)
      → (b ≡ false) × F w
  unless F true v w f m = absurd (f m)
  unless F false v w f m = (refl, m)

  some_header :
      (e p y : ℕ) (o : Option (ℕ × ℕ × ℕ))
      → h.slice_at p ≡ o
      → Memᴰ y (parts (slice_view ts h e o))
      → IsPart ts h p (slice_of e) y
  some_header e p y none q m = absurd (not-nil m)
  some_header e p y (some (d, len, capacity)) q m =
      let (z, k) =
        unless (λ v. Memᴰ y (parts v)) (d == 0) nil_slice
          (of_slice (array capacity (ts.go_type e)) d (element_places ts h e d 0 len))
          (λ n. not-nil n) m in
      let (j, low, high, r) = any_element ts h e d 0 len y k in
      (d, len, capacity, q, nonzero d z, (j, omega (arith, high), r))

  dynamic :
      (p y : ℕ) (o : Option (ℕ × ℕ))
      → h.interface_at p ≡ o
      → Memᴰ y (parts (interface_view ts h p o))
      → IsPart ts h p interface y
  dynamic p y none q m = absurd (not-nil m)
  dynamic p y (some (t, d)) q m =
      let x = place ts h t (if ts.is_inlined t then h.cell_of p else d) in
      let (z, k) =
        unless (λ v. Memᴰ y (parts v)) (d == 0) nil_interface (of_interface x) (λ n. not-nil n) m in
      elim (cases_cons k) [ inl r ↦ (t, d, q, nonzero d z, r) | inr l ↦ absurd (not-nil l) ]

  target :
      (e p y : ℕ)
      → Memᴰ y (parts (pointer_view ts h e (h.pointer_at p)))
      → IsPart ts h p (pointer_to e) y
  target e p y m =
      let x = place ts h e (h.pointer_at p) in
      let (z, k) =
        unless (λ v. Memᴰ y (parts v)) (h.pointer_at p == 0) nil_pointer (of_pointer x)
          (λ n. not-nil n) m in
      elim (cases_cons k) [ inl r ↦ (nonzero (h.pointer_at p) z, r) | inr l ↦ absurd (not-nil l) ]

  no_bytes : (y : ℕ) (o : ℕ × ℕ) → Memᴰ y (parts (string_view ts h o)) → ⊥
  no_bytes y (q, n) m = not-nil (
      (unless (λ v. Memᴰ y (parts v)) (q == 0) empty_string (of_string (array n ts.byte) q)
        (λ n. not-nil n) m).1)

  pub parts-IsPart :
      (t p : ℕ) (s : Layout) (y : ℕ) → Memᴰ y (parts (shape_view ts h t p s)) → IsPart ts h p s y
  parts-IsPart t p (array_of n e) y m =
      let (j, low, high, r) = any_element ts h e p 0 n y m in (j, omega (arith, high), r)
  parts-IsPart t p (slice_of e) y m = some_header e p y (h.slice_at p) refl m
  parts-IsPart t p interface y m = dynamic p y (h.interface_at p) refl m
  parts-IsPart t p (struct fs) y m = any_field ts h p y fs m
  parts-IsPart t p (pointer_to e) y m = target e p y m
  parts-IsPart t p string y m = no_bytes y (h.string_at p) m
  parts-IsPart t p (map_of k v) y m = any_entry ts h k v y (h.entries_at p) m
  parts-IsPart t p invalid_kind y m = not-nil m
  parts-IsPart t p other_kind y m = not-nil m

  pub not_nil : {d : ℕ} → d ≢ 0 → (d == 0) ≡ false
  not_nil f = ground arith

  otherwise : (F : View → Type 0) (b : Bool) (v w : View) → b ≡ false → F w → F (if b then v else w)
  otherwise F b v w e k = subst (λ c. F (if c then v else w)) (sym e) k

  pub IsPart-parts :
      (t p : ℕ) (s : Layout) (y : ℕ) → IsPart ts h p s y → Memᴰ y (parts (shape_view ts h t p s))
  IsPart-parts t p (array_of n e) y (i, low, r) =
      subst (λ z. Memᴰ z (element_places ts h e p 0 n)) (sym r)
        (its_element ts h e p 0 n i (omega arith) (omega (arith, low)))
  IsPart-parts t p (slice_of e) y (d, len, capacity, q, f, (i, low, r)) =
      rw (q, not_nil f)
        (subst (λ z. Memᴰ z (element_places ts h e d 0 len)) (sym r)
          (its_element ts h e d 0 len i (omega arith) (omega (arith, low))))
  IsPart-parts t p interface y (u, d, q, f, r) = rw (q, not_nil f) (head r)
  IsPart-parts t p (struct fs) y (f, m, r) =
      subst (λ z. Memᴰ z (field_places ts h p fs)) (sym r) (its_field ts h p f fs m)
  IsPart-parts t p (pointer_to e) y (f, r) =
      otherwise (λ v. Memᴰ y (parts v)) (h.pointer_at p == 0) nil_pointer
        (of_pointer (place ts h e (h.pointer_at p))) (not_nil f) (head r)
  IsPart-parts t p (map_of k v) y (e, m, r) = its_entry ts h k v y e (h.entries_at p) m r
  IsPart-parts t p string y m = absurd m
  IsPart-parts t p invalid_kind y m = absurd m
  IsPart-parts t p other_kind y m = absurd m
