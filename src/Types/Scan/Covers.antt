-- ===== src/Types/Scan/Covers.antt =====
-- What scan leaves: the regions of the places that the value leads to, all of them and no others.
use coroutine_durable_fork.Prelude.{
  ℕ, zero, suc, ◌<◌, ◌≡◌, ◌≢◌, ◌⊎◌, refl, sym, subst, ◌∙◌, Bool, true, ◌||◌, inl, inr, Bool-cases,
  List, [], ◌∷◌, Option, none, some, ◌==◌, ==_iff, length, arith,
}
use mathlib.Core.List.{Memᴰ}
use mathlib.Core.List.Memᴰ.{head, tail, not-nil, cases_cons}
use coroutine_durable_fork.Prelude.Dict.{
  lookup, free, free_le, free_mono, none-some, insert-Keeps, insert-some, insert-lookup,
  free-insert,
}
use coroutine_durable_fork.Types.Container.{GoType, Container, Result, ok, err, add}
use coroutine_durable_fork.Types.Container.Cover.{covered}
use coroutine_durable_fork.Types.Container.Add.{covered-add}
use coroutine_durable_fork.Types.Scan.{
  View, of_array, nil_slice, of_slice, nil_interface, of_interface, of_struct, nil_pointer,
  of_pointer, empty_string, of_string, of_map, invalid, other, Scanner, Walk, scan_each, entries_of,
  mark, added, by_view, first_time, scan,
}
use coroutine_durable_fork.Types.Scan.Growth.{
  parts, region, in_region, or_right, or_left, either, nonzero, Ends, ends, is_invalid, is_bad,
  Ends-then, Ends-map, Seen, Leads, itself, through, IsDone, After, After-refl, Seen-After,
  After-trans,
}

module _ (view : ℕ → View) (Q : ℕ → Type 0) (keys : List ℕ) where
  abbrev Ready : ℕ → Scanner → Type 0
  Ready n s = free keys s.scanned < n

  Ready-After : (n : ℕ) (s r : Scanner) → Ready n s → After view Q s r → Ready n r
  Ready-After n s r h a =
      let less = free_mono keys s.scanned r.scanned a.kept in omega (arith, less, h)

  abbrev Scanning : ℕ → (ℕ → Scanner → Walk) → Type 0
  Scanning n rec =
      (x : ℕ) (s : Scanner) → Q x → Ready n s → Ends (λ r. After view Q s r × Seen r x) (rec x s)

  scan_each-Ends :
      (n : ℕ) (rec : ℕ → Scanner → Walk)
      → Scanning n rec
      → (xs : List ℕ) (s : Scanner) → ((x : ℕ) → Memᴰ x xs → Q x)
      → Ready n s
      → Ends (λ r. After view Q s r × ((x : ℕ) → Memᴰ x xs → Seen r x)) (scan_each rec xs s)
  unfolding scan_each
  scan_each-Ends n rec step [] s q h = ends s (After-refl view Q s, λ x m. absurd (not-nil m))
  scan_each-Ends n rec step (x ∷ xs) s q h =
      Ends-then _ (λ r. scan_each rec xs r) (step x s (q x (head refl)) h)
        (λ r a.
          Ends-map _
            (scan_each-Ends n rec step xs r (λ y m. q y (tail m)) (Ready-After n s r h (a.0)))
            (λ p b. (
              After-trans view Q s r p (a.0) (b.0),
              λ y m. elim (cases_cons m) [
                | inl e ↦ subst (Seen p) (sym e) (Seen-After view Q r p x (b.0) (a.1))
                | inr k ↦ b.1 y k
              ],
            )))

  -- The region was added, and the places behind were scanned.
  Stage : Option (GoType × ℕ) → List ℕ → Scanner → Scanner → Type 0
  Stage o xs s r =
      (cs : List Container) × ((a : ℕ) → covered a cs ≡ (in_region o a || covered a s.containers))
      × After view Q (record s { containers = cs }) r
      × ((y : ℕ) → Memᴰ y xs → Seen r y)

  finish :
      (x : ℕ) (s r : Scanner)
      → lookup x s.scanned ≡ none
      → Q x
      → Stage (region (view x)) (parts (view x)) (mark x s) r
      → After view Q s r × Seen r x
  unfolding Stage
  finish x s r z q (cs, cov, a, seen) = (
    record {
      kept = λ y u h. a.kept y u (insert-Keeps x tt s.scanned z y u h);
      grows = λ b h. a.grows b (cov b ∙ or_right (in_region (region (view x)) b) h);
      fresh = λ y h. elim (a.fresh y h) [
        | inr new ↦ inr new
        | inl old ↦ elim (insert-some x y tt tt s.scanned old) [
          | inr older ↦ inl older
          | inl (e, f) ↦ inr (
              subst (λ w. IsDone view r w × Q w) e
                (
                  record {
                    behind = seen;
                    covers = λ b k. a.grows b (cov b ∙ or_left (covered b s.containers) k);
                  },
                  q,
                ))
        ]
      ];
      only = λ b h. elim (a.only b h) [
        | inr new ↦ inr new
        | inl old ↦ elim (either (in_region (region (view x)) b) (sym (cov b) ∙ old)) [
          | inl k ↦ inr (x, q, k)
          | inr k ↦ inl k
        ]
      ];
    },
    inr (a.kept x tt (insert-lookup x tt s.scanned)),
  )

  module _ (seek : ℕ → (ℕ → Bool) → ℕ) (n : ℕ) (rec : ℕ → Scanner → Walk)
      (step : Scanning n rec) where
    no_region :
        (xs : List ℕ) (s : Scanner)
        → ((x : ℕ) → Memᴰ x xs → Q x)
        → Ready n s
        → Ends (Stage none xs s) (scan_each rec xs s)
    unfolding Stage
    no_region xs s q h =
        Ends-map _ (scan_each-Ends n rec step xs s q h) (λ r a. (s.containers, λ b. refl, a.0, a.1))

    added-Ends :
        (t : GoType) (p : ℕ) (xs : List ℕ) (s : Scanner) (o : Result (List Container))
        → add seek t p s.containers ≡ o
        → ((x : ℕ) → Memᴰ x xs → Q x)
        → Ready n s
        → Ends (Stage (some (t, p)) xs s) (added seek o s (λ r. scan_each rec xs r))
    unfolding Stage
    added-Ends t p xs s (err e) k q h = is_bad e
    added-Ends t p xs s (ok cs) k q h =
        Ends-map _ (scan_each-Ends n rec step xs (record s { containers = cs }) q h)
          (λ r a. (cs, λ b. covered-add seek t p s.containers cs b k, a.0, a.1))

    by_view-Ends :
        (v : View) (s : Scanner)
        → ((x : ℕ) → Memᴰ x (parts v) → Q x)
        → Ready n s
        → Ends (Stage (region v) (parts v) s) (by_view seek rec v s)
    unfolding by_view scan_each
    by_view-Ends (of_array t p xs) s q h = added-Ends t p xs s _ refl q h
    by_view-Ends (of_slice t p xs) s q h = added-Ends t p xs s _ refl q h
    by_view-Ends (of_struct t p xs) s q h = added-Ends t p xs s _ refl q h
    by_view-Ends (of_string t p) s q h = added-Ends t p [] s _ refl q h
    by_view-Ends (of_interface x) s q h = no_region (x ∷ []) s q h
    by_view-Ends (of_pointer x) s q h = no_region (x ∷ []) s q h
    by_view-Ends (of_map es) s q h = no_region (entries_of es) s q h
    by_view-Ends nil_slice s q h = no_region [] s q h
    by_view-Ends nil_interface s q h = no_region [] s q h
    by_view-Ends nil_pointer s q h = no_region [] s q h
    by_view-Ends empty_string s q h = no_region [] s q h
    by_view-Ends other s q h = no_region [] s q h
    by_view-Ends invalid s q h = is_invalid

  module _ (seek : ℕ → (ℕ → Bool) → ℕ)
      (along : (x y : ℕ) → Q x → x ≢ 0 → Memᴰ y (parts (view x)) → Q y)
      (within : (x : ℕ) → Q x → x ≢ 0 → Memᴰ x keys) where
    first_time-Ends :
        (n x : ℕ) (s : Scanner) (o : Option (Unit {0}))
        → lookup x s.scanned ≡ o
        → x ≢ 0
        → Q x
        → Ready (suc n) s
        → Scanning n (scan seek view n)
        → Ends (λ r. After view Q s r × Seen r x) (first_time seek view (scan seek view n) x o s)
    first_time-Ends n x s (some u) e nz q h step = ends s (After-refl view Q s, inr e)
    first_time-Ends n x s none e nz q h step =
        Ends-map _
          (by_view-Ends seek n (scan seek view n) step (view x) (mark x s) (λ y m. along x y q nz m)
            (let less = free-insert keys x tt s.scanned (within x q nz) e in
              omega (arith, less, h)))
          (λ r a. finish x s r e q a)

    scan-Scanning : (n : ℕ) → Scanning n (scan seek view n)
    unfolding scan
    scan-Scanning zero x s q h = absurd (omega (arith, h))
    scan-Scanning (suc n) x s q h = elim (Bool-cases (x == 0)) [
      | inl e ↦ rw e (ends s (After-refl view Q s, inl ((==_iff x 0).0 e)))
      | inr e ↦ rw e (
          first_time-Ends n x s (lookup x s.scanned) refl (λ z. nonzero x e z) q h
            (scan-Scanning n))
    ]

-- What scan makes of the containers: the regions of the places that a place leads to are covered,
-- and what was covered before, and nothing else.
pub record IsScan (view : ℕ → View) (x : ℕ) (cs : List Container) (r : Scanner) : Type 0 where
  pub all :
      (y a : ℕ)
      → Leads view x y
      → y ≢ 0
      → in_region (region (view y)) a ≡ true
      → covered a r.containers ≡ true
  pub old : (a : ℕ) → covered a cs ≡ true → covered a r.containers ≡ true
  pub only :
      (a : ℕ)
      → covered a r.containers ≡ true
      → (covered a cs ≡ true) ⊎ ((y : ℕ) × Leads view x y × (in_region (region (view y)) a ≡ true))

abbrev pub start : List Container → Scanner
start cs = record { scanned = []; containers = cs }

module _ (view : ℕ → View) (x : ℕ) (cs : List Container) (r : Scanner)
    (a : After view (Leads view x) (start cs) r) (seen : Seen r x) where
  seen_done : (y : ℕ) → y ≢ 0 → Seen r y → IsDone view r y
  seen_done y nz (inl e) = absurd (nz e)
  seen_done y nz (inr e) = elim (a.fresh y e) [
    | inl old ↦ absurd (none-some refl old)
    | inr new ↦ new.0
  ]

  leads_seen : (y : ℕ) → Leads view x y → Seen r y
  leads_seen _ itself = seen
  leads_seen _ (through y z l nz m) = (seen_done y nz (leads_seen y l)).behind z m

-- Where a place leads to the places of a list, apart from those at the nil address, fuel above its
-- length is enough for scan. If it does not panic, the containers cover afterwards the addresses
-- that they covered before and those in the regions of the places that this one leads to, all of
-- them and no others.
pub scan-IsScan :
    (seek : ℕ → (ℕ → Bool) → ℕ) (view : ℕ → View) (n x : ℕ) (cs : List Container) (places : List ℕ)
    → ((y : ℕ) → Leads view x y → y ≢ 0 → Memᴰ y places)
    → length places < n
    → Ends (IsScan view x cs) (scan seek view n x (start cs))
scan-IsScan seek view n x cs places within h =
    Ends-map _
      (scan-Scanning view (Leads view x) places seek (λ y z l nz m. through y z l nz m) within n x
        (start cs) itself (let few = free_le {C = Unit {0}} places [] in omega (arith, few, h)))
      (λ r p. record {
        all = λ y a l nz k.
            (seen_done view x cs r (p.0) (p.1) y nz (leads_seen view x cs r (p.0) (p.1) y l)).covers
              a k;
        old = λ a k. p.0.grows a k;
        only = λ a k. p.0.only a k;
      })
