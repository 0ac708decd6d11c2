-- ===== src/Types/Func/Linked.antt =====
-- The two maps of types/func.go, by name and by address.
use coroutine_durable_fork.Prelude.{
  some-inj, ℕ, zero, suc, ◌+◌, ◌^◌, ◌<◌, ◌≡◌, ◌≢◌, ◌⊎◌, inl, inr, refl, sym, ap, subst, ◌∙◌, List,
  [], ◌∷◌, Option, none, some, map, true, get_elem?, Bool-cases, ◌==◌, ==_iff, arith,
}
use coroutine_durable_fork.Types.Func.{
  Func, Tables, index_of, func_at, deref, func_by_name, func_by_addr, update, write, register_func,
  minus64, plus64, func_of, enter, init_function_tables,
}

-- The entries of a map are of functions with their keys.
enter-some :
    {T : Type 0} (key : Func T → ℕ) (i : ℕ) (fs : List (Func T)) (m : List (ℕ × ℕ)) (k j : ℕ)
    → index_of k (enter key i fs m) ≡ some j
    → ((p : ℕ) × (f : Func T) × (j ≡ i + p) × (func_at p fs ≡ some f) × (key f ≡ k))
      ⊎ (index_of k m ≡ some j)
unfolding enter
enter-some key i [] m k j h = inr h
enter-some key i (f ∷ fs) m k j h = elim (enter-some key (suc i) fs ((key f, i) ∷ m) k j h) [
  | inl (p, g, e, a, q) ↦ inl (suc p, g, omega (arith, e), a, q)
  | inr old ↦ elim (Bool-cases (key f == k)) [
    | inl s ↦
        let step : index_of k ((key f, i) ∷ m) ≡ some i = rw s refl in
        let same : i ≡ j = some-inj step old in
        inl (0, f, omega (arith, same), refl, (==_iff (key f) k).0 s)
    | inr d ↦
        let step : index_of k ((key f, i) ∷ m) ≡ index_of k m = rw d refl in inr (sym step ∙ old)
  ]
]

-- Entries are replaced, but none goes.
enter-kept :
    {T : Type 0} (key : Func T → ℕ) (i : ℕ) (fs : List (Func T)) (m : List (ℕ × ℕ)) (k j : ℕ)
    → index_of k m ≡ some j
    → (l : ℕ) × (index_of k (enter key i fs m) ≡ some l)
unfolding enter
enter-kept key i [] m k j h = (j, h)
enter-kept key i (f ∷ fs) m k j h = elim (Bool-cases (key f == k)) [
  | inl s ↦ enter-kept key (suc i) fs ((key f, i) ∷ m) k i (rw s refl)
  | inr d ↦
      let step : index_of k ((key f, i) ∷ m) ≡ index_of k m = rw d refl in
      enter-kept key (suc i) fs ((key f, i) ∷ m) k j (step ∙ h)
]

enter-found :
    {T : Type 0} (key : Func T → ℕ) (i : ℕ) (fs : List (Func T)) (m : List (ℕ × ℕ)) (p : ℕ)
    (f : Func T)
    → func_at p fs ≡ some f
    → (l : ℕ) × (index_of (key f) (enter key i fs m) ≡ some l)
unfolding enter
enter-found key i [] m p f h = cc
enter-found key i (x ∷ fs) m zero f h =
    let same : x ≡ f = some-inj refl h in
    let self : (key x == key f) ≡ true = (==_iff (key x) (key f)).1 (ap key same) in
    enter-kept key (suc i) fs ((key x, i) ∷ m) (key f) i (rw self refl)
enter-found key i (x ∷ fs) m (suc p) f h = enter-found key (suc i) fs ((key x, i) ∷ m) p f h

-- The function under a name has this name, and is the one under its address.
pub record IsLinked {T : Type 0} (t : Tables T) : Type 0 where
  pub linked :
      (n i : ℕ)
      → index_of n t.by_name ≡ some i
      → (f : Func T) × (func_at i t.functions ≡ some f)
        × (f.name ≡ n)
        × (index_of f.addr t.by_addr ≡ some i)

shift_inj : (a b o : ℕ) → a < 2 ^ 64 → b < 2 ^ 64 → plus64 a o ≡ plus64 b o → a ≡ b
shift_inj a b o h k e = omega (arith, h, k, e)

func_at-map :
    {T : Type 0} (o p : ℕ) (table : List (ℕ × ℕ)) (f : Func T)
    → func_at p (map (func_of o) table) ≡ some f
    → (e : ℕ × ℕ) × (get_elem? table p ≡ some e) × (f ≡ func_of o e)
func_at-map o p [] f h = cc
func_at-map o zero (e ∷ es) f h = (e, refl, some-inj h refl)
func_at-map o (suc p) (e ∷ es) f h = func_at-map o p es f h

-- Places with one address are one place, where the entries of the table are distinct.
one_place :
    {T : Type 0} (o p q : ℕ) (table : List (ℕ × ℕ)) (f g : Func T)
    → ((i j : ℕ) (a b : ℕ × ℕ)
        → get_elem? table i ≡ some a
        → get_elem? table j ≡ some b
        → a.1 ≡ b.1
        → i ≡ j)
    → ((i : ℕ) (a : ℕ × ℕ) → get_elem? table i ≡ some a → a.1 < 2 ^ 64)
    → func_at p (map (func_of o) table) ≡ some f
    → func_at q (map (func_of o) table) ≡ some g
    → g.addr ≡ f.addr
    → q ≡ p
one_place o p q table f g apart small h k e =
    let (a, x, u) = func_at-map o p table f h in
    let (b, y, v) = func_at-map o q table g k in
    apart q p b a y x (
      shift_inj (b.1) (a.1) o (small q b y) (small p a x)
        (sym (ap (λ r. r.addr) v) ∙ e ∙ ap (λ r. r.addr) u))

nothing : (k j : ℕ) → index_of k [] ≡ some j → ⊥
nothing k j h = cc

found :
    {T : Type 0} (key : Func T → ℕ) (fs : List (Func T)) (k j : ℕ)
    → index_of k (enter key 0 fs []) ≡ some j
    → (f : Func T) × (func_at j fs ≡ some f) × (key f ≡ k)
found key fs k j h = elim (enter-some key 0 fs [] k j h) [
  | inl (p, f, e, a, q) ↦
      let same : p ≡ j = omega (arith, e) in (f, subst (λ i. func_at i fs ≡ some f) same a, q)
  | inr old ↦ absurd (nothing k j old)
]

entry_at :
    {T : Type 0} (o p : ℕ) (table : List (ℕ × ℕ)) (e : ℕ × ℕ)
    → get_elem? table p ≡ some e
    → func_at {T = T} p (map (func_of o) table) ≡ some (func_of o e)
entry_at o p [] e h = cc
entry_at o zero (x ∷ es) e h = ap (λ a. some (func_of o a)) (some-inj refl h)
entry_at o (suc p) (x ∷ es) e h = entry_at o p es e h

module _ {T : Type 0} (table : List (ℕ × ℕ)) (entry addr : ℕ)
    (apart : (i j : ℕ) (a b : ℕ × ℕ)
      → get_elem? table i ≡ some a
      → get_elem? table j ≡ some b
      → a.1 ≡ b.1
      → i ≡ j)
    (small : (i : ℕ) (a : ℕ × ℕ) → get_elem? table i ≡ some a → a.1 < 2 ^ 64) where
  own_index :
      (i : ℕ) (f : Func T)
      → func_at i (map (func_of (minus64 addr entry)) table) ≡ some f
      → index_of f.addr (init_function_tables {T = T} table entry addr).by_addr ≡ some i
  unfolding init_function_tables
  own_index i f x =
      let o = minus64 addr entry in
      let fs : List (Func T) = map (func_of o) table in
      let (l, k) = enter-found (λ f. f.addr) 0 fs [] i f x in
      let (g, u, v) = found (λ f. f.addr) fs f.addr l k in
      let same = one_place o i l table f g apart small x u v in
      subst (λ j. index_of f.addr (enter (λ f. f.addr) 0 fs []) ≡ some j) same k

  read-IsLinked : IsLinked (init_function_tables {T = T} table entry addr)
  unfolding init_function_tables
  read-IsLinked = record {
    linked = λ n i h.
        let fs : List (Func T) = map (func_of (minus64 addr entry)) table in
        let (f, x, y) = found (λ f. f.name) fs n i h in (f, x, y, own_index i f x);
  }

  has_entry :
      (i : ℕ) (e : ℕ × ℕ)
      → get_elem? table i ≡ some e
      → (let t = init_function_tables {T = T} table entry addr in
          (func_by_addr t (plus64 e.1 (minus64 addr entry)) ≡ some (func_of (minus64 addr entry) e))
          × ((j : ℕ) × (index_of e.0 t.by_name ≡ some j)))
  unfolding init_function_tables func_by_addr
  has_entry i e h =
      let o = minus64 addr entry in
      let fs : List (Func T) = map (func_of o) table in
      let x = entry_at {T = T} o i table e h in
      (
        ap (deref fs) (own_index i (func_of o e) x) ∙ x,
        enter-found (λ f. f.name) 0 fs [] i (func_of o e) x,
      )

-- In the tables that are read from a symbol table, whose entries are below 2^64 and distinct, each
-- function of the symbol table is found under its entry, moved by the offset of the sentinel, and
-- its name leads to a function; and each name leads to a function with this name that is found
-- under its address.
pub init_function_tables-IsLinked :
    {T : Type 0} (table : List (ℕ × ℕ)) (entry addr : ℕ)
    → ((i j : ℕ) (a b : ℕ × ℕ)
        → get_elem? table i ≡ some a
        → get_elem? table j ≡ some b
        → a.1 ≡ b.1
        → i ≡ j)
    → ((i : ℕ) (a : ℕ × ℕ) → get_elem? table i ≡ some a → a.1 < 2 ^ 64)
    → ((i : ℕ) (e : ℕ × ℕ)
        → get_elem? table i ≡ some e
        → (func_by_addr
              (init_function_tables {T = T} table entry addr)
              (plus64 e.1 (minus64 addr entry))
            ≡ some (func_of (minus64 addr entry) e))
          × ((j : ℕ) × (index_of e.0 (init_function_tables {T = T} table entry addr).by_name
                ≡ some j)))
      × IsLinked (init_function_tables {T = T} table entry addr)
init_function_tables-IsLinked table entry addr apart small =
    (has_entry table entry addr apart small, read-IsLinked table entry addr apart small)

-- A function that is written to stays at its place.
func_at-update :
    {T : Type 0} (g : Func T → Func T) (i : ℕ) (fs : List (Func T)) (f : Func T)
    → func_at i fs ≡ some f
    → func_at i (update g i fs) ≡ some (g f)
func_at-update g i [] f h = cc
func_at-update g zero (x ∷ fs) f h = ap (λ y. some (g y)) (some-inj refl h)
func_at-update g (suc i) (x ∷ fs) f h = func_at-update g i fs f h

func_at-other :
    {T : Type 0} (g : Func T → Func T) (i j : ℕ) (fs : List (Func T))
    → i ≢ j
    → func_at j (update g i fs) ≡ func_at j fs
func_at-other g i j [] h = refl
func_at-other g zero zero (x ∷ fs) h = absurd (h refl)
func_at-other g zero (suc j) (x ∷ fs) h = refl
func_at-other g (suc i) zero (x ∷ fs) h = refl
func_at-other g (suc i) (suc j) (x ∷ fs) h = func_at-other g i j fs (λ e. h (ap suc e))

written :
    {T : Type 0} (g : Func T → Func T) (t : Tables T) (n : ℕ) (f : Func T) (o : Option ℕ)
    → IsLinked t
    → index_of n t.by_name ≡ o
    → deref t.functions o ≡ some f
    → func_by_addr (write g o t) f.addr ≡ some (g f)
unfolding func_by_addr
written g t n f none l h k = cc
written g t n f (some i) l h k =
    let (x, at, named, back) = l.linked n i h in
    let same : x ≡ f = some-inj at k in
    let step : index_of f.addr t.by_addr ≡ some i =
      subst (λ y. index_of y.addr t.by_addr ≡ some i) same back in
    rw step (func_at-update g i t.functions f k)

untouched :
    {T : Type 0} (g : Func T → Func T) (t : Tables T) (n m : ℕ) (o p : Option ℕ)
    → IsLinked t
    → index_of n t.by_name ≡ o
    → index_of m t.by_name ≡ p
    → n ≢ m
    → func_by_name (write g o t) m ≡ func_by_name t m
unfolding func_by_name
untouched g t n m none p l h k d = refl
untouched g t n m (some i) none l h k d = rw k refl
untouched g t n m (some i) (some j) l h k d =
    let (x, at, named, back) = l.linked n i h in
    let (y, bt, called, again) = l.linked m j k in
    let apart : i ≢ j = λ e. d (
      sym named
      ∙ ap (λ r. r.name) (some-inj (subst (λ q. func_at q t.functions ≡ some x) e at) bt)
      ∙ called) in
    rw k (func_at-other g i j t.functions apart)

-- A write that keeps names and addresses keeps the tables linked.
module _ {T : Type 0} (g : Func T → Func T) (named : (f : Func T) → (g f).name ≡ f.name)
    (placed : (f : Func T) → (g f).addr ≡ f.addr) where
  still_there :
      (i j : ℕ) (fs : List (Func T)) (f : Func T)
      → func_at j fs ≡ some f
      → (h : Func T) × (func_at j (update g i fs) ≡ some h) × (h.name ≡ f.name) × (h.addr ≡ f.addr)
  still_there i j [] f k = cc
  still_there zero zero (x ∷ fs) f k =
      let same : x ≡ f = some-inj refl k in
      (g x, refl, named x ∙ ap (λ r. r.name) same, placed x ∙ ap (λ r. r.addr) same)
  still_there zero (suc j) (x ∷ fs) f k = (f, k, refl, refl)
  still_there (suc i) zero (x ∷ fs) f k = (f, k, refl, refl)
  still_there (suc i) (suc j) (x ∷ fs) f k = still_there i j fs f k

  write-IsLinked : (o : Option ℕ) (t : Tables T) → IsLinked t → IsLinked (write g o t)
  write-IsLinked none t l = l
  write-IsLinked (some i) t l = record {
    linked = λ n j k.
        let (f, at, name, back) = l.linked n j k in
        let (h, there, same, place) = still_there i j t.functions f at in
        (h, there, same ∙ name, subst (λ a. index_of a t.by_addr ≡ some j) (sym place) back);
  }

-- In linked tables, RegisterFunc sets the type of the function with the name, which is then found
-- with it under its address, changes nothing that is found under another name, and leaves the
-- tables linked.
pub register_func-func_by_addr :
    {T : Type 0} (s : T) (t : Tables T) (n : ℕ) (f : Func T)
    → IsLinked t
    → func_by_name t n ≡ some f
    → (func_by_addr (register_func s n t) f.addr ≡ some (record f { typ = some s }))
      × ((m : ℕ) → n ≢ m → func_by_name (register_func s n t) m ≡ func_by_name t m)
      × IsLinked (register_func s n t)
unfolding register_func func_by_name
register_func-func_by_addr s t n f l h = (
  written (λ f. record f { typ = some s }) t n f (index_of n t.by_name) l refl h,
  λ m d.
      untouched (λ f. record f { typ = some s }) t n m (index_of n t.by_name) (index_of m t.by_name)
        l refl refl d,
  write-IsLinked (λ f. record f { typ = some s }) (λ f. refl) (λ f. refl) (index_of n t.by_name) t
      l,
)
