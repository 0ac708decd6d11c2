-- ===== src/Types/Scan/Growth.antt =====
-- What scan has done between two states of the scanner.
use coroutine_durable_fork.Prelude.{
  ℕ, ◌≡◌, ◌≢◌, ◌⊎◌, refl, Bool, true, false, ◌||◌, inl, inr, List, [], ◌∷◌, Option, none, some,
  ◌==◌, ==_iff,
}
use mathlib.Core.List.{Memᴰ}
use coroutine_durable_fork.Prelude.Dict.{lookup, Keeps}
use coroutine_durable_fork.Types.Container.{GoType, has}
use coroutine_durable_fork.Types.Container.Cover.{covered}
use coroutine_durable_fork.Types.Scan.{
  View, of_array, of_slice, of_interface, of_struct, of_pointer, of_string, of_map, Scanner, Walk,
  done, invalid_type, bad_add, walk_then, entries_of,
}

-- The places behind a place.
abbrev pub parts : View → List ℕ
parts (of_array t p xs) = xs
parts (of_slice t p xs) = xs
parts (of_interface x) = x ∷ []
parts (of_struct t p xs) = xs
parts (of_pointer x) = x ∷ []
parts (of_map es) = entries_of es
parts _ = []

abbrev pub region : View → Option (GoType × ℕ)
region (of_array t p xs) = some (t, p)
region (of_slice t p xs) = some (t, p)
region (of_struct t p xs) = some (t, p)
region (of_string t p) = some (t, p)
region _ = none

-- The region of a place has the address.
abbrev pub in_region : Option (GoType × ℕ) → ℕ → Bool
in_region none a = false
in_region (some (t, p)) a = has (record { addr = p; typ = t }) a

pub or_right : (b : Bool) {c : Bool} → c ≡ true → (b || c) ≡ true
or_right true h = refl
or_right false h = h

pub or_left : {b : Bool} (c : Bool) → b ≡ true → (b || c) ≡ true
or_left c h = rw h refl

pub either : (b : Bool) {c : Bool} → (b || c) ≡ true → (b ≡ true) ⊎ (c ≡ true)
either true h = inl refl
either false h = inr h

pub nonzero : (x : ℕ) → (x == 0) ≡ false → x ≢ 0
nonzero x h e = let z : (x == 0) ≡ true = (==_iff x 0).1 e in cc

-- Fuel is left: a scanner with the property, or a panic.
pub data Ends (P : Scanner → Type 0) : Walk → Type 0 where
  ends : (s : Scanner) → P s → Ends P (done s)
  is_invalid : Ends P invalid_type
  is_bad : (e : _) → Ends P (bad_add e)

pub Ends-then :
    {P : Scanner → Type 0} (Q : Scanner → Type 0) {w : Walk} (f : Scanner → Walk)
    → Ends P w
    → ((s : Scanner) → P s → Ends Q (f s))
    → Ends Q (walk_then w f)
Ends-then Q f (ends s p) h = h s p
Ends-then Q f is_invalid h = is_invalid
Ends-then Q f (is_bad e) h = is_bad e

pub Ends-map :
    {P : Scanner → Type 0} (Q : Scanner → Type 0) {w : Walk}
    → Ends P w
    → ((s : Scanner) → P s → Q s)
    → Ends Q w
Ends-map Q (ends s p) h = ends s (h s p)
Ends-map Q is_invalid h = is_invalid
Ends-map Q (is_bad e) h = is_bad e

-- Nil, or scanned.
abbrev pub Seen : Scanner → ℕ → Type 0
Seen s x = (x ≡ 0) ⊎ (lookup x s.scanned ≡ some tt)

module _ (view : ℕ → View) where
  -- From a place the walk leads to another one.
  pub data Leads (x : ℕ) : ℕ → Type 0 where
    itself : Leads x x
    through : (y z : ℕ) → Leads x y → y ≢ 0 → Memᴰ z (parts (view y)) → Leads x z

  -- The places behind the place are seen, and its region is covered.
  pub record IsDone (s : Scanner) (x : ℕ) : Type 0 where
    pub behind : (y : ℕ) → Memᴰ y (parts (view x)) → Seen s y
    pub covers : (a : ℕ) → in_region (region (view x)) a ≡ true → covered a s.containers ≡ true

  module _ (Q : ℕ → Type 0) where
    -- Between two scanners, places with the property were scanned.
    pub record After (s r : Scanner) : Type 0 where
      pub kept : Keeps s.scanned r.scanned
      pub grows : (a : ℕ) → covered a s.containers ≡ true → covered a r.containers ≡ true
      pub fresh :
          (x : ℕ)
          → lookup x r.scanned ≡ some tt
          → (lookup x s.scanned ≡ some tt) ⊎ (IsDone r x × Q x)
      pub only :
          (a : ℕ)
          → covered a r.containers ≡ true
          → (covered a s.containers ≡ true)
            ⊎ ((x : ℕ) × Q x × (in_region (region (view x)) a ≡ true))

    pub After-refl : (s : Scanner) → After s s
    After-refl s = record {
      kept = λ x u h. h;
      grows = λ a h. h;
      fresh = λ x h. inl h;
      only = λ a h. inl h;
    }

    pub Seen-After : (s r : Scanner) (x : ℕ) → After s r → Seen s x → Seen r x
    Seen-After s r x a (inl e) = inl e
    Seen-After s r x a (inr e) = inr (a.kept x tt e)

    pub IsDone-After : (s r : Scanner) (x : ℕ) → After s r → IsDone s x → IsDone r x
    IsDone-After s r x a d = record {
      behind = λ y m. Seen-After s r y a (d.behind y m);
      covers = λ b h. a.grows b (d.covers b h);
    }

    pub After-trans : (s r q : Scanner) → After s r → After r q → After s q
    After-trans s r q a b = record {
      kept = λ x u h. b.kept x u (a.kept x u h);
      grows = λ c h. b.grows c (a.grows c h);
      fresh = λ x h. elim (b.fresh x h) [
        | inr new ↦ inr new
        | inl old ↦ elim (a.fresh x old) [
          | inl older ↦ inl older
          | inr new ↦ inr (IsDone-After r q x b (new.0), new.1)
        ]
      ];
      only = λ c h. elim (b.only c h) [ inr new ↦ inr new | inl old ↦ a.only c old ];
    }
