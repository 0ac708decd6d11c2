-- ===== src/Types/Scan/Reach.antt =====
-- scan over the addresses of the program: what it covers, in terms of the parts of values.
use coroutine_durable_fork.Prelude.{ℕ, ◌≡◌, ◌≢◌, ◌⊎◌, true, List, some}
use coroutine_durable_fork.Types.Container.{array, Container, has}
use coroutine_durable_fork.Types.Container.Cover.{covered}
use coroutine_durable_fork.Types.Scan.{Scanner}
use coroutine_durable_fork.Types.Scan.Growth.{Leads, itself, through}
use coroutine_durable_fork.Types.Scan.Look.{
  Layout, array_of, slice_of, string, struct, TypeTable, Heap, type_at, addr_of, look,
}
use coroutine_durable_fork.Types.Scan.Behind.{Behind}
use coroutine_durable_fork.Types.Scan.Parts.{IsPart-parts}

module _ (ts : TypeTable) (h : Heap) where
  -- The region of a value has the address: an array or a struct itself, the array behind a slice, of
  -- its capacity, and the bytes of a string.
  abbrev pub InRegion : ℕ → ℕ → Layout → ℕ → Type 0
  InRegion t p (array_of n e) a = has (record { addr = p; typ = ts.go_type t }) a ≡ true
  InRegion t p (struct fs) a = has (record { addr = p; typ = ts.go_type t }) a ≡ true
  InRegion t p (slice_of e) a =
      (d : ℕ) × (len : ℕ) × (capacity : ℕ) × (h.slice_at p ≡ some (d, len, capacity))
      × (d ≢ 0)
      × (has (record { addr = d; typ = array capacity (ts.go_type e) }) a ≡ true)
  InRegion t p string a =
      (q : ℕ) × (n : ℕ) × (h.string_at p ≡ (q, n))
      × (q ≢ 0)
      × (has (record { addr = q; typ = array n ts.byte }) a ≡ true)
  InRegion t p _ a = ⊥

  abbrev pub Covers : ℕ → ℕ → Type 0
  Covers x a = InRegion (type_at ts h x) (addr_of ts h x) (ts.shape (type_at ts h x)) a

  -- From a value its parts are reached, and what they reach, through addresses that are not nil.
  pub data Reaches (x : ℕ) : ℕ → Type 0 where
    self : Reaches x x
    part : (y z : ℕ) → Reaches x y → y ≢ 0 → Behind ts h y z → Reaches x z

  pub Reaches-Leads : (x y : ℕ) → Reaches x y → Leads (look ts h) x y
  unfolding look
  Reaches-Leads x _ self = itself
  Reaches-Leads x _ (part y z l f m) =
      through y z (Reaches-Leads x y l) f
        (IsPart-parts ts h (type_at ts h y) (addr_of ts h y) (ts.shape (type_at ts h y)) z m)

  -- What scan makes of the containers.
  pub record HasScanned (x : ℕ) (cs : List Container) (r : Scanner) : Type 0 where
    pub all : (y a : ℕ) → Reaches x y → y ≢ 0 → Covers y a → covered a r.containers ≡ true
    pub old : (a : ℕ) → covered a cs ≡ true → covered a r.containers ≡ true
    pub only :
        (a : ℕ)
        → covered a r.containers ≡ true
        → (covered a cs ≡ true) ⊎ ((y : ℕ) × Reaches x y × Covers y a)
