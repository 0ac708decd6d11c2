-- ===== src/Types/Container.antt =====
-- The memory regions of types/scan.go: containers, the sorted list that scan builds of them, and
-- its lookup. sort.Search and sort.Find are parameters. Addresses do not wrap around, since a
-- container lies in memory.
pub mod Join
pub mod Cover
pub mod Add
pub mod Insert
pub mod Lookup
pub mod Outer
use coroutine_durable_fork.Prelude.{
  ℕ, zero, suc, ◌+◌, ◌-◌, ◌*◌, ◌/◌, ◌%◌, Bool, true, false, not, ◌&&◌, ◌||◌, List, [], ◌∷◌, Option,
  none, some, ◌==◌, ltb, leb, if◌then◌else◌, length, get_elem?,
}

-- reflect.Type, as far as scan.go looks at it; a type with no parts is its number and its size.
pub data GoType : Type 0 where
  basic : ℕ → ℕ → GoType
  structure : ℕ → ℕ → GoType
  array : ℕ → GoType → GoType

unfoldable pub size_of : GoType → ℕ
size_of (basic i n) = n
size_of (structure i n) = n
size_of (array n t) = n * size_of t

unfoldable pub same_type : GoType → GoType → Bool
same_type (basic i n) (basic j m) = i == j && n == m
same_type (structure i n) (structure j m) = i == j && n == m
same_type (array n t) (array m u) = n == m && same_type t u
same_type _ _ = false

pub record Container : Type 0 where
  pub addr : ℕ
  pub typ : GoType

unfoldable pub size : Container → ℕ
unfolding size_of
size c = size_of c.typ

abbrev pub limit : Container → ℕ
limit c = c.addr + size c

unfoldable pub disjoints : Container → Container → Bool
disjoints c x = leb (limit c) x.addr || leb (limit x) c.addr

unfoldable pub overlaps : Container → Container → Bool
unfolding disjoints
overlaps c x = not (disjoints c x)

unfoldable pub contains : Container → Container → Bool
contains c x = leb c.addr x.addr && leb (limit x) (limit c)

abbrev pub after : Container → Container → Bool
after c x = ltb x.addr c.addr

unfoldable pub has : Container → ℕ → Bool
has c p = leb c.addr p && ltb p (limit c)

unfoldable pub offset : Container → ℕ → ℕ
offset c p = p - c.addr

-- The result of a comparison, as Go's sort.Find takes it: -1, 0 or 1.
pub data Sign : Type 0 where
  minus same plus : Sign

unfoldable pub compare : Container → ℕ → Sign
unfolding has
compare c p = if has c p then same else if ltb p c.addr then minus else plus

-- The panics of add.
pub data Error : Type 0 where
  nil_pointer not_container index_out_of_range bad_merge unaligned : Error
  bad_address_order bad_size_order : Error

pub data Result {ℓ} (A : Type ℓ) : Type ℓ where
  ok : A → Result A
  err : Error → Result A

infixl 5 ◌>>=◌
abbrev pub ◌>>=◌ {ℓ κ} : {A : Type ℓ} {B : Type κ} → Result A → (A → Result B) → Result B
ok a >>= f = f a
err e >>= f = err e

-- Whether `c` stands behind the place for `x`: by address, then by decreasing size.
abbrev pub behind : Container → Container → Bool
behind x c = after c x || (c.addr == x.addr && ltb (size c) (size x))

abbrev pub behind_at : Container → List Container → ℕ → Bool
behind_at x cs i = elim (get_elem? cs i) [ none ↦ true | some c ↦ behind x c ]

unfoldable pub insert_at : ℕ → Container → List Container → List Container
insert_at zero x cs = x ∷ cs
insert_at (suc i) x [] = x ∷ []
insert_at (suc i) x (c ∷ cs) = c ∷ insert_at i x cs

-- The debug assertion of insert: the addresses rise, and at equal addresses the sizes do not.
abbrev pub ordered : Container → Container → Bool
ordered c d = leb c.addr d.addr && (if d.addr == c.addr then leb (size d) (size c) else true)

unfoldable pub all_ordered : List Container → Bool
all_ordered [] = true
all_ordered (c ∷ []) = true
all_ordered (c ∷ d ∷ cs) = ordered c d && all_ordered (d ∷ cs)

-- The first panic of the assertion, for containers that are not in order.
abbrev pub order_error : List Container → Error
order_error (c ∷ d ∷ cs) =
    let later = order_error (d ∷ cs) in
    if ordered c d then later else if ltb d.addr c.addr then bad_address_order else bad_size_order
order_error _ = bad_size_order

module _ (seek : ℕ → (ℕ → Bool) → ℕ) where
  unfoldable pub insert : Container → List Container → Result (ℕ × List Container)
  unfolding insert_at all_ordered
  insert x cs =
      let i = seek (length cs) (behind_at x cs) in
      let ds = insert_at i x cs in if all_ordered ds then ok (i, ds) else err (order_error ds)

-- x.isArray() && next.isArray() && x.typ.Elem() == next.typ.Elem(), with the element type.
abbrev pub same_array : GoType → GoType → Option GoType
same_array (array n t) (array m u) = if same_type t u then some t else none
same_array _ _ = none

abbrev pub length_of : GoType → ℕ
length_of (array n t) = n
length_of _ = 0

-- The array over both, of elements `t`; `a` begins first.
unfoldable pub merge : GoType → Container → Container → Result Container
merge t a b =
    let gap = b.addr - a.addr in
    if gap % size_of t == 0
    then ok (record a { typ = array (gap / size_of t + length_of b.typ) t })
    else err unaligned

-- The one array in place of two that overlap.
unfoldable pub join : Container → Container → Result Container
join x next = elim (same_array x.typ next.typ) [ none ↦ err bad_merge | some t ↦ merge t x next ]

-- fixup at an element and those behind it. After a merge it is done again.
unfoldable pub fixup_from : Container → List Container → Result (List Container)
unfolding overlaps contains
fixup_from x [] = ok (x ∷ [])
fixup_from x (next ∷ rest) =
    let again = λ (m : Container). fixup_from m rest in
    if not (overlaps x next)
    then ok (x ∷ next ∷ rest)
    else if contains x next
    then ok (x ∷ rest)
    else (join x next >>= again)

abbrev cons : Container → Result (List Container) → Result (List Container)
cons c (ok cs) = ok (c ∷ cs)
cons c (err e) = err e

unfoldable pub fixup : ℕ → List Container → Result (List Container)
unfolding fixup_from
fixup i [] = err index_out_of_range
fixup zero (x ∷ cs) = fixup_from x cs
fixup (suc i) (x ∷ cs) = cons x (fixup i cs)

-- c.fixup(i), and c.fixup(i - 1) if there is one.
abbrev fix_both : ℕ → List Container → Result (List Container)
fix_both zero cs = fixup zero cs
fix_both (suc i) cs = fixup (suc i) cs >>= fixup i

abbrev pub is_container : GoType → Bool
is_container (basic i n) = false
is_container _ = true

module _ (seek : ℕ → (ℕ → Bool) → ℕ) where
  unfoldable pub add : GoType → ℕ → List Container → Result (List Container)
  unfolding insert fixup
  add t p cs =
      if size_of t == 0
      then ok cs
      else if p == 0
      then err nil_pointer
      else if not (is_container t)
      then err not_container
      else (insert seek (record { addr = p; typ = t }) cs >>= λ (i, ds). fix_both i ds)

abbrev pub compare_at : ℕ → List Container → ℕ → Sign
compare_at p cs i = elim (get_elem? cs i) [ none ↦ minus | some c ↦ compare c p ]

module _ (find : ℕ → (ℕ → Sign) → ℕ × Bool) where
  -- The container at an address; the zero container is `none`.
  unfoldable pub of : ℕ → List Container → Option Container
  unfolding compare
  of p cs =
      let (i, found) = find (length cs) (compare_at p cs) in if found then get_elem? cs i else none
