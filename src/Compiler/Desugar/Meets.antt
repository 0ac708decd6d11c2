-- ===== src/Compiler/Desugar/Meets.antt =====
-- The calls of the desugarer of compiler/desugar.go, by a property of what they give and of the
-- state that they leave: its labels, and those that are not used.
use coroutine_durable_fork.Prelude.{
  some-inj, ℕ, ◌≤◌, ◌<◌, ◌≡◌, refl, sym, ◌∙◌, Bool-cases, inl, inr, false, List, [], ◌∷◌, Option,
  none, some, ◌==◌, subst, arith,
}
use coroutine_durable_fork.Compiler.Desugar.State.{
  Desugarer, Panic, Outcome, done, panic, out_of_fuel, M, ◌>>=◌, give, new_var, new_label,
  add_user_label, get_user_label, use_label, label_of, delete, is_member,
}

-- The label has been handed out, and a branch uses it.
unfoldable pub IsUsed : Desugarer → ℕ → Type 0
IsUsed d l = (l < d.labels) × (is_member l d.unused_labels ≡ false)

pub record Extends (d e : Desugarer) : Type 0 where
  pub grows : d.labels ≤ e.labels
  pub stays : (l : ℕ) → IsUsed d l → IsUsed e l

-- The user's labels stand for labels that have been handed out.
unfoldable pub IsGood : Desugarer → Type 0
IsGood d = (u l : ℕ) → label_of u d.user_labels ≡ some l → l < d.labels

unfoldable pub IsBelow : Desugarer → Option ℕ → Type 0
IsBelow d none = Unit
IsBelow d (some l) = l < d.labels

-- The outcome of a call at `d`: fuel is left, and a result has the property `P`.
pub data Holds {A : Type 0} (P : A → Desugarer → Type 0) (d : Desugarer) : Outcome A → Type 0 where
  gives : (a : A) (e : Desugarer) → IsGood e → Extends d e → P a e → Holds P d (done a e)
  panics : (p : Panic) → Holds P d (panic p)

pub Extends-refl : (d : Desugarer) → Extends d d
Extends-refl d = record { grows = omega arith; stays = λ l h. h }

pub Extends-trans : {d e f : Desugarer} → Extends d e → Extends e f → Extends d f
Extends-trans h k = record {
  grows = omega (arith, h.grows, k.grows);
  stays = λ l u. k.stays l (h.stays l u);
}

pub IsBelow-Extends : {d e : Desugarer} (b : Option ℕ) → Extends d e → IsBelow d b → IsBelow e b
unfolding IsBelow
IsBelow-Extends none h p = tt
IsBelow-Extends (some l) h p = omega (arith, p, h.grows)

pub Holds-give :
    {A : Type 0} (P : A → Desugarer → Type 0) (d : Desugarer) (a : A)
    → IsGood d
    → P a d
    → Holds P d (give a d)
Holds-give P d a g p = gives a d g (Extends-refl d) p

pub Holds-map :
    {A : Type 0} {P : A → Desugarer → Type 0} (Q : A → Desugarer → Type 0) {d : Desugarer}
    {o : Outcome A}
    → Holds P d o
    → ((a : A) (e : Desugarer) → P a e → Q a e)
    → Holds Q d o
Holds-map Q (gives a e g h p) f = gives a e g h (f a e p)
Holds-map Q (panics p) f = panics p

later :
    {A : Type 0} {P : A → Desugarer → Type 0} {d e : Desugarer} {o : Outcome A}
    → Extends d e
    → Holds P e o
    → Holds P d o
later h (gives a f g k p) = gives a f g (Extends-trans h k) p
later h (panics p) = panics p

bound :
    {A B : Type 0} {P : A → Desugarer → Type 0} (Q : B → Desugarer → Type 0) {d : Desugarer}
    {o : Outcome A} (f : A → M B)
    → Holds P d o
    → ((a : A) (e : Desugarer) → IsGood e → Extends d e → P a e → Holds Q e (f a e))
    → Holds Q d (elim o [ done a e ↦ f a e | panic p ↦ panic p | out_of_fuel ↦ out_of_fuel ])
bound Q f (gives a e g h p) k = later h (k a e g h p)
bound Q f (panics p) k = panics p

-- A call and what follows it.
pub Holds-bind :
    {A B : Type 0} {P : A → Desugarer → Type 0} (Q : B → Desugarer → Type 0) {d : Desugarer}
    (m : M A) (f : A → M B)
    → Holds P d (m d)
    → ((a : A) (e : Desugarer) → IsGood e → Extends d e → P a e → Holds Q e (f a e))
    → Holds Q d ((m >>= f) d)
Holds-bind Q m f h k = bound Q f h k

-- Of the result nothing is promised.
abbrev pub Any : {A : Type 0} → A → Desugarer → Type 0
Any a d = Unit

pub new_var-Holds : (d : Desugarer) → IsGood d → Holds Any d (new_var d)
unfolding new_var IsGood IsUsed
new_var-Holds d g = gives _ _ g (record { grows = omega arith; stays = λ l h. h }) tt

fresh-unused :
    (n l : ℕ) (ls : List ℕ) → l < n → is_member l ls ≡ false → is_member l (n ∷ ls) ≡ false
fresh-unused n l ls h p = ground arith

pub new_label-Holds : (d : Desugarer) → IsGood d → Holds (λ l e. l < e.labels) d (new_label d)
unfolding new_label IsGood IsUsed
new_label-Holds d g =
    gives _ _ (λ u l p. omega (arith, g u l p))
      (record {
        grows = omega arith;
        stays = λ l h. (omega (arith, h.0), fresh-unused d.labels l d.unused_labels h.0 h.1);
      })
      (omega arith)

delete-other : (k l : ℕ) (ls : List ℕ) → is_member k ls ≡ false → is_member k (delete l ls) ≡ false
delete-other k l [] h = refl
delete-other k l (n ∷ ls) h = let rest = delete-other k l ls in ground (arith, rest)

delete-gone : (l : ℕ) (ls : List ℕ) → is_member l (delete l ls) ≡ false
delete-gone l [] = refl
delete-gone l (n ∷ ls) = let rest = delete-gone l ls in ground arith

used :
    (k l n : ℕ) (ls : List ℕ)
    → k < n
    → Option.some k ≡ some l
    → (l < n) × (is_member l (delete k ls) ≡ false)
used k l n ls h p =
    let e : k ≡ l = some-inj refl p in
    (omega (arith, e, h), subst (λ i. is_member i (delete k ls) ≡ false) e (delete-gone k ls))

pub use_label-Holds :
    (b : Option ℕ) (d : Desugarer)
    → IsGood d
    → IsBelow d b
    → Holds (λ _ e. (l : ℕ) → b ≡ some l → IsUsed e l) d (use_label b d)
unfolding use_label IsGood IsUsed IsBelow
use_label-Holds none d g h = gives _ _ g (Extends-refl d) (λ l p. cc)
use_label-Holds (some k) d g h =
    gives _ _ g
      (record { grows = omega arith; stays = λ l u. (u.0, delete-other l k d.unused_labels u.1) })
      (λ l p. used k l d.labels d.unused_labels h p)

named :
    (u l v k n : ℕ) (m : List (ℕ × ℕ))
    → l < n
    → (label_of v m ≡ some k → k < n)
    → label_of v ((u, l) ∷ m) ≡ some k
    → k < n
named u l v k n m h g p = elim (Bool-cases (u == v)) [
  | inl e ↦
      let step : label_of v ((u, l) ∷ m) ≡ some l = rw e refl in
      let same : l ≡ k = some-inj step p in omega (arith, same, h)
  | inr e ↦ let step : label_of v ((u, l) ∷ m) ≡ label_of v m = rw e refl in g (sym step ∙ p)
]

pub add_user_label-Holds :
    (u : Option ℕ) (l : ℕ) (d : Desugarer)
    → IsGood d
    → l < d.labels
    → Holds Any d (add_user_label u l d)
unfolding add_user_label IsGood IsUsed
add_user_label-Holds none l d g h = gives _ _ g (Extends-refl d) tt
add_user_label-Holds (some u) l d g h =
    gives _ _ (λ v k p. named u l v k d.labels d.user_labels h (g v k) p)
      (record { grows = omega arith; stays = λ l h. h }) tt

IsBelow-found : (d : Desugarer) (o : Option ℕ) → ((l : ℕ) → o ≡ some l → l < d.labels) → IsBelow d o
unfolding IsBelow
IsBelow-found d none h = tt
IsBelow-found d (some l) h = h l refl

pub get_user_label-Holds :
    (u : ℕ) (d : Desugarer) → IsGood d → Holds (λ l e. IsBelow e l) d (get_user_label u d)
unfolding get_user_label IsGood
get_user_label-Holds u d g =
    gives _ _ g (Extends-refl d) (IsBelow-found d (label_of u d.user_labels) (g u))
