-- ===== src/Common/Lists/Laws.antt =====
-- Laws of `find`, `any`, `update_first`, `All` and `Pairwise`.
use mathlib.Core.Path.{◌≡◌, refl, subst}
use mathlib.Core.Bool.{Bool, true, false}
use mathlib.Core.Option.{none, some}
use mathlib.Core.List.{List, [], ◌∷◌, ◌++◌}
use mathlib.Core.Logic.{◌⊎◌, inl, inr}
use native.Mathlib.Omega.{arith}
use poker_management_system.Common.Tests.{if◌then◌else◌, or-false}
use poker_management_system.Common.Lists.{any, find, update_first, All, Pairwise}

-- What `find` returns is the head, or is found in the tail.
find-cons {ℓ} :
    {A : Type ℓ} (p : A → Bool) (y : A) (xs : List A) {x : A}
    → find p (y ∷ xs) ≡ some x
    → ((p y ≡ true) × (y ≡ x)) ⊎ ((p y ≡ false) × (find p xs ≡ some x))
find-cons p y xs {x} h = by_test (p y) refl h
  where
    by_test :
        (b : Bool)
        → p y ≡ b
        → (if b then some y else find p xs) ≡ some x
        → ((p y ≡ true) × (y ≡ x)) ⊎ ((p y ≡ false) × (find p xs ≡ some x))
    by_test true t e = inl (t, cc)
    by_test false t e = inr (t, e)

module _ {ℓ} {A : Type ℓ} where
  pub find-holds : (p : A → Bool) (xs : List A) {x : A} → find p xs ≡ some x → p x ≡ true
  find-holds p [] h = cc
  find-holds p (y ∷ xs) h = elim (find-cons p y xs h) [
    | inl (t, e) ↦ rw (← e) t
    | inr (f, rest) ↦ find-holds p xs rest
  ]

  pub any-none : (p : A → Bool) (xs : List A) → any p xs ≡ false → All (λ x. p x ≡ false) xs
  any-none p [] h = tt
  any-none p (x ∷ xs) h = let (a, b) = or-false h in (a, any-none p xs b)

  pub update_first-none :
      (p : A → Bool) (f : A → A) (xs : List A) → find p xs ≡ none → update_first p f xs ≡ xs
  update_first-none p f [] h = refl
  update_first-none p f (x ∷ xs) h = ground (arith, update_first-none p f xs)

  module _ {κ} (P : A → Type κ) where
    pub All-find : (p : A → Bool) (xs : List A) {x : A} → find p xs ≡ some x → All P xs → P x
    All-find p [] h a = cc
    All-find p (y ∷ xs) h (a, as') = elim (find-cons p y xs h) [
      | inl (t, e) ↦ subst P e a
      | inr (f, rest) ↦ All-find p xs rest as'
    ]

    pub All-append : (xs : List A) {x : A} → All P xs → P x → All P (xs ++ (x ∷ []))
    All-append [] a q = (q, tt)
    All-append (y ∷ xs) (a, as') q = (a, All-append xs as' q)

    pub All-map {μ} : {Q : A → Type μ} → ((x : A) → P x → Q x) → (xs : List A) → All P xs → All Q xs
    All-map f [] a = tt
    All-map f (x ∷ xs) (a, as') = (f x a, All-map f xs as')

    -- A write keeps what it keeps of the element that it replaces.
    pub All-update_first :
        (p : A → Bool) (f : A → A) (xs : List A) {s : A}
        → find p xs ≡ some s
        → (P s → P (f s))
        → All P xs
        → All P (update_first p f xs)
    All-update_first p f [] h k a = tt
    All-update_first p f (x ∷ xs) {s} h k (a, as') = elim (find-cons p x xs h) [
      | inl (t, e) ↦ rw (t, e) (k (subst P e a), as')
      | inr (n, rest) ↦ rw n (a, All-update_first p f xs rest k as')
    ]

  module _ {κ} (R : A → A → Type κ) where
    pub Pairwise-append :
        (xs : List A) (x : A) → Pairwise R xs → All (λ y. R y x) xs → Pairwise R (xs ++ (x ∷ []))
    Pairwise-append [] x a q = (tt, tt)
    Pairwise-append (y ∷ xs) x (a, as') (q, qs) =
        (All-append (R y) xs a q, Pairwise-append xs x as' qs)

    All-after :
        {Q : A → Type κ} (s t : A)
        → ((y : A) → Q y → R s y → R t y)
        → (xs : List A) → All Q xs
        → All (R s) xs
        → All (R t) xs
    All-after s t k [] q a = tt
    All-after s t k (x ∷ xs) (q, qs) (a, as') = (k x q a, All-after s t k xs qs as')

    -- The new value has to fit each of the others, of which `Q` is known.
    pub Pairwise-update_first :
        (Q : A → Type κ) (p : A → Bool) (f : A → A) (xs : List A) {s : A}
        → find p xs ≡ some s
        → ((y : A) → Q y → R s y → R (f s) y)
        → ((y : A) → Q y → R y s → R y (f s))
        → All Q xs
        → Pairwise R xs
        → Pairwise R (update_first p f xs)
    Pairwise-update_first Q p f [] h k l q a = tt
    Pairwise-update_first Q p f (x ∷ xs) {s} h k l (q, qs) (a, as') = elim (find-cons p x xs h) [
      | inl (t, e) ↦
          rw (t, e) (All-after s (f s) k xs qs (subst (λ (y : A). All (R y) xs) e a), as')
      | inr (n, rest) ↦ rw n (
        All-update_first (R x) p f xs rest (λ r. l x q r) a,
        Pairwise-update_first Q p f xs rest k l qs as',
      )
    ]
