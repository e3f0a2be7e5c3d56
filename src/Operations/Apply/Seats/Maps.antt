-- ===== src/Operations/Apply/Seats/Maps.antt =====
-- Writes to one session as maps over sessions with different ids.
use poker_management_system.Common.{
  ◌≡◌, ◌≢◌, refl, sym, ap, ◌∙◌, String, Bool, true, false, List, [], ◌∷◌, any, inl, inr, map,
  update_first, All, Pairwise, arith, if◌then◌else◌, Bool-cases,
}
use poker_management_system.Common.Lists.Laws.{All-map}
use poker_management_system.Common.Text.Laws.{test_of_ne}
use poker_management_system.Common.Text.{◌=ₜ◌}
use text.Mathlib.TextEquality.{eq_iff}
use poker_management_system.Model.{Session}

abbrev pub OtherIds : Session → Session → Type 0
OtherIds s t = s.id ≢ t.id

pub Pairwise-map :
    (R R' : Session → Session → Type 0) (Q : Session → Type 0) (h : Session → Session)
    → ((s t : Session) → Q s → Q t → R s t → R' (h s) (h t))
    → (xs : List Session) → All Q xs
    → Pairwise R xs
    → Pairwise R' (map h xs)
Pairwise-map R R' Q h k [] q a = tt
Pairwise-map R R' Q h k (x ∷ xs) (q, qs) (a, as') =
    (heads xs qs a, Pairwise-map R R' Q h k xs qs as')
  where
    heads : (ys : List Session) → All Q ys → All (R x) ys → All (R' (h x)) (map h ys)
    heads [] u b = tt
    heads (y ∷ ys) (u, us) (b, bs) = (k x y q u b, heads ys us bs)

-- A test that only the session `k` can pass.
module _ (p : Session → Bool) (k : String) (only : (s : Session) → p s ≡ true → s.id ≡ k) where
  none_other : (x : Session) (xs : List Session) → x.id ≡ k → All (OtherIds x) xs → any p xs ≡ false
  none_other x [] e a = refl
  none_other x (y ∷ ys) e (n, ns) = elim (Bool-cases (p y)) [
    | inl t ↦ absurd (n (e ∙ sym (only y t)))
    | inr f ↦ rw f (none_other x ys e ns)
  ]

  pub its_test :
      (xs : List Session)
      → Pairwise OtherIds xs
      → any p xs ≡ true
      → All (λ s. s.id ≡ k → p s ≡ true) xs
  its_test [] a h = tt
  its_test (x ∷ xs) (a, as') h = elim (Bool-cases (p x)) [
    | inl t ↦ (λ e. t, All-map _ (λ y n e. absurd (n (only x t ∙ sym e))) xs a)
    | inr f ↦
        let rest : any p xs ≡ true = ground (arith, f, h) in
        ((λ e. let g = none_other x xs e a in cc), its_test xs as' rest)
  ]

  map_others :
      (f : Session → Session) (xs : List Session)
      → All (λ s. s.id ≢ k) xs
      → map (λ s. if s.id =ₜ k then f s else s) xs ≡ xs
  map_others f [] a = refl
  map_others f (x ∷ xs) (n, ns) = rw (test_of_ne x.id k n) (ap (◌∷◌ x) (map_others f xs ns))

  -- The write is a map.
  pub update_first-map :
      (f : Session → Session) (xs : List Session)
      → Pairwise OtherIds xs
      → any p xs ≡ true
      → update_first p f xs ≡ map (λ s. if s.id =ₜ k then f s else s) xs
  update_first-map f [] a h = cc
  update_first-map f (x ∷ xs) (a, as') h = elim (Bool-cases (p x)) [
    | inl t ↦
        let same_id = (eq_iff x.id k).1 (only x t) in
        rw (t, same_id)
          (ap (◌∷◌ (f x)) (sym (map_others f xs (All-map _ (λ y n e. n (only x t ∙ sym e)) xs a))))
    | inr n ↦
        let rest : any p xs ≡ true = ground (arith, n, h) in
        let other : x.id ≢ k = λ e. let g = none_other x xs e a in cc in
        rw (n, test_of_ne x.id k other) (ap (◌∷◌ x) (update_first-map f xs as' rest))
  ]

pub trivial : (xs : List Session) → All (λ _. Unit {0}) xs
trivial [] = tt
trivial (x ∷ xs) = (tt, trivial xs)

pub map-any :
    (p : Session → Bool) (h : Session → Session)
    → ((s : Session) → p s ≡ true → p (h s) ≡ true)
    → (xs : List Session) → any p xs ≡ true
    → any p (map h xs) ≡ true
map-any p h k [] e = cc
map-any p h k (x ∷ xs) e = elim (Bool-cases (p x)) [
  | inl t ↦ rw (k x t) refl
  | inr f ↦
      let rest : any p xs ≡ true = ground (arith, f, e) in ground (arith, map-any p h k xs rest)
]

pub map-map :
    (g h : Session → Session) (xs : List Session) → map g (map h xs) ≡ map (λ s. g (h s)) xs
map-map g h [] = refl
map-map g h (x ∷ xs) = ap (◌∷◌ (g (h x))) (map-map g h xs)
