-- ===== src/Commands/Keys/Laws.antt =====
-- What is in a list of keys.
use poker_management_system.Common.{String, Bool, true, ◌||◌, ◌≡◌, List, [], ◌∷◌, ◌++◌, any, arith}
use poker_management_system.Common.Text.{◌=ₜ◌}
use poker_management_system.Common.Text.Laws.{eq_of_test}
use poker_management_system.Commands.Keys.{has_key, distinct_keys, insert_key, sort_keys, key_list}

pub has_key-append_left :
    (xs ys : List String) (key : String) → has_key xs key ≡ true → has_key (xs ++ ys) key ≡ true
has_key-append_left [] ys key h = cc
has_key-append_left (x ∷ xs) ys key h = ground (arith, has_key-append_left xs ys key)

pub has_key-append_right :
    (xs ys : List String) (key : String) → has_key ys key ≡ true → has_key (xs ++ ys) key ≡ true
has_key-append_right [] ys key h = h
has_key-append_right (x ∷ xs) ys key h = ground (arith, has_key-append_right xs ys key)

has_key-distinct_keys :
    (keys : List String) (key : String)
    → has_key keys key ≡ true
    → has_key (distinct_keys keys) key ≡ true
unfolding distinct_keys
has_key-distinct_keys [] key h = cc
has_key-distinct_keys (k ∷ keys) key h =
    ground (arith, has_key-distinct_keys keys key, eq_of_test k key)

has_key-insert_key :
    (k : String) (keys : List String) (key : String)
    → ((k =ₜ key) || has_key keys key) ≡ true
    → has_key (insert_key k keys) key ≡ true
unfolding insert_key
has_key-insert_key k [] key h = h
has_key-insert_key k (x ∷ keys) key h = ground (arith, has_key-insert_key k keys key)

has_key-sort_keys :
    (keys : List String) (key : String)
    → has_key keys key ≡ true
    → has_key (sort_keys keys) key ≡ true
unfolding sort_keys
has_key-sort_keys [] key h = cc
has_key-sort_keys (k ∷ keys) key h =
    ground (arith, has_key-sort_keys keys key, has_key-insert_key k (sort_keys keys) key)

-- What was added to the set is in the sorted list.
pub has_key-key_list :
    (keys : List String) (key : String)
    → has_key keys key ≡ true
    → has_key (key_list keys) key ≡ true
unfolding key_list
has_key-key_list keys key h =
    has_key-sort_keys (distinct_keys keys) key (has_key-distinct_keys keys key h)

-- A test that a key passes, some key of a list with it passes.
pub any-has_key :
    (p : String → Bool) (keys : List String) (key : String)
    → has_key keys key ≡ true
    → p key ≡ true
    → any p keys ≡ true
any-has_key p [] key h t = cc
any-has_key p (k ∷ keys) key h t = ground (arith, any-has_key p keys key, pass k)
  where
    pass : (k : String) → (k =ₜ key) ≡ true → p k ≡ true
    pass k e = rw (eq_of_test k key e) t
