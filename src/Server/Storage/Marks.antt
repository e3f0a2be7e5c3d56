-- ===== src/Server/Storage/Marks.antt =====
-- What `writeStoreDelta` writes in a table other than the ledger, `changedDependencyKeys` marks.
use poker_management_system.Common.{
  String, Bool, true, false, ◌≡◌, refl, ◌∙◌, Option, none, some, List, [], ◌∷◌, ◌++◌, ◌⊎◌, inl, inr,
  any, find, map, Bool-cases, Option-cases, arith, if◌then◌else◌,
}
use poker_management_system.Common.Text.{◌=ₜ◌}
use poker_management_system.Common.Text.Laws.{eq_of_test}
use poker_management_system.Common.Result.{ok, Ensures, Ensures-ok, Ensures-err, Ensures-bind}
use poker_management_system.Operations.Ensures.{Ensures-if}
use poker_management_system.Commands.Keys.{has_key}
use poker_management_system.Commands.Keys.Laws.{has_key-append_left, has_key-append_right}
use poker_management_system.Commands.Dependencies.{lookup, changed}
use poker_management_system.Model.Same.{is_yes, same}
use poker_management_system.Server.Storage.{
  Rows, update_row, insert_row, write_rows, no_hook, prepended,
}

module _ {A : Type 0} (eq : Discrete A) (id_of : A → String) (id : String) where
  unfoldable pub by_id : List A → Option A
  by_id = find (λ r. id_of r =ₜ id)

  -- A row with another id replaces only rows with that id.
  by_id-replace :
      (row : A) (rows : List A)
      → (id_of row =ₜ id) ≡ false
      → by_id (map (λ r. if id_of r =ₜ id_of row then row else r) rows) ≡ by_id rows
  unfolding by_id
  by_id-replace row [] n = refl
  by_id-replace row (r ∷ rows) n =
      ground (arith, by_id-replace row rows, eq_of_test (id_of r) (id_of row))

  by_id-append :
      (row : A) (rows : List A)
      → (id_of row =ₜ id) ≡ false
      → by_id (rows ++ (row ∷ [])) ≡ by_id rows
  unfolding by_id
  by_id-append row [] n = ground arith
  by_id-append row (r ∷ rows) n = ground (arith, by_id-append row rows)

  pub record IsKept (rows rows' : Rows A (Unit {0})) : Type 0 where
    pub updated : by_id rows'.updated ≡ by_id rows.updated
    pub added : by_id rows'.added ≡ by_id rows.added

  by_id-append_none : (xs ys : List A) → by_id xs ≡ none → by_id (xs ++ ys) ≡ by_id ys
  unfolding by_id
  by_id-append_none [] ys h = refl
  by_id-append_none (x ∷ xs) ys h = ground (arith, by_id-append_none xs ys)

  -- The table of a prepended collection.
  pub IsKept-prepended :
      (stored : List A) (rows : Rows A (Unit {0}))
      → IsKept (record { updated = stored; added = []; extra = tt }) rows
      → by_id (prepended rows) ≡ by_id stored
  unfolding by_id
  IsKept-prepended stored rows k = by_id-append_none rows.added rows.updated k.added ∙ k.updated

  module _ (mark : A → List String) (key : String)
      (marks : (v : A) → (id_of v =ₜ id) ≡ true → has_key (mark v) key ≡ true) where
    update-IsKept :
        (row : A) (rows : Rows A (Unit {0}))
        → Ensures
            (λ rows'. ((id_of row =ₜ id) ≡ true) ⊎ IsKept rows rows')
            (update_row eq id_of false row rows)
    unfolding update_row by_id-replace
    update-IsKept row rows =
        Ensures-if (any (λ r. id_of r =ₜ id_of row) rows.updated)
          (λ p. Ensures-ok (elim (Bool-cases (id_of row =ₜ id)) [
            | inl t ↦ inl t
            | inr n ↦ inr (record { updated = by_id-replace row rows.updated n; added = refl })
          ]))
          (λ p. Ensures-err)

    insert-IsKept :
        (row : A) (rows : Rows A (Unit {0}))
        → Ensures
            (λ rows'. ((id_of row =ₜ id) ≡ true) ⊎ IsKept rows rows')
            (insert_row eq id_of no_hook row rows)
    unfolding insert_row
    insert-IsKept row rows =
        Ensures-if (any (λ r. id_of r =ₜ id_of row) (rows.updated ++ rows.added)) (λ p. Ensures-err)
          (λ p. Ensures-bind λ extra e. Ensures-ok (elim (Bool-cases (id_of row =ₜ id)) [
            | inl t ↦ inl t
            | inr n ↦ inr (record { updated = refl; added = by_id-append row rows.added n })
          ]))

    IsKept-trans : (a b c : Rows A (Unit {0})) → IsKept a b → IsKept b c → IsKept a c
    IsKept-trans a b c p q = record { updated = q.updated ∙ p.updated; added = q.added ∙ p.added }

    -- One turn of the loop changes the row of the id only if `changed` sees it.
    step-IsKept :
        (before : List A) (row : A) (rows : Rows A (Unit {0}))
        → Ensures
            (λ rows'.
              (((id_of row =ₜ id) ≡ true)
                × (same eq (lookup id_of before (id_of row)) (some row) ≡ false))
              ⊎ IsKept rows rows')
            (elim (lookup id_of before (id_of row)) [
              | none ↦ insert_row eq id_of no_hook row rows
              | some previous ↦
                  if is_yes (eq previous row) then ok rows else update_row eq id_of false row rows
            ])
    step-IsKept before row rows = elim (Option-cases (lookup id_of before (id_of row))) [
      | inl e ↦ rw e (record {
        at = λ h. elim ((insert-IsKept row rows).at h) [ inl t ↦ inl (t, refl) | inr k ↦ inr k ];
      })
      | inr (previous, e) ↦ rw e (
          Ensures-if (is_yes (eq previous row))
            (λ p. Ensures-ok (inr (record { updated = refl; added = refl })))
            (λ p. record {
              at = λ h. elim ((update-IsKept row rows).at h) [ inl t ↦ inl (t, p) | inr k ↦ inr k ];
            }))
    ]

    marked_rest :
        (b : Bool) (row : A) (previous rest : List String)
        → has_key rest key ≡ true
        → has_key (if b then rest else mark row ++ previous ++ rest) key ≡ true
    marked_rest true row previous rest h = h
    marked_rest false row previous rest h = has_key-append_right (mark row ++ previous) rest key h

    marked_row :
        (b : Bool) (row : A) (previous rest : List String)
        → b ≡ false
        → (id_of row =ₜ id) ≡ true
        → has_key (if b then rest else mark row ++ previous ++ rest) key ≡ true
    marked_row true row previous rest n h = cc
    marked_row false row previous rest n h =
        has_key-append_left (mark row ++ previous) rest key
          (has_key-append_left (mark row) previous key (marks row h))

    -- Writing the rows `after`: the row of the id is marked, or is what it was.
    pub write_rows-IsKept :
        (before after : List A) (rows : Rows A (Unit {0}))
        → Ensures
            (λ rows'. (has_key (changed eq id_of mark before after) key ≡ true) ⊎ IsKept rows rows')
            (write_rows eq id_of false no_hook before after rows)
    unfolding write_rows changed
    write_rows-IsKept before [] rows = Ensures-ok (inr (record { updated = refl; added = refl }))
    write_rows-IsKept before (row ∷ after) rows = Ensures-bind λ next n. record {
      at = λ {a = rows'} h. elim ((step-IsKept before row rows).at n) [
        | inl (t, f) ↦ inl (marked_row _ row _ _ f t)
        | inr k ↦ elim ((write_rows-IsKept before after next).at h) [
          | inl m ↦ inl (marked_rest _ row _ _ m)
          | inr l ↦ inr (IsKept-trans rows next rows' k l)
        ]
      ];
    }
