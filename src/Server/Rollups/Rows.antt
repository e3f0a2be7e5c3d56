-- ===== src/Server/Rollups/Rows.antt =====
-- The rows of `poker_financial_totals`: what an upsert leaves in a bucket.

use poker_management_system.Common.{
  String, Bool, true, false, ◌&&◌, ◌≡◌, refl, sym, ◌∙◌, ap, subst, Option, none, some, List, [],
  ◌∷◌, ◌++◌, All, arith, if◌then◌else◌, ◌==◌,
}
use poker_management_system.Common.Int.{ℤ, pos, ◌+ℤ◌, int_laws}
use poker_management_system.Common.Text.{◌=ₜ◌}
use poker_management_system.Common.Text.Laws.{eq_of_test}
use poker_management_system.Model.{Transaction}
use poker_management_system.Server.Rollups.{
  Rollup, Bucket, Columns, Scope, venue, day, player, player_day, table_day, bucket_of, bucket_eq,
  scope_code, rollup_scopes, add_columns, upsert_rollup, upsert_rollups, player_scopes,
  table_scopes,
}
use poker_management_system.Server.Aggregates.{columns_at, no_columns}

scope_of_code : (a b : Scope) → (scope_code a == scope_code b) ≡ true → a ≡ b
scope_of_code venue b h = ground arith
scope_of_code day b h = ground arith
scope_of_code player b h = ground arith
scope_of_code player_day b h = ground arith
scope_of_code table_day b h = ground arith

bucket_eq-eq : (a b : Bucket) → bucket_eq a b ≡ true → a ≡ b
unfolding bucket_eq
bucket_eq-eq a b h =
    let s : (scope_code a.scope == scope_code b.scope) ≡ true = ground arith in
    let e : (a.entity_id =ₜ b.entity_id) ≡ true = ground arith in
    let d : (a.day_id =ₜ b.day_id) ≡ true = ground arith in
    let s' = scope_of_code a.scope b.scope s in
    let e' = eq_of_test a.entity_id b.entity_id e in let d' = eq_of_test a.day_id b.day_id d in cc

zero_add : (a : ℤ) → pos 0 +ℤ a ≡ a
zero_add a = omega int_laws

add_columns-zero : (v : Columns) → add_columns no_columns v ≡ v
unfolding add_columns
add_columns-zero v = simp (zero_add)

columns_at-cons :
    (row : Rollup) (rows : List Rollup) (c : Bucket)
    → columns_at (row ∷ rows) c
      ≡ (if bucket_eq row.bucket c then row.columns else columns_at rows c)
unfolding columns_at
columns_at-cons row rows c = by_test (bucket_eq row.bucket c) refl
  where
    by_test :
        (b : Bool)
        → bucket_eq row.bucket c ≡ b
        → columns_at (row ∷ rows) c ≡ (if b then row.columns else columns_at rows c)
    by_test true e = rw (e, columns_at) refl
    by_test false e = rw (e, columns_at) refl

same_bucket : (a b c : Bucket) → bucket_eq a c ≡ true → bucket_eq b c ≡ true → bucket_eq a b ≡ true
same_bucket a b c h k = subst (λ x. bucket_eq a x ≡ true) (sym (bucket_eq-eq b c k)) h

if_twice :
    {A : Type 0} (t : Bool) (f : A → A) (x y : A)
    → (if t then f x else y) ≡ (if t then f (if t then x else y) else (if t then x else y))
if_twice true f x y = refl
if_twice false f x y = refl

if_apart :
    {A : Type 0} (s t : Bool) (f : A → A) (x y : A)
    → (s && t) ≡ false
    → (if s then x else (if t then f y else y))
      ≡ (if t then f (if s then x else y) else (if s then x else y))
if_apart true true f x y h = cc
if_apart true false f x y h = refl
if_apart false t f x y h = refl

columns_at-upsert :
    (b c : Bucket) (v : Columns) (rows : List Rollup)
    → columns_at (upsert_rollup b v rows) c
      ≡ (if bucket_eq b c then add_columns (columns_at rows c) v else columns_at rows c)
unfolding upsert_rollup columns_at
columns_at-upsert b c v [] =
    rw (columns_at-cons (record { bucket = b; columns = v }) [] c, columns_at)
      (empty (bucket_eq b c))
  where
    empty :
        (t : Bool)
        → (if t then v else no_columns) ≡ (if t then add_columns no_columns v else no_columns)
    empty true = sym (add_columns-zero v)
    empty false = refl
columns_at-upsert b c v (row ∷ rows) =
    by_test (columns_at-upsert b c v rows) (bucket_eq row.bucket b) refl
  where
    apart : bucket_eq row.bucket b ≡ false → (bucket_eq row.bucket c && bucket_eq b c) ≡ false
    apart e = ground (arith, same_bucket row.bucket b c)

    by_test :
        columns_at (upsert_rollup b v rows) c
          ≡ (if bucket_eq b c then add_columns (columns_at rows c) v else columns_at rows c)
        → (t : Bool) → bucket_eq row.bucket b ≡ t
        → columns_at
            (if t
              then record row { columns = add_columns row.columns v } ∷ rows
              else row ∷ upsert_rollup b v rows)
            c
          ≡ (if bucket_eq b c
              then add_columns (columns_at (row ∷ rows) c) v
              else columns_at (row ∷ rows) c)
    by_test rest true e =
        let same : bucket_eq row.bucket c ≡ bucket_eq b c =
          ap (λ x. bucket_eq x c) (bucket_eq-eq row.bucket b e) in
        rw
          (
            columns_at-cons (record row { columns = add_columns row.columns v }) rows c,
            columns_at-cons row rows c,
            same,
          )
          (if_twice (bucket_eq b c) (λ x. add_columns x v) row.columns (columns_at rows c))
    by_test rest false e =
        rw (columns_at-cons row (upsert_rollup b v rows) c, columns_at-cons row rows c, rest)
          (if_apart (bucket_eq row.bucket c) (bucket_eq b c) (λ x. add_columns x v) row.columns
            (columns_at rows c) (apart e))

columns_at-skip :
    (bs : List Bucket) (c : Bucket) (v : Columns) (rows : List Rollup)
    → All (λ b. bucket_eq b c ≡ false) bs
    → columns_at (upsert_rollups bs v rows) c ≡ columns_at rows c
unfolding upsert_rollups
columns_at-skip [] c v rows h = refl
columns_at-skip (b ∷ bs) c v rows (n, h) =
    columns_at-skip bs c v (upsert_rollup b v rows) h ∙ (columns_at-upsert b c v rows ∙ rw n refl)

All-join : {A : Type 0} (P : A → Type 0) (xs ys : List A) → All P xs → All P ys → All P (xs ++ ys)
All-join P [] ys h k = k
All-join P (x ∷ xs) ys (a, h) k = (a, All-join P xs ys h k)

-- The buckets of players and tables are none of a day.
player_scopes-skip :
    (o : Option String) (day_id d : String)
    → All (λ b. bucket_eq b (bucket_of day "" d) ≡ false) (player_scopes o day_id)
unfolding bucket_eq
player_scopes-skip none day_id d = tt
player_scopes-skip (some String.[]) day_id d = tt
player_scopes-skip (some (String.◌∷◌ c s)) day_id d = (refl, (refl, tt))

table_scopes-skip :
    (o : Option String) (day_id d : String)
    → All (λ b. bucket_eq b (bucket_of day "" d) ≡ false) (table_scopes o day_id)
unfolding bucket_eq
table_scopes-skip none day_id d = tt
table_scopes-skip (some String.[]) day_id d = tt
table_scopes-skip (some (String.◌∷◌ c s)) day_id d = (refl, tt)

-- The row of a day after an entry.
pub columns_at-day :
    (tx : Transaction) (d : String) (v : Columns) (rows : List Rollup)
    → columns_at (upsert_rollups (rollup_scopes tx) v rows) (bucket_of day "" d) ≡ (
        if tx.day_id =ₜ d
        then add_columns (columns_at rows (bucket_of day "" d)) v
        else columns_at rows (bucket_of day "" d))
unfolding upsert_rollups rollup_scopes bucket_eq
columns_at-day tx d v rows =
    let c = bucket_of day "" d in
    columns_at-skip (player_scopes tx.player_id tx.day_id ++ table_scopes tx.table_id tx.day_id) c v
      (upsert_rollup (bucket_of day "" tx.day_id) v (upsert_rollup (bucket_of venue "" "") v rows))
      (All-join _ (player_scopes tx.player_id tx.day_id) (table_scopes tx.table_id tx.day_id)
        (player_scopes-skip tx.player_id tx.day_id d) (table_scopes-skip tx.table_id tx.day_id d))
    ∙ (columns_at-upsert (bucket_of day "" tx.day_id) c v
          (upsert_rollup (bucket_of venue "" "") v rows)
        ∙ ap (λ x. if tx.day_id =ₜ d then add_columns x v else x)
            (columns_at-upsert (bucket_of venue "" "") c v rows))
