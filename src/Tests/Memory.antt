-- ===== src/Tests/Memory.antt =====
-- A table in memory that never fails: an instance of the database's laws, for runs and tests.
use ework_runner.Prelude.{
  ℕ, zero, suc, ◌≤◌, ◌<◌, ltb, ℤ, pos, negsuc, pos_part, ◌==ℤ◌, ◌≤ℤ◌, Bool, true, false, ◌||◌, ◌≡◌,
  ◌≢◌, refl, ap, ◌∙◌, ◌⊎◌, inl, inr, none, some, List, [], ◌∷◌, ◌++◌, find, find_sound, All, arith,
  length, ==ℤ_iff, Bool-cases, Option-cases, if◌then◌else◌,
}
use ework_runner.Database.{Engine, Reply, failed, done, Laws, update_where, row_at}

module _ {Row : Type 0} where
  unfoldable pub any : (Row → Bool) → List Row → Bool
  any p [] = false
  any p (r ∷ rows) = p r || any p rows

  update_where-none :
      (p : Row → Bool) (f : Row → Row) (rows : List Row)
      → any p rows ≡ false
      → update_where p f rows ≡ rows
  unfolding any update_where
  update_where-none p f [] h = refl
  update_where-none p f (r ∷ rows) h = ground (arith, update_where-none p f rows)

  unfoldable pub take : ℕ → List Row → List Row
  take zero rows = []
  take (suc n) [] = []
  take (suc n) (r ∷ rows) = r ∷ take n rows

  All-take : (P : Row → Type 0) (n : ℕ) (rows : List Row) → All P rows → All P (take n rows)
  unfolding take
  All-take P zero rows h = tt
  All-take P (suc n) [] h = tt
  All-take P (suc n) (r ∷ rows) h = (h.0, All-take P n rows h.1)

  length-take-le : (n : ℕ) (rows : List Row) → length (take n rows) ≤ n
  unfolding take
  length-take-le zero rows = omega arith
  length-take-le (suc n) [] = omega arith
  length-take-le (suc n) (r ∷ rows) = omega (arith, length-take-le n rows)

  length-take-limit :
      (limit : ℤ) (rows : List Row)
      → pos 0 ≤ℤ limit
      → pos (length (take (pos_part limit) rows)) ≤ℤ limit
  length-take-limit (pos n) rows h = omega (arith, length-take-le n rows)
  length-take-limit (negsuc n) rows h = absurd (omega arith)

module _ {Row : Type 0} (key : Row → ℤ) where
  abbrev Selected : (Row → Bool) → List Row → Row → Type 0
  Selected p rows r = (row_at key (key r) rows ≡ some r) × (p r ≡ true)

  -- The selected rows of `rows` under the keys of a list.
  unfoldable pub selected : (Row → Bool) → List Row → List Row → List Row
  selected p rows [] = []
  selected p rows (r ∷ rest) =
      let more = selected p rows rest in
      elim (row_at key (key r) rows) [ none ↦ more | some s ↦ if p s then s ∷ more else more ]

  selected-Selected :
      (p : Row → Bool) (rows rest : List Row) → All (Selected p rows) (selected p rows rest)
  unfolding selected
  selected-Selected p rows [] = tt
  selected-Selected p rows (r ∷ rest) = elim (Option-cases (row_at key (key r) rows)) [
    | inl e ↦ rw (e, selected) (selected-Selected p rows rest)
    | inr (s, e) ↦
        let under : key s ≡ key r = (==ℤ_iff (key s) (key r)).0 (find_sound _ rows s e) in
        elim (Bool-cases (p s)) [
          | inl hit ↦
              rw (e, selected, hit)
                ((ap (λ k. row_at key k rows) under ∙ e, hit), selected-Selected p rows rest)
          | inr miss ↦ rw (e, selected, miss) (selected-Selected p rows rest)
        ]
  ]

  unfoldable pub next_key : List Row → ℕ
  next_key [] = 1
  next_key (r ∷ rows) =
      let n = next_key rows in if ltb (pos_part (key r)) n then n else suc (pos_part (key r))

  below_next : (n : ℕ) (rows : List Row) → next_key rows ≤ n → row_at key (pos n) rows ≡ none
  unfolding next_key find ◌==ℤ◌
  below_next n [] h = refl
  below_next n (r ∷ rows) h = ground (arith, below_next n rows)

module _ {Row : Type 0} (key : Row → ℤ) (stored : ℤ → Row → Row) where
  abbrev respond : Bool → Bool → List Row → List Row → Reply ℕ × List Row
  respond true _ rows rows' = (done 1, rows')
  respond false true rows rows' = (failed, rows)
  respond false false rows rows' = (done 0, rows')

  abbrev is_cons : List Row → Bool
  is_cons [] = false
  is_cons (r ∷ rows) = true

  -- An UPDATE of a table whose selected rows all lie behind others of their key is refused.
  abbrev pub memory : Engine Row
  memory = record {
    update = λ t p f rows.
        respond (is_cons (selected key p rows rows)) (any p rows) rows (update_where p f rows);
    first = λ t p rows. elim (find p rows) [ none ↦ failed | some r ↦ done r ];
    select = λ t p order limit rows. done (take (pos_part limit) (selected key p rows rows));
    insert =
        λ t r rows. let row = stored (pos (next_key key rows)) r in (done row, rows ++ row ∷ []);
  }

  module _ (keyed : (k : ℤ) (r : Row) → key (stored k r) ≡ k) where
    update-memory :
        (t : ℕ) (p : Row → Bool) (f : Row → Row) (rows : List Row)
        → (memory.update t p f rows ≡ (failed, rows))
          ⊎ ((n : ℕ) × (memory.update t p f rows ≡ (done n, update_where p f rows))
              × (n ≡ 0 → update_where p f rows ≡ rows)
              × (0 < n → (k : ℤ) × (r : Row) × (row_at key k rows ≡ some r) × (p r ≡ true)))
    update-memory t p f rows =
        go (selected key p rows rows) (selected-Selected key p rows rows) (any p rows) refl
      where
        go :
            (hits : List Row)
            → All (Selected key p rows) hits
            → (b : Bool) → any p rows ≡ b
            → (respond (is_cons hits) b rows (update_where p f rows) ≡ (failed, rows))
              ⊎ ((n : ℕ) × (respond (is_cons hits) b rows (update_where p f rows)
                    ≡ (done n, update_where p f rows))
                  × (n ≡ 0 → update_where p f rows ≡ rows)
                  × (0 < n → (k : ℤ) × (r : Row) × (row_at key k rows ≡ some r) × (p r ≡ true)))
        go (r ∷ hits) h b e =
            inr (1, refl, (λ z. absurd (omega arith)), λ _. (key r, r, h.0.0, h.0.1))
        go [] h true e = inl refl
        go [] h false e =
            inr (0, refl, (λ _. update_where-none p f rows e), λ z. absurd (omega arith))

    is_cons-selected :
        (p : Row → Bool) (rows rest : List Row)
        → All (λ r. row_at key (key r) rows ≡ some r) rest
        → is_cons (selected key p rows rest) ≡ any p rest
    unfolding selected any
    is_cons-selected p rows [] h = refl
    is_cons-selected p rows (r ∷ rest) (e, h) = elim (Bool-cases (p r)) [
      | inl hit ↦ rw (e, selected, hit, any) refl
      | inr miss ↦ rw (e, selected, miss, any) (is_cons-selected p rows rest h)
    ]

    -- A table in which every row is found under its key makes every UPDATE.
    pub memory-answers :
        (t : ℕ) (p : Row → Bool) (f : Row → Row) (rows : List Row)
        → All (λ r. row_at key (key r) rows ≡ some r) rows
        → (memory.update t p f rows).0 ≢ failed
    memory-answers t p f rows h = rw (is_cons-selected p rows rows h) (answered (any p rows))
      where
        answered : (b : Bool) → (respond b b rows (update_where p f rows)).0 ≢ failed
        answered true e = cc e
        answered false e = cc e

    pub memory-Laws : Laws key stored memory
    memory-Laws = record {
      update_law = update-memory;
      first_law = λ t p rows. elim (Option-cases (find p rows)) [
        | inl e ↦ inl (rw (e, memory))
        | inr (r, e) ↦ inr (r, rw (e, memory), e)
      ];
      select_law = λ t p order limit rows. inr (
        take (pos_part limit) (selected key p rows rows),
        refl,
        All-take (Selected key p rows) _ _ (selected-Selected key p rows rows),
        length-take-limit limit (selected key p rows rows),
      );
      insert_law = λ t r rows. inr (
        pos (next_key key rows),
        refl,
        rw keyed (below_next key (next_key key rows) rows (omega arith)),
      );
    }
