-- ===== src/Database.antt =====
-- The database that the DAOs call through GORM, as a parameter. A table is the list of its rows in
-- the order of the primary key. `ℕ` is the moment of a call: the answer of the database may change.
use ework_runner.Prelude.{
  ℕ, ◌<◌, ◌==◌, ℤ, pos, ◌==ℤ◌, ◌≤ℤ◌, Bool, true, false, ◌≡◌, ◌≢◌, refl, sym, ap, ◌∙◌, ◌⊎◌, inl, inr,
  Option, none, some, List, [], ◌∷◌, ◌++◌, find, find_sound, All, arith, if◌then◌else◌, length,
  ==ℤ_iff, Bool-cases,
}
use mathlib.Core.Path.{subst}

pub data Reply {ℓ} (A : Type ℓ) : Type ℓ where
  failed : Reply A
  done : A → Reply A

pub record Engine (Row : Type 0) : Type 0 where
  -- UPDATE … SET … WHERE …, with the number of affected rows
  pub update : ℕ → (Row → Bool) → (Row → Row) → List Row → Reply ℕ × List Row
  -- SELECT … WHERE … ORDER BY id LIMIT 1; no row is a failure
  pub first : ℕ → (Row → Bool) → List Row → Reply Row
  -- SELECT … WHERE … ORDER BY … LIMIT …
  pub select : ℕ → (Row → Bool) → (Row → ℤ) → ℤ → List Row → Reply (List Row)
  -- INSERT, with the row as it is stored
  pub insert : ℕ → Row → List Row → Reply Row × List Row

module _ {Row : Type 0} where
  -- The effect of UPDATE: the assignments are made in the rows that the condition selects.
  unfoldable pub update_where : (Row → Bool) → (Row → Row) → List Row → List Row
  update_where p f [] = []
  update_where p f (r ∷ rows) = (if p r then f r else r) ∷ update_where p f rows

module _ {Row : Type 0} (key : Row → ℤ) where
  -- The row under a primary key.
  abbrev pub row_at : ℤ → List Row → Option Row
  row_at k = find (λ r. key r ==ℤ k)

  -- One row at a time.
  pub row_at-update_where :
      (p : Row → Bool) (f : Row → Row)
      → ((r : Row) → key (f r) ≡ key r)
      → (k : ℤ) (rows : List Row)
      → row_at k (update_where p f rows)
        ≡ (elim (row_at k rows) [ none ↦ none | some r ↦ some (if p r then f r else r) ])
  unfolding find update_where
  row_at-update_where p f keeps k [] = refl
  row_at-update_where p f keeps k (r ∷ rows) =
      ground (arith, keeps r, row_at-update_where p f keeps k rows)

  -- What GORM and MySQL document, and the DAOs rely on. `stored k r` is what an INSERT of `r` that
  -- draws the key `k` leaves in the table.
  pub record Laws (stored : ℤ → Row → Row) (e : Engine Row) : Type 0 where
    -- An UPDATE fails and changes nothing, or updates the rows that it selects. It affects no row
    -- only if no value changes, and some row only if one, found under its key, is selected.
    pub update_law :
        (t : ℕ) (p : Row → Bool) (f : Row → Row) (rows : List Row)
        → (e.update t p f rows ≡ (failed, rows))
          ⊎ ((n : ℕ) × (e.update t p f rows ≡ (done n, update_where p f rows))
              × (n ≡ 0 → update_where p f rows ≡ rows)
              × (0 < n → (k : ℤ) × (r : Row) × (row_at k rows ≡ some r) × (p r ≡ true)))
    pub first_law :
        (t : ℕ) (p : Row → Bool) (rows : List Row)
        → (e.first t p rows ≡ failed)
          ⊎ ((r : Row) × (e.first t p rows ≡ done r) × (find p rows ≡ some r))
    -- Every row of the result is in the table and selected; the result respects a limit.
    pub select_law :
        (t : ℕ) (p : Row → Bool) (order : Row → ℤ) (limit : ℤ) (rows : List Row)
        → (e.select t p order limit rows ≡ failed)
          ⊎ ((found : List Row) × (e.select t p order limit rows ≡ done found)
              × All (λ r. (row_at (key r) rows ≡ some r) × (p r ≡ true)) found
              × (pos 0 ≤ℤ limit → pos (length found) ≤ℤ limit))
    -- An INSERT fails and changes nothing, or adds the row under a key that was free.
    pub insert_law :
        (t : ℕ) (r : Row) (rows : List Row)
        → (e.insert t r rows ≡ (failed, rows))
          ⊎ ((k : ℤ) × (e.insert t r rows ≡ (done (stored k r), rows ++ stored k r ∷ []))
              × (row_at (key (stored k r)) rows ≡ none))

  pub row_at_key :
      (k id : ℤ) (r : Row) (rows : List Row)
      → row_at k rows ≡ some r
      → key r ≡ id
      → row_at id rows ≡ some r
  row_at_key k id r rows found e =
      let under : key r ≡ k = (==ℤ_iff (key r) k).0 (find_sound _ rows r found) in
      subst (λ j. row_at j rows ≡ some r) (sym under ∙ e) found

  -- An update that changes every row that it selects, and leaves the table as it is, selects none.
  pub unselected :
      (p : Row → Bool) (f : Row → Row)
      → ((r : Row) → key (f r) ≡ key r)
      → ((r : Row) → f r ≢ r)
      → (id : ℤ) (rows : List Row) → update_where p f rows ≡ rows
      → (old : Row) → row_at id rows ≡ some old
      → p old ≡ false
  unselected p f keeps changes id rows same old found = elim (Bool-cases (p old)) [
    | inl hit ↦
        absurd
          (changes old (ground (arith, ap (row_at id) same, row_at-update_where p f keeps id rows)))
    | inr miss ↦ miss
  ]

  -- The three ways in which an UPDATE of the row under `id` can end.
  module _ (stored : ℤ → Row → Row) (e : Engine Row) (laws : Laws stored e) where
    pub update_cases :
        (t : ℕ) (p : Row → Bool) (f : Row → Row) (id : ℤ) (rows : List Row)
        → ((r : Row) → p r ≡ true → key r ≡ id)
        → (e.update t p f rows ≡ (failed, rows))
          ⊎ ((n : ℕ) × (e.update t p f rows ≡ (done n, update_where p f rows))
              × ((n == 0) ≡ true)
              × (update_where p f rows ≡ rows))
          ⊎ ((n : ℕ) × (old : Row) × (e.update t p f rows ≡ (done n, update_where p f rows))
              × ((n == 0) ≡ false)
              × (row_at id rows ≡ some old)
              × (p old ≡ true))
    update_cases t p f id rows selects = elim (laws.update_law t p f rows) [
      | inl e ↦ inl e
      | inr (n, e, none_changed, some_selected) ↦ elim (Bool-cases (n == 0)) [
        | inl z ↦ inr (inl (n, e, z, none_changed (ground arith)))
        | inr nz ↦
            let (k, old, found, hit) = some_selected (ground arith) in
            inr (inr (n, old, e, nz, row_at_key k id old rows found (selects old hit), hit))
      ]
    ]

    -- An UPDATE of the row under `id` leaves every other row alone.
    pub update_elsewhere :
        (t : ℕ) (p : Row → Bool) (f : Row → Row) (id j : ℤ) (rows : List Row)
        → ((r : Row) → p r ≡ true → key r ≡ id)
        → ((r : Row) → key (f r) ≡ key r)
        → j ≢ id
        → row_at j (e.update t p f rows).1 ≡ row_at j rows
    update_elsewhere t p f id j rows selects keeps other = elim (laws.update_law t p f rows) [
      | inl down ↦ rw down
      | inr (n, updated, _, _) ↦
          rw updated (row_at-update_where p f keeps j rows ∙ unselected_row (row_at j rows) refl)
    ]
      where
        unselected_row :
            (o : Option Row)
            → row_at j rows ≡ o
            → (elim o [ none ↦ none | some r ↦ some (if p r then f r else r) ]) ≡ o
        unselected_row none found = refl
        unselected_row (some r) found = elim (Bool-cases (p r)) [
          | inl hit ↦
              absurd
                (other (sym ((==ℤ_iff (key r) j).0 (find_sound _ rows r found)) ∙ selects r hit))
          | inr miss ↦ rw miss
        ]
