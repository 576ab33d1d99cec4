-- ===== src/Column/RoundTrip.antt =====
-- A column comes back from the database as it was written.
use ework_runner.Prelude.{
  String, Bool, true, false, Option, none, some, ◌≡◌, refl, ◌⊎◌, inl, inr, arith, Bool-cases,
  Option-cases,
}
use ework_runner.Domain.Errors.{json_failed}
use ework_runner.Action.{ok, err}
use ework_runner.Rows.{JsonColumn}
use ework_runner.Column.{Source, nil, bytes, text, value, scan}

-- What a driver hands to Scan for a value that was stored: a text may come back as bytes.
pub data Stored : Source → Source → Type 0 where
  kept : (s : Source) → Stored s s
  as_bytes : (s : String) → Stored (text s) (bytes s)

module _ {T : Type 0} (marshal : T → Option String) (unmarshal : String → T → Bool × T)
    (zero : T) where
  -- If decoding what was encoded into a zero value gives the value back: a column is written as
  -- NULL and leaves an empty column as it is, or it cannot be encoded, or it is read into an empty
  -- column as it was, from text or bytes.
  pub scan-value :
      ((v : T) (s : String) → marshal v ≡ some s → unmarshal s zero ≡ (true, v))
      → (j : JsonColumn T) (read : Source)
      → ((written : Source) → value marshal unmarshal j ≡ ok written → Stored written read)
      → let empty : JsonColumn T = record { val = zero; valid = false } in
        ((j.valid ≡ false) × (scan marshal unmarshal read empty ≡ (ok tt, empty)))
        ⊎ ((marshal j.val ≡ none) × (value marshal unmarshal j ≡ err json_failed))
        ⊎ (scan marshal unmarshal read empty ≡ (ok tt, j))
  unfolding value scan
  scan-value decodes j read stored = elim (Bool-cases j.valid) [
    | inl valid ↦ elim (Option-cases (marshal j.val)) [
      | inl fails ↦ inr (inl (fails, rw (valid, fails) refl))
      | inr (s, encoded) ↦ inr (
          inr
            (from (text s) read s refl (stored (text s) (rw (valid, encoded) refl)) encoded valid))
    ]
    | inr null ↦ inl (null, from_null nil read refl (stored nil (rw null refl)))
  ]
    where
      from :
          (written read : Source) (s : String)
          → written ≡ text s
          → Stored written read
          → marshal j.val ≡ some s
          → j.valid ≡ true
          → scan marshal unmarshal read (record { val = zero; valid = false }) ≡ (ok tt, j)
      from w r s e (kept _) encoded valid =
          ground (arith, e, encoded, decodes j.val s encoded, valid)
      from w r s e (as_bytes _) encoded valid =
          ground (arith, e, encoded, decodes j.val s encoded, valid)

      from_null :
          (written read : Source)
          → written ≡ nil
          → Stored written read
          → scan marshal unmarshal read (record { val = zero; valid = false })
            ≡ (ok tt, record { val = zero; valid = false })
      from_null w r e (kept _) = ground (arith, e)
      from_null w r e (as_bytes _) = cc e
