-- ===== src/Clients/Sharing.antt =====
-- All callers share the client that was stored first.
use ework_runner.Prelude.{
  String, ◌==ˢ◌, ◌≡◌, refl, ap, ◌∙◌, some, List, [], ◌∷◌, arith, eq_iff, Option-cases, inl, inr,
}
use ework_runner.Prelude.Table.{get-put}
use ework_runner.Clients.{
  load, load_or_store, Access, loads, stores, answer, access, access_all, service_of,
}

module _ {T : Type 0} where
  answer-load :
      (a : Access T) (m : List (String × T)) (c : T)
      → answer a m ≡ some c
      → load (service_of a) (access a m) ≡ some c
  unfolding answer access load_or_store
  answer-load (loads s) m c h = h
  answer-load (stores s d) m c h = elim (Option-cases (load s m)) [
    | inl absent ↦ ground (arith, absent, h, get-put ◌==ˢ◌ eq_iff s s d m, eq_iff s s)
    | inr (x, there) ↦ ground (arith, there, h)
  ]

  access-load :
      (a : Access T) (m : List (String × T)) (s : String) (c : T)
      → load s m ≡ some c
      → load s (access a m) ≡ some c
  unfolding access load_or_store
  access-load (loads s') m s c h = h
  access-load (stores s' d) m s c h = elim (Option-cases (load s' m)) [
    | inl absent ↦ ground (arith, absent, h, get-put ◌==ˢ◌ eq_iff s' s d m, eq_iff s' s)
    | inr (x, there) ↦ ground (arith, there, h)
  ]

  access_all-load :
      (as_ : List (Access T)) (m : List (String × T)) (s : String) (c : T)
      → load s m ≡ some c
      → load s (access_all as_ m) ≡ some c
  unfolding access_all
  access_all-load [] m s c h = h
  access_all-load (a ∷ as_) m s c h = access_all-load as_ (access a m) s c (access-load a m s c h)

  load-answer :
      (a : Access T) (m : List (String × T)) (c : T)
      → load (service_of a) m ≡ some c
      → answer a m ≡ some c
  unfolding answer load_or_store
  load-answer (loads s) m c h = h
  load-answer (stores s d) m c h = rw h refl

  -- Once a call of Get has returned a client for a service, every call for that service returns
  -- the same one, whatever calls for any services came in between, and also if it had found none
  -- before and has made a client of its own.
  pub answer_same :
      (a b : Access T) (between : List (Access T)) (m : List (String × T)) (c : T)
      → service_of b ≡ service_of a
      → answer a m ≡ some c
      → answer b (access_all between (access a m)) ≡ some c
  answer_same a b between m c same h =
      let later = access_all between (access a m) in
      load-answer b later c (
        ap (λ s. load s later) same
        ∙ access_all-load between (access a m) (service_of a) c (answer-load a m c h))
