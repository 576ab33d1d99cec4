-- ===== src/Registry/Closing.antt =====
-- pkg/grpc/registry/etcd/registry.go and pkg/registry/etcd/registry.go: the contexts of the watches,
-- from Subscribe to Close. The two are the same here.
use ework_runner.Prelude.{
  ℕ, zero, suc, ◌<◌, ◌≡◌, refl, ◌⊎◌, inl, inr, Bool, List, [], ◌∷◌, ◌++◌, arith,
}
use mathlib.Core.List.{Memᴰ}
use mathlib.Core.List.Memᴰ.{head, tail}
use ework_runner.Domain.Errors.{etcd_failed}
use ework_runner.Action.{Result, ok, err}
use ework_runner.Prelude.{true, false}

-- The contexts are numbered as they are made; `done` has those that were canceled.
pub record Watches : Type 0 where
  pub contexts : ℕ
  pub watch_cancel : List ℕ
  pub done : List ℕ

pub data Call : Type 0 where
  subscribes : Call
  closes : Bool → Call  -- with whether the session of etcd closes

abbrev pub no_watches : Watches
no_watches = record { contexts = 0; watch_cancel = []; done = [] }

-- Subscribe, under the mutex
unfoldable pub subscribe : Watches → Watches
subscribe r = record r {
  contexts = suc r.contexts;
  watch_cancel = r.watch_cancel ++ r.contexts ∷ [];
}

unfoldable pub cancel_all : List ℕ → List ℕ → List ℕ
cancel_all [] done = done
cancel_all (n ∷ cancels) done = cancel_all cancels (n ∷ done)

abbrev pub session_result : Bool → Result (Unit {0})
session_result true = ok tt
session_result false = err etcd_failed

unfoldable pub close : Bool → Watches → Result (Unit {0}) × Watches
close session r = (session_result session, record r { done = cancel_all r.watch_cancel r.done })

abbrev pub call : Call → Watches → Watches
call subscribes r = subscribe r
call (closes session) r = (close session r).1

unfoldable pub calls : List Call → Watches → Watches
calls [] r = r
calls (c ∷ cs) r = calls cs (call c r)

-- Every context can still be canceled.
abbrev IsCovered : Watches → Type 0
IsCovered r = (n : ℕ) → n < r.contexts → Memᴰ n r.watch_cancel

last_or_less : (n m : ℕ) → n < suc m → (n < m) ⊎ (n ≡ m)
last_or_less zero zero lt = inr refl
last_or_less zero (suc m) lt = inl (omega arith)
last_or_less (suc n) zero lt = inl (omega arith)
last_or_less (suc n) (suc m) lt = elim (last_or_less n m (omega arith)) [
  | inl less ↦ inl (omega arith)
  | inr same ↦ inr (omega arith)
]

mem_left : {A : Type 0} {x : A} (xs ys : List A) → Memᴰ x xs → Memᴰ x (xs ++ ys)
mem_left [] ys m = elim m [ ]
mem_left (x ∷ xs) ys (head e) = head e
mem_left (x ∷ xs) ys (tail m) = tail (mem_left xs ys m)

mem_last : {A : Type 0} (x : A) (xs : List A) → Memᴰ x (xs ++ x ∷ [])
mem_last x [] = head refl
mem_last x (y ∷ xs) = tail (mem_last x xs)

cancel_all-kept : (n : ℕ) (cancels done : List ℕ) → Memᴰ n done → Memᴰ n (cancel_all cancels done)
unfolding cancel_all
cancel_all-kept n [] done m = m
cancel_all-kept n (c ∷ cancels) done m = cancel_all-kept n cancels (c ∷ done) (tail m)

cancel_all-Mem : (n : ℕ) (cancels done : List ℕ) → Memᴰ n cancels → Memᴰ n (cancel_all cancels done)
unfolding cancel_all
cancel_all-Mem n [] done m = elim m [ ]
cancel_all-Mem n (c ∷ cancels) done (head e) = cancel_all-kept n cancels (c ∷ done) (head e)
cancel_all-Mem n (c ∷ cancels) done (tail m) = cancel_all-Mem n cancels (c ∷ done) m

calls-IsCovered : (cs : List Call) (r : Watches) → IsCovered r → IsCovered (calls cs r)
unfolding calls subscribe close
calls-IsCovered [] r covered = covered
calls-IsCovered (subscribes ∷ cs) r covered = calls-IsCovered cs (subscribe r) (λ n lt.
    elim (last_or_less n r.contexts lt) [
      | inl less ↦ mem_left r.watch_cancel _ (covered n less)
      | inr same ↦ rw same (mem_last r.contexts r.watch_cancel)
    ])
calls-IsCovered (closes session ∷ cs) r covered = calls-IsCovered cs (close session r).1 covered

-- Whatever was called before, after Close the context of every subscription made so far is
-- canceled, also if the session of etcd does not close.
pub close-calls :
    (cs : List Call) (session : Bool) (n : ℕ)
    → let r = calls cs no_watches in n < r.contexts → Memᴰ n (close session r).1.done
unfolding close
close-calls cs session n lt =
    let r = calls cs no_watches in
    cancel_all-Mem n r.watch_cancel r.done (calls-IsCovered cs no_watches none_open n lt)
  where
    none_open : IsCovered no_watches
    none_open n below = absurd (omega arith)
