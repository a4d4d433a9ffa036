-- ===== src/Storage/Database/Calls.antt =====
-- What the calls that internal/storage/sqlite/ledger.go makes of the database give and leave.
use agent_action_control.Storage.Database.{next, open_call, locked_call, World}
use agent_action_control.Application.Ports.{after, on_error, Run}
use agent_action_control.Prelude.{if◌then◌else◌, Bool, ◌≡◌, ◌∷◌, true, refl, false, arith, []}
use agent_action_control.Errors.{ok, err, Result, Error, ledger_failure}
use agent_action_control.Storage.Tables.{
  insert_rest, insert_request, insert_effects, insert_decision, insert_all, Insertion, Checks,
  Tables,
}

pub after-keeps :
    {S A B : Type 0} (G : S → Type 0) (o : Result A × S) (k : A → Run S B)
    → G o.1
    → ((a : A) → o ≡ (ok a, o.1) → G (k a o.1).1)
    → G (after o k).1
after-keeps G (ok a, s) k g f = f a refl
after-keeps G (err e, s) k g f = g

pub if-keeps :
    {S A : Type 0} (G : S → Type 0) (b : Bool) (x y : A × S)
    → G x.1
    → G y.1
    → G (if b then x else y).1
if-keeps G true x y g h = g
if-keeps G false x y g h = h

pub on_error-state : {S A : Type 0} (f : Error → Error) (o : Result A × S) → (on_error f o).1 ≡ o.1
on_error-state f (ok a, s) = refl
on_error-state f (err e, s) = refl

pub on_error-value :
    {S A : Type 0} (f : Error → Error) (o : Result A × S) (a : A)
    → (on_error f o).0 ≡ ok a
    → o.0 ≡ ok a
on_error-value f (ok b, s) a h = h
on_error-value f (err e, s) a h = absurd (ground arith)

pub if_not_err :
    {A : Type 0} (b : Bool) (r : Result A) (a : A) → (if b then err [] else r) ≡ ok a → r ≡ ok a
if_not_err true r a h = absurd (ground arith)
if_not_err false r a h = h

pub on_error-ok :
    {S A : Type 0} (f : Error → Error) (o : Result A × S) (a : A) (s : S)
    → on_error f o ≡ (ok a, s)
    → o ≡ (ok a, s)
on_error-ok f (ok b, s') a s h = h
on_error-ok f (err e, s') a s h = absurd (ground arith)

module _ ⦃k : Checks⦄ where
  pub insert_all-eq :
      (i : Insertion) (t t1 t2 t3 : Tables)
      → insert_request i.request t ≡ ok (true, t1)
      → insert_decision i.decision t1 ≡ ok t2
      → insert_effects i.effects t2 ≡ ok t3
      → insert_all i t ≡ t3
  unfolding insert_all insert_rest
  insert_all-eq i t t1 t2 t3 a b c = rw (a, b, c) refl

  pub open_call-ok :
      {A : Type 0} (call : Tables → Result A) (w : World) (a : A)
      → (open_call call w).0 ≡ ok a
      → call (open_call call w).1.tables ≡ ok a
  unfolding open_call
  open_call-ok call w a h = ground arith

  pub locked_call-ok :
      {A : Type 0} (call : Result A) (w : World) (a : A)
      → (on_error (λ e. ledger_failure ∷ e) (locked_call call w)).0 ≡ ok a
      → call ≡ ok a
  unfolding locked_call
  locked_call-ok call w a h =
      if_not_err (next w.schedule).0.fails call a
        (on_error-value (λ e. ledger_failure ∷ e) (locked_call call w) a h)
