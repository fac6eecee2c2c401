-- ===== src/Store/Exec.antt =====
-- A service method as a function of the world: its result or exception, and the world it leaves.
use arbibot.Base.{
  arith, inr, inl, ◌⊎◌, List, refl, ◌≡◌, ℕ, String, Bool, true, false, Option, none, some, [], ◌∷◌,
  ◌++◌, find_key, save_row,
}
use arbibot.Store.Outcome.{Error, Result, ok, err}
use arbibot.Store.Types.{World, Plan, Leg, OutboxEvent, AuditAction, plan_key, leg_key}

-- How a call ended: with a value or an exception, and the world that it left.
pub data Reply (A : Type 0) : Type 0 where
  returned : A → World → Reply A
  threw : Error → World → Reply A

abbrev pub Exec : Type 0 → Type 0
Exec A = World → Reply A

abbrev pub after : {A : Type 0} → Reply A → World
after (returned a w) = w
after (threw e w) = w

abbrev pub pure : {A : Type 0} → A → Exec A
pure a w = returned a w

abbrev pub raise : {A : Type 0} → Error → Exec A
raise e w = threw e w

abbrev bind_reply : {A B : Type 0} → Reply A → (A → Exec B) → Reply B
bind_reply (returned a w) f = f a w
bind_reply (threw e w) f = threw e w

infixl 5 ◌>>=◌ ◌>>◌
abbrev pub ◌>>=◌ : {A B : Type 0} → Exec A → (A → Exec B) → Exec B
◌>>=◌ m f w = bind_reply (m w) f

abbrev pub ◌>>◌ : {A B : Type 0} → Exec A → Exec B → Exec B
m >> k = m >>= λ _. k

abbrev pub gets : {A : Type 0} → (World → A) → Exec A
gets f w = returned (f w) w

abbrev pub modify : (World → World) → Exec (Unit {0})
modify f w = returned tt (f w)

-- `if (row === null) throw e`.
abbrev pub require : {A : Type 0} → Option A → Error → Exec A
require none e = raise e
require (some a) e = pure a

-- `if (!test) throw e`.
abbrev pub check : Bool → Error → Exec (Unit {0})
check true e = pure tt
check false e = raise e

-- A value that another component or service answered with, or its exception.
abbrev pub answer : {A : Type 0} → Result A → Exec A
answer (ok a) = pure a
answer (err e) = raise e

abbrev settle : {A : Type 0} → World → Reply A → Reply A
settle before (returned a w) = returned a w
settle before (threw e w) = threw e (record w { db = before.db })

-- `dataSource.transaction`: an exception rolls the tables back, and not the audit calls.
abbrev pub transaction : {A : Type 0} → Exec A → Exec A
transaction m w = settle w (m w)

abbrev pub find_plan : String → World → Option Plan
find_plan i w = find_key plan_key i w.plans

abbrev pub find_leg : String → World → Option Leg
find_leg i w = find_key leg_key i w.legs

abbrev pub put_plan : Plan → World → World
put_plan p w = record w { db = record w.db { plans = save_row plan_key p w.plans } }

abbrev pub put_leg : Leg → World → World
put_leg l w = record w { db = record w.db { legs = save_row leg_key l w.legs } }

-- INSERT of new rows.
abbrev pub insert_plan : Plan → World → World
insert_plan p w = record w { db = record w.db { plans = w.plans ++ p ∷ [] } }

abbrev pub insert_legs : List Leg → World → World
insert_legs ls w = record w { db = record w.db { legs = w.legs ++ ls } }

abbrev pub put_event : OutboxEvent → World → World
put_event e w = record w { db = record w.db { outbox = w.outbox ++ e ∷ [] } }

abbrev pub record_audit : AuditAction → String → Option ℕ → World → World
record_audit action resource version w = record w {
  audit = w.audit ++ record { action = action; resource_id = resource; version = version } ∷ [];
}

-- A transaction that returned a value kept what it did.
pub transaction-returned :
    {A : Type 0} (m : Exec A) (w : World) {a : A} {w' : World}
    → transaction m w ≡ returned a w'
    → m w ≡ returned a w'
transaction-returned m w e = ground arith

-- A call either returned or threw.
pub Reply-cases :
    {A : Type 0} (r : Reply A)
    → ((a : A) × (r ≡ returned a (after r))) ⊎ ((e : Error) × (r ≡ threw e (after r)))
Reply-cases (returned a w) = inl (a, refl)
Reply-cases (threw e w) = inr (e, refl)
