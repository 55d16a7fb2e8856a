-- ===== src/World.antt =====
-- What the handlers of the catalog service act on: the database, the messages sent so far and the
-- cache of reward rules, with the ways in which the code strings its calls together.
use meal_delivery.Prelude.{
  ℕ, ◌≡◌, refl, ◌⊎◌, inl, inr, Bool, Option, none, some, List, ◌∷◌, [], ◌++◌, Text, text_eq, ◌==◌,
  if◌then◌else◌,
}
use meal_delivery.Entities.{
  Order, ScheduledJob, OrderItem, OrderEvent, OrderPickup, RewardPointsBalance, RewardPointsLedger,
  RewardRule, RuleType, PromoCode, Restaurant, MenuItem, Message,
}

-- A table with a unique column is the map from that column to the row. Tables that are only
-- inserted into are the lists of their rows, newest first.
pub record Db : Type 0 where
  pub orders : ℕ → Option Order
  pub jobs : ℕ → Option ScheduledJob
  pub pickups : ℕ → Option OrderPickup
  pub promos : Text → Option PromoCode
  pub balances : ℕ → Option RewardPointsBalance
  pub ledger : List RewardPointsLedger
  pub rules : List RewardRule
  pub items : List OrderItem
  pub events : List OrderEvent
  pub restaurants : ℕ → Option Restaurant
  pub menu_items : ℕ → Option MenuItem

pub record World : Type 0 where
  pub db : Db
  pub sent : List Message
  pub cached_rules : RuleType → Option RewardRule

-- The clock, and whether the message broker takes a message.
pub record Env : Type 0 where
  pub now : ℕ
  pub accepts : Message → Bool

pub data Error : Type 0 where
  order_not_found restaurant_not_found menu_item_not_found promo_not_found job_not_found : Error
  rule_not_found pickup_not_found : Error
  not_authorized not_your_order wrong_status no_items item_not_available : Error
  too_soon too_late closed_that_day outside_hours : Error
  promo_inactive promo_expired promo_other_restaurant promo_used_up promo_scope : Error
  platform_only insufficient_points redemption_unavailable negative_balance : Error
  already_paid order_not_paid already_verified pickup_expired too_many_attempts : Error
  invalid_token token_of_other_order invalid_code code_or_token_required forbidden : Error
  name_taken broker_down unique_violation : Error

pub data Result {ℓ} (A : Type ℓ) : Type ℓ where
  ok : A → Result A
  err : Error → Result A

pub Result-cases {ℓ} :
    {A : Type ℓ} (r : Result A) → ((a : A) × (r ≡ ok a)) ⊎ ((e : Error) × (r ≡ err e))
Result-cases (ok a) = inl (a, refl)
Result-cases (err e) = inr (e, refl)

abbrev pub Exec : Type 0 → Type 0
Exec A = World → Result A × World

module _ {A : Type 0} where
  abbrev pub pure : A → Exec A
  pure a w = (ok a, w)

  abbrev pub throw : Error → Exec A
  throw e w = (err e, w)

  abbrev pub or_throw : Option A → Error → Exec A
  or_throw none e = throw e
  or_throw (some a) e = pure a

  abbrev pub read : (Db → A) → Exec A
  read f w = (ok (f w.db), w)

  -- `dataSource.transaction(f)`: the database is rolled back if `f` throws. Messages stay sent.
  abbrev pub roll_back : World → Result A × World → Result A × World
  roll_back w (ok a, w') = (ok a, w')
  roll_back w (err e, w') = (err e, record w' { db = w.db })

  abbrev pub transaction : Exec A → Exec A
  transaction m w = roll_back w (m w)

  -- `try { await m } catch { log }`
  abbrev pub attempt : Exec A → Exec (Unit {0})
  attempt m w = (ok tt, (m w).1)

infixl 5 ◌>>=◌ ◌>>◌
abbrev pub ◌>>=◌ : {A B : Type 0} → Exec A → (A → Exec B) → Exec B
◌>>=◌ m f w = let (r, w') = m w in elim r [ ok a ↦ f a w' | err e ↦ (err e, w') ]

abbrev pub ◌>>◌ : {A B : Type 0} → Exec A → Exec B → Exec B
m >> k = m >>= λ _. k

-- `if (!b) throw e`
abbrev pub require : Bool → Error → Exec (Unit {0})
require b e w = (if b then ok tt else err e, w)

abbrev pub write : (Db → Db) → Exec (Unit {0})
write f w = (ok tt, record w { db = f w.db })

-- `gateway.emit…`, which catches its own errors.
abbrev pub notify : Message → Exec (Unit {0})
notify m w = (ok tt, record w { sent = w.sent ++ m ∷ [] })

-- `kafka.emit`, which throws if the broker is away.
abbrev pub emit : Env → Message → Exec (Unit {0})
emit env m w =
    if env.accepts m
    then (ok tt, record w { sent = w.sent ++ m ∷ [] })
    else (err Error.broker_down, w)

abbrev pub update {ℓ} : {A : Type ℓ} → (ℕ → Option A) → ℕ → Option A → ℕ → Option A
update f k v j = if k == j then v else f j

abbrev pub save_order : Order → Exec (Unit {0})
save_order o = write λ db. record db { orders = update db.orders o.id (some o) }

abbrev pub save_job : ScheduledJob → Exec (Unit {0})
save_job j = write λ db. record db { jobs = update db.jobs j.order_id (some j) }

abbrev pub delete_job : ℕ → Exec (Unit {0})
delete_job order_id = write λ db. record db { jobs = update db.jobs order_id none }

abbrev pub save_event : OrderEvent → Exec (Unit {0})
save_event e = write λ db. record db { events = e ∷ db.events }

abbrev pub save_item : OrderItem → Exec (Unit {0})
save_item i = write λ db. record db { items = i ∷ db.items }

abbrev pub save_pickup : OrderPickup → Exec (Unit {0})
save_pickup p = write λ db. record db { pickups = update db.pickups p.order_id (some p) }

abbrev pub save_balance : RewardPointsBalance → Exec (Unit {0})
save_balance b = write λ db. record db { balances = update db.balances b.customer_id (some b) }

abbrev pub save_ledger : RewardPointsLedger → Exec (Unit {0})
save_ledger l = write λ db. record db { ledger = l ∷ db.ledger }

abbrev pub save_promo : PromoCode → Exec (Unit {0})
save_promo p =
    write λ db. record db { promos = λ c. if text_eq p.code c then some p else db.promos c }

abbrev pub save_menu_item : MenuItem → Exec (Unit {0})
save_menu_item m = write λ db. record db { menu_items = update db.menu_items m.id (some m) }
