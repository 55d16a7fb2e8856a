-- ===== src/Checkout/Parts.antt =====
-- order.service.ts: the stages of an order that was placed.
use meal_delivery.Prelude.{
  ℕ, ◌≡◌, Option, some, List, [], ◌∷◌, Text, arith, inl, inr, Bool-cases, ltb, ◌&&◌, is_some,
  get_or, if◌then◌else◌,
}
use meal_delivery.Entities.{Order, RewardPointsLedger, RewardType, Action}
use meal_delivery.World.{Env, World, ok, Db, update, Result-cases}
use meal_delivery.Promo.{PromoResult, apply_promo}
use meal_delivery.Checkout.{
  CreateOrder, Ids, Prepared, prepare_items, redeem, order_row, place, place_order,
  record_redemption, negated, job_row, delivery_time, create_order,
}
use meal_delivery.Checkout.Items.{prepare_items_reads, save_items_lem, item_rows}
use meal_delivery.Fulfilment.{event}
use meal_delivery.Scheduling.{Zone, validate_scheduling_time}

-- The ledger after an order that took points.
abbrev pub ledger_after : Ids → ℕ → Option ℕ → ℕ → List RewardPointsLedger → List RewardPointsLedger
ledger_after ids customer_id points discount rows =
    if ltb 0 discount && is_some points
    then record {
      customer_id = customer_id;
      order_id = some ids.order;
      points = negated (get_or points 0);
      type = RewardType.redeemed;
    }
      ∷ rows
    else rows

record_redemption_lem :
    (ids : Ids) (customer_id : ℕ) (points : Option ℕ) (discount : ℕ) (w : World)
    → record_redemption ids customer_id points discount w ≡ (
      ok tt,
      record w {
        db = record w.db { ledger = ledger_after ids customer_id points discount w.db.ledger };
      },
    )
unfolding record_redemption
record_redemption_lem ids customer_id points discount w =
    elim (Bool-cases (ltb 0 discount && is_some points)) [ inl e ↦ rw e | inr e ↦ rw e ]

-- The database after an order has been placed.
abbrev pub placed :
    Env → Ids → ℕ → CreateOrder → Option ℕ → List Prepared → ℕ → PromoResult → Db → Db
placed env ids customer_id dto delivery prepared discount promo db = record db {
  orders =
      update db.orders ids.order (some (order_row ids customer_id dto promo discount delivery));
  jobs = update db.jobs ids.order (some (job_row env ids delivery));
  ledger = ledger_after ids customer_id dto.points_to_redeem discount db.ledger;
  items = item_rows ids prepared db.items;
  events = event ids.order customer_id Action.order_created ∷ db.events;
}

-- The amounts that were found on the way, and the database at the end.
pub record Parts (env : Env) (ids : Ids) (customer_id : ℕ) (dto : CreateOrder) (delivery : Option ℕ)
    (code : Option Text) (rate : ℕ) (w : World) (o : Order) : Type 0 where
  pub gross : ℕ
  pub prepared : List Prepared
  pub discount : ℕ
  pub promo : PromoResult
  pub prepares : (prepare_items dto.items 0 [] w).0 ≡ ok (gross, prepared)
  pub redeems : (redeem env customer_id dto.points_to_redeem gross w).0 ≡ ok discount
  pub charges :
      (apply_promo env code gross dto.restaurant_id rate
        (redeem env customer_id dto.points_to_redeem gross w).1).0
      ≡ ok promo
  pub row : o ≡ order_row ids customer_id dto promo discount delivery
  pub places :
      (place_order env ids customer_id dto delivery code rate w).1.db
      ≡ placed env ids customer_id dto delivery prepared discount promo
          (apply_promo env code gross dto.restaurant_id rate
            (redeem env customer_id dto.points_to_redeem gross w).1).1.db

module _ (env : Env) (ids : Ids) (customer_id : ℕ) (dto : CreateOrder) (delivery : Option ℕ)
    (code : Option Text) (rate : ℕ) where
  pub place_lem :
      (prepared : List Prepared) (discount : ℕ) (promo : PromoResult) (w : World)
      → let (r, w') = place env ids customer_id dto delivery prepared discount promo w in
        (r ≡ ok (order_row ids customer_id dto promo discount delivery))
        × (w'.db ≡ placed env ids customer_id dto delivery prepared discount promo w.db)
  unfolding place
  place_lem prepared discount promo w =
      let w1 : World = record w {
        db = record w.db {
          orders =
              update w.db.orders ids.order
                (some (order_row ids customer_id dto promo discount delivery));
          jobs = update w.db.jobs ids.order (some (job_row env ids delivery));
        };
      } in
      let w2 : World = record w1 {
        db = record w1.db {
          ledger = ledger_after ids customer_id dto.points_to_redeem discount w1.db.ledger;
        };
      } in
      ground (
        arith,
        record_redemption_lem ids customer_id dto.points_to_redeem discount w1,
        save_items_lem ids prepared w2,
      )

  pub place_order-Parts :
      (w : World) (o : Order)
      → (place_order env ids customer_id dto delivery code rate w).0 ≡ ok o
      → Parts env ids customer_id dto delivery code rate w o
  unfolding place_order
  place_order-Parts w o h = elim (Result-cases (prepare_items dto.items 0 [] w).0) [
    | inr (e, p) ↦ ground (arith, prepare_items_reads dto.items 0 [] w)
    | inl ((gross, prepared), p) ↦
        elim (Result-cases (redeem env customer_id dto.points_to_redeem gross w).0) [
          | inr (e, q) ↦ ground (arith, prepare_items_reads dto.items 0 [] w)
          | inl (discount, q) ↦
              let w1 : World = (redeem env customer_id dto.points_to_redeem gross w).1 in
              elim (Result-cases (apply_promo env code gross dto.restaurant_id rate w1).0) [
                | inr (e, r) ↦ ground (arith, prepare_items_reads dto.items 0 [] w)
                | inl (promo, r) ↦ record {
                  gross = gross;
                  prepared = prepared;
                  discount = discount;
                  promo = promo;
                  prepares = p;
                  redeems = q;
                  charges = r;
                  row = ground (
                    arith,
                    prepare_items_reads dto.items 0 [] w,
                    place_lem prepared discount promo
                        (apply_promo env code gross dto.restaurant_id rate w1).1,
                  );
                  places = ground (
                    arith,
                    prepare_items_reads dto.items 0 [] w,
                    place_lem prepared discount promo
                        (apply_promo env code gross dto.restaurant_id rate w1).1,
                  );
                }
              ]
        ]
  ]

delivery_time_reads :
    (env : Env) (zone : Zone) (dto : CreateOrder) (w : World) → (delivery_time env zone dto w).1 ≡ w
unfolding delivery_time validate_scheduling_time
delivery_time_reads env zone dto w = ground arith

-- What an order that was created went through.
pub record Created (env : Env) (zone : Zone) (ids : Ids) (customer_id : ℕ) (dto : CreateOrder)
    (code : Option Text) (rate : ℕ) (w : World) (o : Order) : Type 0 where
  pub delivery : Option ℕ
  pub chosen : (delivery_time env zone dto w).0 ≡ ok delivery
  pub parts : Parts env ids customer_id dto delivery code rate w o
  pub commits :
      (create_order env zone ids customer_id dto code rate w).1.db
      ≡ (place_order env ids customer_id dto delivery code rate w).1.db

pub create_order-Created :
    (env : Env) (zone : Zone) (ids : Ids) (customer_id : ℕ) (dto : CreateOrder) (code : Option Text)
    (rate : ℕ) (w : World) (o : Order)
    → (create_order env zone ids customer_id dto code rate w).0 ≡ ok o
    → Created env zone ids customer_id dto code rate w o
unfolding create_order
create_order-Created env zone ids customer_id dto code rate w o h =
    elim (Result-cases (delivery_time env zone dto w).0) [
      | inr (e, p) ↦ ground (arith, delivery_time_reads env zone dto w)
      | inl (delivery, p) ↦ record {
        delivery = delivery;
        chosen = p;
        parts =
            place_order-Parts env ids customer_id dto delivery code rate w o
              (ground (arith, delivery_time_reads env zone dto w));
        commits = ground (arith, delivery_time_reads env zone dto w);
      }
    ]
