-- ===== src/Reviews/Calls.antt =====
-- reviews.service.ts: create, update, delete and canReview. `accepts` is what the broker takes.
use meal_delivery.Prelude.{
  ℕ, ◌+◌, Bool, true, false, not, ◌&&◌, Option, none, some, List, [], ◌∷◌, ◌==◌, Text, update_where,
  find_row, any, if◌then◌else◌, ◌⊎◌, inl, inr, get_or, is_some,
}
use meal_delivery.Entities.{Order, OrderItem, OrderStatus}
use meal_delivery.Reviews.{Review, Store, Error, is_dish, update_ratings}

abbrev pub is_valid_order_status : OrderStatus → Bool
is_valid_order_status OrderStatus.awaiting_payment = true
is_valid_order_status OrderStatus.paid = true
is_valid_order_status OrderStatus.preparing = true
is_valid_order_status OrderStatus.ready = true
is_valid_order_status OrderStatus.customer_coming = true
is_valid_order_status OrderStatus.out_for_delivery = true
is_valid_order_status OrderStatus.delivered = true
is_valid_order_status OrderStatus.completed = true
is_valid_order_status _ = false

abbrev pub contains : ℕ → List OrderItem → Order → Bool
contains k items o = any (λ i. (i.order_id == o.id) && (i.menu_item_id == k)) items

abbrev pub is_valid_order : ℕ → ℕ → Store → Order → Bool
is_valid_order customer k s o =
    (o.customer_id == customer) && contains k s.items o && is_valid_order_status o.status

abbrev pub find_valid_order : ℕ → ℕ → Store → Option Order
find_valid_order customer k s = find_row (is_valid_order customer k s) s.orders

abbrev pub written_by : ℕ → ℕ → Review → Bool
written_by customer k r = (r.customer_id == customer) && (r.menu_item_id == k) && not r.deleted

pub record CreateReviewDto : Type 0 where
  pub menu_item_id : ℕ
  pub rating : ℕ
  pub comment : Option Text
  pub order_id : Option ℕ

unfoldable pub check_order : ℕ → ℕ → Store → Order → Error ⊎ ℕ
check_order customer k s o =
    if not (o.customer_id == customer)
    then inl Error.not_your_order
    else if not (contains k s.items o)
    then inl Error.not_in_order
    else if is_valid_order_status o.status
    then inr o.id
    else inl Error.bad_status

unfoldable pub order_to_use : ℕ → CreateReviewDto → Order → Store → Error ⊎ ℕ
order_to_use customer d valid s = elim d.order_id [
  | none ↦ inr valid.id
  | some k ↦ elim (find_row (λ o. o.id == k) s.orders) [
    | none ↦ inl Error.order_not_found
    | some o ↦ check_order customer d.menu_item_id s o
  ]
]

-- `createDto.comment || null`
abbrev pub or_null : Option Text → Option Text
or_null (some []) = none
or_null o = o

abbrev pub new_review : ℕ → Text → CreateReviewDto → ℕ → ℕ → Review
new_review customer name d order id = record {
  id = id;
  menu_item_id = d.menu_item_id;
  customer_id = customer;
  order_id = order;
  rating = d.rating;
  comment = or_null d.comment;
  customer_name = name;
  is_verified_purchase = true;
  deleted = false;
}

abbrev pub add_review : Review → Store → Store
add_review r s = record s { reviews = r ∷ s.reviews; next = s.next + 1 }

-- The message is sent last, and nothing catches its failure.
pub data Message : Type 0 where
  review_created review_updated : Review → Message
  review_deleted : ℕ → Message

abbrev pub sent : (Message → Bool) → Message → Review → Error ⊎ Review
sent accepts m r = if accepts m then inr r else inl Error.broker_failed

abbrev pub unsent : (Message → Bool) → Message → Option Error
unsent accepts m = if accepts m then none else some Error.broker_failed

unfoldable pub save_review :
    (Message → Bool) → ℕ → Text → CreateReviewDto → Error ⊎ ℕ → Store → (Error ⊎ Review) × Store
save_review accepts customer name d (inl e) s = (inl e, s)
save_review accepts customer name d (inr order) s =
    let r = new_review customer name d order s.next in
    (sent accepts (Message.review_created r) r, update_ratings d.menu_item_id (add_review r s))

-- The order that the review is linked to, or why there can be none.
unfoldable pub review_order : ℕ → CreateReviewDto → Store → Error ⊎ ℕ
review_order customer d s = elim (find_row (is_dish d.menu_item_id) s.dishes) [
  | none ↦ inl Error.item_not_found
  | some m ↦ elim (find_row (written_by customer d.menu_item_id) s.reviews) [
    | some r ↦ inl Error.already_reviewed
    | none ↦ elim (find_valid_order customer d.menu_item_id s) [
      | none ↦ inl Error.not_ordered
      | some o ↦ order_to_use customer d o s
    ]
  ]
]

unfoldable pub create :
    (Message → Bool) → ℕ → Text → CreateReviewDto → Store → (Error ⊎ Review) × Store
create accepts customer name d s = save_review accepts customer name d (review_order customer d s) s

pub record UpdateReviewDto : Type 0 where
  pub rating : Option ℕ
  pub comment : Option Text

abbrev pub by_id : ℕ → Review → Bool
by_id k r = (r.id == k) && not r.deleted

abbrev pub keep_text : Option Text → Option Text → Option Text
keep_text none old = old
keep_text (some t) old = some t

abbrev pub edit : UpdateReviewDto → Review → Review
edit d r = record r { rating = get_or d.rating r.rating; comment = keep_text d.comment r.comment }

abbrev pub rewrite : (Review → Review) → Review → Store → Store
rewrite f r s = record s { reviews = update_where (λ x. x.id == r.id) f s.reviews }

unfoldable pub update : (Message → Bool) → ℕ → ℕ → UpdateReviewDto → Store → Option Error × Store
update accepts customer k d s = elim (find_row (by_id k) s.reviews) [
  | none ↦ (some Error.review_not_found, s)
  | some r ↦
      if not (r.customer_id == customer)
      then (some Error.not_your_review, s)
      else if r.deleted
      then (some Error.deleted_review, s)
      else (
        unsent accepts (Message.review_updated (edit d r)),
        update_ratings r.menu_item_id (rewrite (edit d) r s),
      )
]

abbrev pub soft_remove : Review → Review
soft_remove r = record r { deleted = true }

unfoldable pub delete : (Message → Bool) → ℕ → ℕ → Store → Option Error × Store
delete accepts customer k s = elim (find_row (by_id k) s.reviews) [
  | none ↦ (some Error.review_not_found, s)
  | some r ↦ if not (r.customer_id == customer) then (some Error.not_your_review, s) else (
    unsent accepts (Message.review_deleted k),
    update_ratings r.menu_item_id (rewrite soft_remove r s),
  )
]

pub record CanReview : Type 0 where
  pub can_review : Bool
  pub has_reviewed : Bool
  pub has_ordered : Bool

unfoldable pub can_review : ℕ → ℕ → Store → Error ⊎ CanReview
can_review customer k s = elim (find_row (is_dish k) s.dishes) [
  | none ↦ inl Error.item_not_found
  | some m ↦
      let reviewed = is_some (find_row (written_by customer k) s.reviews) in
      let ordered = is_some (find_valid_order customer k s) in
      inr (record {
        can_review = ordered && not reviewed;
        has_reviewed = reviewed;
        has_ordered = ordered;
      })
]
