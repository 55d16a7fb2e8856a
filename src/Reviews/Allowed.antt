-- ===== src/Reviews/Allowed.antt =====
-- reviews.service.ts: canReview and create decide alike.
use meal_delivery.Prelude.{
  ℕ, ◌≡◌, refl, inl, inr, ◌⊎◌, Bool, true, false, none, Text, find_row, Option-cases, Bool-cases,
  ◌∷◌,
}
use meal_delivery.Reviews.{Review, Store, Error, is_dish}
use meal_delivery.Reviews.Calls.{
  CreateReviewDto, CanReview, Message, new_review, add_review, sent, can_review, create,
  save_review, review_order, order_to_use, written_by, find_valid_order,
}
use meal_delivery.Reviews.Edits.{reviews_kept}

abbrev pub succeeded : Error ⊎ Review → Bool
succeeded (inl e) = false
succeeded (inr r) = true

-- An unknown dish counts as no.
abbrev pub says_yes : Error ⊎ CanReview → Bool
says_yes (inl e) = false
says_yes (inr a) = a.can_review

abbrev IsFor : ℕ → CreateReviewDto → Review → Type 0
IsFor customer d r =
    (r.customer_id ≡ customer) × (r.menu_item_id ≡ d.menu_item_id) × (r.rating ≡ d.rating)

-- What `create` comes to, if `canReview` said `told`.
pub record Follows (accepts : Message → Bool) (customer : ℕ) (d : CreateReviewDto) (s : Store)
    (told : Bool) (r : Error ⊎ Review) (s' : Store) : Type 0 where
  pub refused : told ≡ false → (succeeded r ≡ false) × (s' ≡ s)
  pub written :
      told ≡ true
      → (x : Review) × (s'.reviews ≡ x ∷ s.reviews)
        × IsFor customer d x
        × (succeeded r ≡ accepts (Message.review_created x))

denied :
    {accepts : Message → Bool} {customer : ℕ} {d : CreateReviewDto} {s : Store} (e : Error)
    → Follows accepts customer d s false (inl e) s
denied e = record { refused = λ h. (refl, refl); written = λ h. cc h }

sent-succeeded :
    (accepts : Message → Bool) (m : Message) (r : Review) → succeeded (sent accepts m r) ≡ accepts m
sent-succeeded accepts m r = elim (Bool-cases (accepts m)) [ inl e ↦ rw e refl | inr e ↦ rw e refl ]

-- Without an order id, `create` does what `canReview` of the same customer and dish says. If that is no,
-- it fails and changes nothing. If it is yes, the review is stored, and `create` succeeds exactly if the
-- broker takes its message: if not, the review is there although the call has failed.
pub create_as_told :
    (accepts : Message → Bool) (customer : ℕ) (name : Text) (d : CreateReviewDto) (s : Store)
    → d.order_id ≡ none
    → let (r, s') = create accepts customer name d s in
      Follows accepts customer d s (says_yes (can_review customer d.menu_item_id s)) r s'
unfolding create save_review review_order order_to_use can_review
create_as_told accepts customer name d s plain =
    elim (Option-cases (find_row (is_dish d.menu_item_id) s.dishes)) [
      | inl m ↦ rw (m, review_order, can_review) (denied _)
      | inr (x, m) ↦ elim (Option-cases (find_row (written_by customer d.menu_item_id) s.reviews)) [
        | inr (r, e) ↦ elim (Option-cases (find_valid_order customer d.menu_item_id s)) [
          | inl v ↦ rw (m, review_order, can_review, e, v) (denied _)
          | inr (o, v) ↦ rw (m, review_order, can_review, e, v) (denied _)
        ]
        | inl e ↦ elim (Option-cases (find_valid_order customer d.menu_item_id s)) [
          | inl v ↦ rw (m, review_order, can_review, e, v) (denied _)
          | inr (o, v) ↦
              let r : Review = new_review customer name d o.id s.next in
              rw (m, review_order, can_review, e, v, order_to_use, plain)
                (record {
                  refused = λ h. cc h;
                  written = λ h. (
                    r,
                    (reviews_kept d.menu_item_id (add_review r s)).0,
                    (refl, refl, refl),
                    sent-succeeded accepts (Message.review_created r) r,
                  );
                })
        ]
      ]
    ]
