-- ===== src/Onboarding/Catalog.antt =====
-- catalog-service/src/modules/restaurants/restaurants.consumer.ts: the copy of a restaurant that the
-- catalog service keeps, from the events of restaurants.service.ts. No code listens to
-- restaurant.rejected. Columns that the consumer does not set are left out.
use meal_delivery.Prelude.{
  ℕ, ◌≡◌, refl, inl, inr, Bool, true, false, Option, none, some, List, [], ◌∷◌, ◌==◌, Text,
  find_row, found_passes, saved_is_found, update_where, any, Bool-cases, if◌then◌else◌, arith,
  get_or,
}
use meal_delivery.Onboarding.{
  Restaurant, Address, Times, Store, Event, Published, has_id, published, RestaurantStatus,
}
use meal_delivery.Onboarding.Hours.{after_event}
use meal_delivery.Onboarding.Accepted.{accepted_settles}
use meal_delivery.Onboarding.Review.{
  AdminUpdateStatus, update_status, decided, same_status, with_role,
}

-- The row of the catalog.
pub record Copy : Type 0 where
  pub id : ℕ
  pub name : Text
  pub owner_id : ℕ
  pub is_active : Bool
  pub description : Text
  pub address : Option Address
  pub hours : ℕ → Option Times

abbrev pub copy_of : Published → Copy
copy_of p = record {
  id = p.id;
  name = p.name;
  owner_id = p.owner_id;
  is_active = p.is_active;
  description = p.description;
  address = p.address;
  hours = p.hours;
}

abbrev pub is_copy : ℕ → Copy → Bool
is_copy k c = c.id == k

-- `save` inserts the row or updates it.
unfoldable pub handle_restaurant_update : Published → List Copy → List Copy
handle_restaurant_update p cs =
    if any (is_copy p.id) cs
    then update_where (is_copy p.id) (λ c. copy_of p) cs
    else copy_of p ∷ cs

abbrev pub apply : Event → List Copy → List Copy
apply (Event.profile_updated p) cs = handle_restaurant_update p cs
apply (Event.restaurant_approved p) cs = handle_restaurant_update p cs
apply (Event.restaurant_rejected k reason) cs = cs

-- Two patterns stand above the one handler; which of them the framework listens to is an argument.
abbrev pub consume : (Event → Bool) → Event → List Copy → List Copy
consume heard e cs = if heard e then apply e cs else cs

-- What the catalog has after the messages, the last of which stands first.
unfoldable pub catalog_of : (Event → Bool) → List Event → List Copy
catalog_of heard [] = []
catalog_of heard (e ∷ es) = let rest = catalog_of heard es in consume heard e rest

replaced :
    (k : ℕ) (c : Copy) (cs : List Copy)
    → c.id ≡ k
    → any (is_copy k) cs ≡ true
    → find_row (is_copy k) (update_where (is_copy k) (λ x. c) cs) ≡ some c
unfolding any find_row update_where
replaced k c [] named h = ground (arith, h)
replaced k c (x ∷ xs) named h = elim (Bool-cases (x.id == k)) [
  | inl e ↦ rw e (ground (arith, named))
  | inr e ↦ rw (e, e) (replaced k c xs named (ground (arith, h, e)))
]

saved_copy :
    (p : Published) (cs : List Copy)
    → find_row (is_copy p.id) (handle_restaurant_update p cs) ≡ some (copy_of p)
unfolding handle_restaurant_update find_row
saved_copy p cs = elim (Bool-cases (any (is_copy p.id) cs)) [
  | inl e ↦ rw e (replaced p.id (copy_of p) cs refl e)
  | inr e ↦ rw e (ground arith)
]

-- Messages that do not get through change nothing.
lost :
    (heard : Event → Bool) (e : Event) (s : Store)
    → s.broker e ≡ false
    → catalog_of heard (after_event e s) ≡ catalog_of heard s.outbox
lost heard e s away = rw away refl

-- Nor do those that the handler passes over.
unchanged :
    (heard : Event → Bool) (e : Event) (s : Store)
    → ((cs : List Copy) → apply e cs ≡ cs)
    → catalog_of heard (after_event e s) ≡ catalog_of heard s.outbox
unfolding catalog_of
unchanged heard e s same = elim (Bool-cases (s.broker e)) [
  | inr b ↦ rw b refl
  | inl b ↦ elim (Bool-cases (heard e)) [
    | inr c ↦ rw (b, catalog_of, c) refl
    | inl c ↦ rw (b, catalog_of, c) (same (catalog_of heard s.outbox))
  ]
]

listed :
    (heard : Event → Bool) (p : Published) (s : Store)
    → s.broker (Event.restaurant_approved p) ≡ true
    → heard (Event.restaurant_approved p) ≡ true
    → find_row (is_copy p.id) (catalog_of heard (after_event (Event.restaurant_approved p) s))
      ≡ some (copy_of p)
unfolding catalog_of
listed heard p s through hears =
    rw (through, catalog_of, hears) (saved_copy p (catalog_of heard s.outbox))

-- An approval that is accepted and changes the status sends a message of the restaurant, which is live
-- and has its owner. If the broker takes the message and the catalog listens to it, the catalog then has
-- the restaurant so; if the broker does not take it, the approval is accepted all the same and the
-- catalog is as it was.
pub approved_is_listed :
    (heard : Event → Bool) (id : ℕ) (reason : Option Text) (s : Store) (r : Restaurant)
    → find_row (has_id id) s.restaurants ≡ some r
    → same_status r.status RestaurantStatus.approved ≡ false
    → (update_status id AdminUpdateStatus.approved reason s).0 ≡ none
    → let after = (update_status id AdminUpdateStatus.approved reason s).1 in
      (p : Published) × (p.id ≡ r.id)
      × (p.is_active ≡ true)
      × (p.owner_id ≡ r.owner_id)
      × (after.outbox ≡ after_event (Event.restaurant_approved p) s)
      × (s.broker (Event.restaurant_approved p) ≡ true
          → heard (Event.restaurant_approved p) ≡ true
          → find_row (is_copy r.id) (catalog_of heard after.outbox) ≡ some (copy_of p))
      × (s.broker (Event.restaurant_approved p) ≡ false
          → catalog_of heard after.outbox ≡ catalog_of heard s.outbox)
approved_is_listed heard id reason s r found changes ok =
    let (role, u, named, known, e) =
      accepted_settles id AdminUpdateStatus.approved reason s r found changes ok in
    let s1 : Store = record s {
      accounts = with_role AdminUpdateStatus.approved r.status r.owner_id role.role_id s.accounts;
    } in
    let p : Published = published (decided AdminUpdateStatus.approved reason r) s1 in
    (
      p,
      refl,
      refl,
      refl,
      rw e refl,
      λ through hears. rw e (listed heard p s through hears),
      λ away. rw e (lost heard (Event.restaurant_approved p) s away),
    )

-- Once a rejection is accepted that changes the status, the restaurant is not live any more, but the
-- catalog is as it was, whichever messages get through and are listened to: a restaurant that it shows
-- as live stays so.
pub rejected_stays_listed :
    (heard : Event → Bool) (id : ℕ) (reason : Option Text) (s : Store) (r : Restaurant)
    → find_row (has_id id) s.restaurants ≡ some r
    → same_status r.status RestaurantStatus.rejected ≡ false
    → (update_status id AdminUpdateStatus.rejected reason s).0 ≡ none
    → (catalog_of heard (update_status id AdminUpdateStatus.rejected reason s).1.outbox
        ≡ catalog_of heard s.outbox)
      × ((r' : Restaurant) × (find_row
              (has_id id)
              (update_status id AdminUpdateStatus.rejected reason s).1.restaurants
            ≡ some r')
          × (r'.is_active ≡ false))
unfolding catalog_of
rejected_stays_listed heard id reason s r found changes ok =
    let (role, u, named, known, e) =
      accepted_settles id AdminUpdateStatus.rejected reason s r found changes ok in
    let r' : Restaurant = decided AdminUpdateStatus.rejected reason r in
    (
      rw e (unchanged heard (Event.restaurant_rejected r.id (get_or reason [])) s (λ cs. refl)),
      (
        r',
        rw e (
            saved_is_found (λ x. x.id) (has_id id) r r' s.restaurants found refl
              (found_passes (has_id id) r s.restaurants found)),
        refl,
      ),
    )
