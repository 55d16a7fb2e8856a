-- ===== src/Onboarding/Hours.antt =====
-- restaurants.service.ts: the opening hours that are told to the catalog service.
use meal_delivery.Prelude.{
  ℕ, ◌<◌, ◌≡◌, refl, ap, ◌∙◌, inl, inr, true, false, not, Option, none, some, List, [], ◌∷◌, ◌++◌,
  ◌==◌, ltb, arith, map, select, find_row, member, Distinct, All, Bool-cases, if◌then◌else◌,
}
use meal_delivery.Onboarding.{
  Restaurant, RestaurantHour, Times, Store, Error, Event, Published, has_id, hours_of, set_day,
  flatten_from, published, emit_restaurant_update,
}
use meal_delivery.Onboarding.Calls.{RestaurantHourDto, hour_of, put_hours, update_hours, for_owner}

-- What a row of the request means for its day.
abbrev pub meant : Option RestaurantHourDto → Option Times → Option Times
meant none otherwise = otherwise
meant (some d) otherwise = if d.is_closed then otherwise else some d.times

abbrev pub asked_for : ℕ → List RestaurantHourDto → Option RestaurantHourDto
asked_for w ds = find_row (λ d. d.weekday == w) ds

abbrev pub IsDay : RestaurantHourDto → Type 0
IsDay d = d.weekday < 7

nothing_for :
    (w : ℕ) (ds : List RestaurantHourDto)
    → member w (map (λ d. d.weekday) ds) ≡ false
    → asked_for w ds ≡ none
unfolding member find_row
nothing_for w [] h = refl
nothing_for w (d ∷ ds) h = ground (arith, nothing_for w ds, h)

flattened :
    (k w : ℕ) (ds : List RestaurantHourDto) (days : ℕ → Option Times)
    → Distinct (map (λ d. d.weekday) ds)
    → All IsDay ds
    → flatten_from (map (hour_of k) ds) days w ≡ meant (asked_for w ds) (days w)
unfolding flatten_from find_row
flattened k w [] days d h = refl
flattened k w (x ∷ xs) days d h =
    let rest = flattened k w xs (set_day (hour_of k x) days) d.1 h.1 in
    let named : ltb x.weekday 7 ≡ true = ground (arith, h.0) in
    elim (Bool-cases (x.weekday == w)) [
      | inr e ↦
          let value : set_day (hour_of k x) days w ≡ days w = ground (arith, named, e) in
          rw e (rest ∙ ap (meant (asked_for w xs)) value)
      | inl e ↦
          let key : x.weekday ≡ w = ground (arith, e) in
          let alone : asked_for w xs ≡ none = nothing_for w xs (rw key at d.0) in
          let value : set_day (hour_of k x) days w
              ≡ (if x.is_closed then days w else some x.times) =
            ground (arith, named, e) in
          let last : meant (asked_for w xs) (set_day (hour_of k x) days w)
              ≡ set_day (hour_of k x) days w =
            ap (λ o. meant o (set_day (hour_of k x) days w)) alone in
          rw e (rest ∙ last ∙ value)
    ]

none_left :
    (k : ℕ) (hs : List RestaurantHour) (ds : List RestaurantHourDto)
    → hours_of k (select (λ h. not (h.restaurant_id == k)) hs ++ map (hour_of k) ds)
      ≡ map (hour_of k) ds
unfolding select
none_left k [] [] = refl
none_left k [] (d ∷ ds) = ground (arith, none_left k [] ds)
none_left k (h ∷ hs) ds = ground (arith, none_left k hs ds)

-- The messages once this one was sent, if it gets through.
abbrev pub after_event : Event → Store → List Event
after_event e s = if s.broker e then e ∷ s.outbox else s.outbox

found_restaurant :
    (k : ℕ) (s : Store) (r : Restaurant)
    → find_row (has_id k) s.restaurants ≡ some r
    → (emit_restaurant_update k s).outbox ≡ after_event (Event.profile_updated (published r s)) s
unfolding emit_restaurant_update
found_restaurant k s r e = rw (e, emit_restaurant_update) refl

refused : (e : Error) → some e ≡ none → ⊥
refused e p = cc p

-- If the hours of a restaurant are updated with at most one row for each day of the week, the event that
-- follows, and arrives if the broker takes it, has the times of each day that was given and is not
-- closed, and none for any other day, whatever hours the restaurant had before.
pub updated_hours_are_told :
    (owner id : ℕ) (ds : List RestaurantHourDto) (s : Store) (r : Restaurant) (w : ℕ)
    → Distinct (map (λ d. d.weekday) ds)
    → All IsDay ds
    → find_row (has_id id) s.restaurants ≡ some r
    → r.id ≡ id
    → (update_hours owner id ds s).0 ≡ none
    → (p : Published) × ((update_hours owner id ds s).1.outbox
        ≡ after_event (Event.profile_updated p) s)
      × (p.hours w ≡ meant (asked_for w ds) none)
unfolding update_hours for_owner
updated_hours_are_told owner id ds s r w d h found named ok =
    elim (Bool-cases (r.owner_id == owner)) [
      | inr o ↦ elim (refused Error.not_the_owner (rw (found, for_owner, o) at ok)) [ ]
      | inl o ↦
          let s1 : Store = put_hours id ds s in
          (
            published r s1,
            rw (found, for_owner, o) (found_restaurant id s1 r found),
            rw (named, none_left id s.hours ds) (flattened id w ds (λ x. none) d h),
          )
    ]
