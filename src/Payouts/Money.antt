-- ===== src/Payouts/Money.antt =====
-- payment.service.ts: where the money is that is owed to restaurants.
use meal_delivery.Prelude.{
  ℕ, ◌+◌, ◌≡◌, refl, ◌∙◌, inl, inr, true, false, not, none, List, [], ◌∷◌, map, All,
  All-update_where, arith, ◌==◌, is_some, if◌then◌else◌, member, select, update_where, sum_of,
  Distinct, Distinct-select, removed, member-keys, map-update_where, update_where_cong,
  select-update_where, Option-cases, Bool-cases,
}
use meal_delivery.Payouts.{PayoutChild, RestaurantSubaccount, Store, Context, is_pending, total_of}
use meal_delivery.Payouts.Create.{
  Opts, is_candidate, owed_to, row_of, restaurants_of, payable, put_into, add_aggregate, add_rows,
  with_batch, create_aggregated_batch,
}

-- What a child still waits for.
abbrev pub waiting : PayoutChild → ℕ
waiting c = if is_some c.parent_aggregate_id then 0 else c.amount

-- The amount that no payout covers yet, and the amount of all payouts.
abbrev pub owed : Store → ℕ
owed s = sum_of waiting s.children

abbrev pub in_payouts : Store → ℕ
in_payouts s = total_of s.aggregates

abbrev pub WaitsIfPending : PayoutChild → Type 0
WaitsIfPending c = is_pending c.status ≡ true → c.parent_aggregate_id ≡ none

-- Children have distinct ids, and those that are pending are in no payout.
pub record IsSound (cs : List PayoutChild) : Type 0 where
  pub distinct : Distinct (map (λ c. c.id) cs)
  pub waits : All WaitsIfPending cs

put_into-waiting :
    (opts : Opts) (r id : ℕ) (cs : List PayoutChild)
    → All WaitsIfPending cs
    → sum_of waiting (update_where (owed_to opts r) (put_into id) cs)
        + sum_of (λ c. c.amount) (select (owed_to opts r) cs)
      ≡ sum_of waiting cs
unfolding sum_of select update_where is_candidate
put_into-waiting opts r id [] h = refl
put_into-waiting opts r id (c ∷ cs) h = ground (arith, h.0, put_into-waiting opts r id cs h.1)

put_into-waits : (c : PayoutChild) (id : ℕ) → WaitsIfPending (put_into id c)
unfolding is_pending
put_into-waits c id h = ground arith

-- A child that was put into a payout is a candidate no more.
others_stay :
    (opts : Opts) (r k id : ℕ) (cs : List PayoutChild)
    → (r == k) ≡ false
    → select (owed_to opts k) (update_where (owed_to opts r) (put_into id) cs)
      ≡ select (owed_to opts k) cs
unfolding is_candidate is_pending
others_stay opts r k id cs differ =
    select-update_where (owed_to opts r) (owed_to opts k) (put_into id) cs
      (λ c mine. (ground arith, ground arith))

-- The groups of these restaurants are as they were in `cs0`.
abbrev SameGroups : Opts → List PayoutChild → List PayoutChild → List ℕ → Type 0
SameGroups opts cs0 cs rs = All (λ r. select (owed_to opts r) cs ≡ select (owed_to opts r) cs0) rs

-- The update by ids is the update of the group.
link_by_ids :
    (opts : Opts) (r id : ℕ) (cs0 cs : List PayoutChild)
    → IsSound cs
    → select (owed_to opts r) cs ≡ select (owed_to opts r) cs0
    → update_where (λ c. member c.id (row_of opts cs0 r).child_ids) (put_into id) cs
      ≡ update_where (owed_to opts r) (put_into id) cs
link_by_ids opts r id cs0 cs sound same =
    update_where_cong _ (owed_to opts r) (put_into id) cs
      (rw same at (member-keys (λ c. c.id) (owed_to opts r) cs sound.distinct))

after_put :
    (opts : Opts) (r id : ℕ) (cs0 cs : List PayoutChild) (rs : List ℕ)
    → member r rs ≡ false
    → SameGroups opts cs0 cs rs
    → SameGroups opts cs0 (update_where (owed_to opts r) (put_into id) cs) rs
unfolding member
after_put opts r id cs0 cs [] apart same = tt
after_put opts r id cs0 cs (k ∷ ks) apart same = (
  others_stay opts r k id cs (ground arith) ∙ same.0,
  after_put opts r id cs0 cs ks (ground arith) same.1,
)

put_into-IsSound :
    (opts : Opts) (r id : ℕ) (cs : List PayoutChild)
    → IsSound cs
    → IsSound (update_where (owed_to opts r) (put_into id) cs)
put_into-IsSound opts r id cs sound = record {
  distinct =
      rw (map-update_where (λ c. c.id) (owed_to opts r) (put_into id) cs (λ c. refl))
        sound.distinct;
  waits =
      All-update_where WaitsIfPending (owed_to opts r) (put_into id) cs (λ c h. put_into-waits c id)
        sound.waits;
}

-- What the loop has done when it has added up `t`.
record Added (total t : ℕ) (s s' : Store) : Type 0 where
  sound : IsSound s'.children
  left : owed s' + t ≡ owed s + total
  right : in_payouts s' + total ≡ in_payouts s + t

Added-trans :
    {total n t : ℕ} {s s1 s2 : Store}
    → Added 0 n s s1
    → Added (total + n) t s1 s2
    → Added total t s s2
Added-trans first rest = record {
  sound = rest.sound;
  left = omega (arith, first.left, rest.left);
  right = omega (arith, first.right, rest.right);
}

module _ (opts : Opts) (b : ℕ) (cs0 : List PayoutChild) where
  add_aggregate-Added :
      (r : ℕ) (sub : RestaurantSubaccount) (s : Store)
      → IsSound s.children
      → select (owed_to opts r) s.children ≡ select (owed_to opts r) cs0
      → Added 0 (row_of opts cs0 r).total_amount s (add_aggregate b (row_of opts cs0 r) sub s)
  unfolding sum_of
  add_aggregate-Added r sub s sound same =
      let linked = link_by_ids opts r s.next_id cs0 s.children sound same in
      record {
        sound = rw linked (put_into-IsSound opts r s.next_id s.children sound);
        left =
            rw linked (
              omega (arith, rw same at (put_into-waiting opts r s.next_id s.children sound.waits)));
        right = omega arith;
      }

  add_rows-Added :
      (rs : List ℕ) (total : ℕ) (s : Store)
      → Distinct rs
      → IsSound s.children
      → SameGroups opts cs0 s.children rs
      → let (t, s') = add_rows opts b (map (row_of opts cs0) rs) total s in Added total t s s'
  unfolding add_rows
  add_rows-Added [] total s apart sound same = record { sound = sound; left = refl; right = refl }
  add_rows-Added (r ∷ rs) total s apart sound same =
      elim (Option-cases (payable opts s (row_of opts cs0 r))) [
        | inl e ↦ rw (e, add_rows) (add_rows-Added rs total s apart.1 sound same.1)
        | inr (sub, e) ↦
            let s1 : Store = add_aggregate b (row_of opts cs0 r) sub s in
            let first = add_aggregate-Added r sub s sound same.0 in
            let groups : SameGroups opts cs0 s1.children rs =
              rw (link_by_ids opts r s.next_id cs0 s.children sound same.0)
                (after_put opts r s.next_id cs0 s.children rs apart.0 same.1) in
            let rest =
              add_rows-Added rs (total + (row_of opts cs0 r).total_amount) s1 apart.1 first.sound
                groups in
            rw (e, add_rows) (Added-trans first rest)
      ]

pub restaurants_of-Distinct :
    (opts : Opts) (cs : List PayoutChild) → Distinct (restaurants_of opts cs)
unfolding restaurants_of
restaurants_of-Distinct opts [] = tt
restaurants_of-Distinct opts (c ∷ cs) = elim (Bool-cases (is_candidate opts c)) [
  | inl e ↦ rw e (
    removed c.restaurant_id (restaurants_of opts cs),
    Distinct-select (λ r. not (r == c.restaurant_id)) (restaurants_of opts cs)
        (restaurants_of-Distinct opts cs),
  )
  | inr e ↦ rw e (restaurants_of-Distinct opts cs)
]

same_at_first : (opts : Opts) (cs : List PayoutChild) (rs : List ℕ) → SameGroups opts cs cs rs
same_at_first opts cs [] = tt
same_at_first opts cs (r ∷ rs) = (refl, same_at_first opts cs rs)

-- Making a batch moves its total from what is owed into payouts, and loses and invents nothing.
pub batch_moves_money :
    (ctx : Context) (opts : Opts) (s : Store)
    → IsSound s.children
    → let (batch, s') = create_aggregated_batch ctx opts s in
      IsSound s'.children
      × (owed s' + batch.total_amount ≡ owed s)
      × (in_payouts s' ≡ in_payouts s + batch.total_amount)
unfolding create_aggregated_batch
batch_moves_money ctx opts s sound =
    let done =
      add_rows-Added opts s.next_id s.children (restaurants_of opts s.children) 0 (with_batch ctx s)
        (restaurants_of-Distinct opts s.children) sound
        (same_at_first opts s.children (restaurants_of opts s.children)) in
    (done.sound, omega (arith, done.left), omega (arith, done.right))
