-- ===== src/Payouts/Totals.antt =====
-- payment.service.ts: the total of a batch, told from the children alone.
use meal_delivery.Prelude.{
  ℕ, ◌+◌, ◌≡◌, refl, ◌∙◌, sym, inl, inr, Bool, true, false, not, ◌&&◌, none, some, List, [], ◌∷◌,
  map, All, All-map, arith, ◌==◌, ==_iff, is_some, if◌then◌else◌, member, select, sum_of, Distinct,
  Option-cases, Bool-cases,
}
use meal_delivery.Payouts.{PayoutChild, Store, Context}
use meal_delivery.Payouts.Create.{
  Opts, Row, is_candidate, owed_to, row_of, restaurants_of, payable, add_aggregate, add_rows,
  with_batch, create_aggregated_batch,
}
use meal_delivery.Payouts.Money.{restaurants_of-Distinct}

-- Whether this restaurant's row is paid out.
abbrev pub is_payable : Opts → Store → ℕ → Bool
is_payable opts s r = is_some (payable opts s (row_of opts s.children r))

-- The children that a batch takes in.
abbrev pub is_covered : Opts → Store → PayoutChild → Bool
is_covered opts s c = is_candidate opts c && is_payable opts s c.restaurant_id

module _ (opts : Opts) (s0 : Store) where
  abbrev row_total : ℕ → ℕ
  row_total r = if is_payable opts s0 r then (row_of opts s0.children r).total_amount else 0

  same_payable :
      (s : Store) (r : Row) → s.subaccounts ≡ s0.subaccounts → payable opts s r ≡ payable opts s0 r
  unfolding payable
  same_payable s r same = rw same refl

  -- The loop adds up the rows that are payable at its start.
  loop_total :
      (b : ℕ) (rs : List ℕ) (total : ℕ) (s : Store)
      → s.subaccounts ≡ s0.subaccounts
      → (add_rows opts b (map (row_of opts s0.children) rs) total s).0 ≡ total + sum_of row_total rs
  unfolding add_rows sum_of
  loop_total b [] total s same = omega arith
  loop_total b (r ∷ rs) total s same =
      let row : Row = row_of opts s0.children r in
      elim (Option-cases (payable opts s row)) [
        | inl e ↦
            let e0 : payable opts s0 row ≡ none = sym (same_payable s row same) ∙ e in
            rw (e, add_rows, e0) (omega (arith, loop_total b rs total s same))
        | inr (sub, e) ↦
            let e0 : payable opts s0 row ≡ some sub = sym (same_payable s row same) ∙ e in
            rw (e, add_rows, e0)
              (omega (
                arith,
                loop_total b rs (total + row.total_amount) (add_aggregate b row sub s) same,
              ))
      ]

module _ (opts : Opts) (p : ℕ → Bool) where
  abbrev group_total : List PayoutChild → ℕ → ℕ
  group_total cs r = if p r then sum_of (λ c. c.amount) (select (owed_to opts r) cs) else 0

  abbrev counted : List ℕ → PayoutChild → Bool
  counted rs c = is_candidate opts c && (p c.restaurant_id && member c.restaurant_id rs)

  -- One more child adds its amount to at most one group.
  one_more :
      (c : PayoutChild) (cs : List PayoutChild) (rs : List ℕ)
      → Distinct rs
      → sum_of (group_total (c ∷ cs)) rs
        ≡ (if counted rs c then c.amount else 0) + sum_of (group_total cs) rs
  unfolding sum_of select member
  one_more c cs [] apart = ground arith
  one_more c cs (r ∷ rs) apart = elim (Bool-cases (r == c.restaurant_id)) [
    | inl e ↦
        let here : r ≡ c.restaurant_id = (==_iff r c.restaurant_id).0 e in
        let once : member c.restaurant_id rs ≡ false = rw here at apart.0 in
        ground (arith, here, once, one_more c cs rs apart.1)
    | inr e ↦ ground (arith, one_more c cs rs apart.1)
  ]

  no_groups : (rs : List ℕ) → sum_of (group_total []) rs ≡ 0
  unfolding sum_of select
  no_groups [] = refl
  no_groups (r ∷ rs) = ground (arith, no_groups rs)

  by_groups :
      (rs : List ℕ) (cs : List PayoutChild)
      → Distinct rs
      → sum_of (group_total cs) rs ≡ sum_of (λ c. c.amount) (select (counted rs) cs)
  unfolding sum_of select
  by_groups rs [] apart = no_groups rs
  by_groups rs (c ∷ cs) apart = ground (arith, one_more c cs rs apart, by_groups rs cs apart)

member-removed :
    (n m : ℕ) (ns : List ℕ)
    → (m == n) ≡ false
    → member n (select (λ r. not (r == m)) ns) ≡ member n ns
unfolding member select
member-removed n m [] differ = refl
member-removed n m (k ∷ ks) differ = ground (arith, member-removed n m ks differ)

abbrev Listed : Opts → List ℕ → PayoutChild → Type 0
Listed opts rs c = is_candidate opts c ≡ true → member c.restaurant_id rs ≡ true

still_listed :
    (m : ℕ) (opts : Opts) (ms rs : List ℕ) (c : PayoutChild)
    → ms ≡ m ∷ select (λ r. not (r == m)) rs
    → Listed opts rs c
    → Listed opts ms c
unfolding member
still_listed m opts ms rs c e h cand =
    rw e (ground (arith, h cand, member-removed c.restaurant_id m rs))

restaurants_of-cons :
    (opts : Opts) (c : PayoutChild) (cs : List PayoutChild)
    → let rs = restaurants_of opts cs in
      restaurants_of opts (c ∷ cs) ≡ (
        if is_candidate opts c
        then c.restaurant_id ∷ select (λ r. not (r == c.restaurant_id)) rs
        else rs)
unfolding restaurants_of
restaurants_of-cons opts c cs = refl

-- Every candidate's restaurant has a group.
candidates_listed :
    (opts : Opts) (cs : List PayoutChild) → All (Listed opts (restaurants_of opts cs)) cs
unfolding member
candidates_listed opts [] = tt
candidates_listed opts (c ∷ cs) =
    let rs = restaurants_of opts cs in
    let cons = restaurants_of-cons opts c cs in
    elim (Bool-cases (is_candidate opts c)) [
      | inl e ↦
          let same = rw e at cons in
          (
            λ cand. rw same (ground arith),
            All-map (Listed opts rs) _ cs (λ x h. still_listed c.restaurant_id opts _ rs x same h)
                (candidates_listed opts cs),
          )
      | inr e ↦
          let same = rw e at cons in
          (
            λ cand. ground (arith, e),
            All-map (Listed opts rs) _ cs (λ x h cand. rw same (h cand))
                (candidates_listed opts cs),
          )
    ]

select_cong :
    (p q : PayoutChild → Bool) (cs : List PayoutChild)
    → All (λ c. p c ≡ q c) cs
    → select p cs ≡ select q cs
unfolding select
select_cong p q [] h = refl
select_cong p q (c ∷ cs) h = ground (arith, h.0, select_cong p q cs h.1)

counted_all :
    (opts : Opts) (p : ℕ → Bool) (rs : List ℕ) (c : PayoutChild)
    → Listed opts rs c
    → counted opts p rs c ≡ (is_candidate opts c && p c.restaurant_id)
counted_all opts p rs c h = elim (Bool-cases (is_candidate opts c)) [
  | inl e ↦ ground (arith, h e)
  | inr e ↦ ground arith
]

-- The total of a new batch is the sum of the amounts of the candidates whose restaurant is paid
-- out: each counts once, whichever group it is in.
pub batch_total :
    (ctx : Context) (opts : Opts) (s : Store)
    → (create_aggregated_batch ctx opts s).0.total_amount
      ≡ sum_of (λ c. c.amount) (select (is_covered opts s) s.children)
unfolding create_aggregated_batch
batch_total ctx opts s =
    let rs = restaurants_of opts s.children in
    let looped = loop_total opts s s.next_id rs 0 (with_batch ctx s) refl in
    let grouped =
      by_groups opts (is_payable opts s) rs s.children (restaurants_of-Distinct opts s.children) in
    let same = select_cong _ (is_covered opts s) s.children (
      All-map _ _ s.children (λ c h. counted_all opts (is_payable opts s) rs c h)
        (candidates_listed opts s.children)) in
    rw (sym same) (omega (arith, looped, grouped))
