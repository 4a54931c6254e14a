-- ===== src/Webhooks/Reach.antt =====
-- Whom an event reaches.
use kusanya.Base.{
  ◌+◌, String, Bool, true, List, [], ◌∷◌, ◌≡◌, ◌⊎◌, refl, arith, ==_iff, str_eq, eq_iff, Bool-cases,
  inl, inr,
}
use kusanya.Base.Table.{Table, count, insert}
use kusanya.Core.Objects.{Value}
use kusanya.Tenants.Models.{Tenant}
use kusanya.Webhooks.Models.{WebhookEndpoint, WebhookDelivery, is_subscribed_to, text_in}
use kusanya.Webhooks.Services.{is_reached, new_delivery, dispatch_all, dispatch_event}
use kusanya.Store.{Store}

-- A list of events names an event.
abbrev pub Names : String → List String → Type 0
Names event [] = ⊥
Names event (x ∷ xs) = (event ≡ x) ⊎ Names event xs

-- Who is to hear of an event: an active endpoint of the tenant whose list of events is empty or
-- names it.
pub record IsListener (tenant : Tenant) (event : String) (e : WebhookEndpoint) : Type 0 where
  pub owner : e.tenant.id ≡ tenant.id
  pub active : e.is_active ≡ true
  pub subscribed : (e.subscribed_events ≡ []) ⊎ Names event e.subscribed_events

text_in-Names : (event : String) (xs : List String) → text_in event xs ≡ true → Names event xs
unfolding text_in
text_in-Names event [] h = absurd (ground arith)
text_in-Names event (x ∷ xs) h = elim (Bool-cases (str_eq event x)) [
  | inl e ↦ inl ((eq_iff event x).0 e)
  | inr e ↦ inr (text_in-Names event xs (ground (arith, h, e)))
]

Names-text_in : (event : String) (xs : List String) → Names event xs → text_in event xs ≡ true
unfolding text_in
Names-text_in event [] n = elim n [ ]
Names-text_in event (x ∷ xs) (inl e) = rw ((eq_iff event x).1 e) refl
Names-text_in event (x ∷ xs) (inr e) = ground (arith, Names-text_in event xs e)

subscribed-true :
    (event : String) (xs : List String)
    → (xs ≡ []) ⊎ Names event xs
    → is_subscribed_to xs event ≡ true
unfolding is_subscribed_to
subscribed-true event [] h = refl
subscribed-true event (x ∷ xs) (inl e) = absurd (ground (arith, e))
subscribed-true event (x ∷ xs) (inr e) = Names-text_in event (x ∷ xs) e

true-subscribed :
    (event : String) (xs : List String)
    → is_subscribed_to xs event ≡ true
    → (xs ≡ []) ⊎ Names event xs
unfolding is_subscribed_to
true-subscribed event [] h = inl refl
true-subscribed event (x ∷ xs) h = inr (text_in-Names event (x ∷ xs) h)

IsListener-is_reached :
    (tenant : Tenant) (event : String) (e : WebhookEndpoint)
    → IsListener tenant event e
    → is_reached tenant event e ≡ true
IsListener-is_reached tenant event e h = ground (
  arith,
  (==_iff e.tenant.id tenant.id).1 h.owner,
  h.active,
  subscribed-true event e.subscribed_events h.subscribed,
)

is_reached-IsListener :
    (tenant : Tenant) (event : String) (e : WebhookEndpoint)
    → is_reached tenant event e ≡ true
    → IsListener tenant event e
is_reached-IsListener tenant event e h = record {
  owner = ground (arith, h);
  active = ground (arith, h);
  subscribed = true-subscribed event e.subscribed_events (ground (arith, h));
}

abbrev pub goes_to : (WebhookEndpoint → Bool) → WebhookDelivery → Bool
goes_to q d = q d.endpoint

module _ (tenant : Tenant) (event : String) (payload : List (String × Value))
    (q : WebhookEndpoint → Bool) where
  dispatch_all-listeners :
      ((e : WebhookEndpoint) → q e ≡ true → IsListener tenant event e)
      → (es : List WebhookEndpoint) (t : Table WebhookDelivery)
      → count (goes_to q) (dispatch_all tenant event payload es t).rows
        ≡ count q es + count (goes_to q) t.rows
  unfolding dispatch_all count
  dispatch_all-listeners h [] t = omega arith
  dispatch_all-listeners h (e ∷ es) t = elim (Bool-cases (q e)) [
    | inl hears ↦ ground (
      arith,
      hears,
      IsListener-is_reached tenant event e (h e hears),
      dispatch_all-listeners h es (insert t (new_delivery tenant event payload e)),
    )
    | inr other ↦ ground (
      arith,
      other,
      dispatch_all-listeners h es t,
      dispatch_all-listeners h es (insert t (new_delivery tenant event payload e)),
    )
  ]

  dispatch_all-others :
      ((e : WebhookEndpoint) → q e ≡ true → ¬ IsListener tenant event e)
      → (es : List WebhookEndpoint) (t : Table WebhookDelivery)
      → count (goes_to q) (dispatch_all tenant event payload es t).rows ≡ count (goes_to q) t.rows
  unfolding dispatch_all count
  dispatch_all-others h [] t = refl
  dispatch_all-others h (e ∷ es) t = elim (Bool-cases (is_reached tenant event e)) [
    | inr other ↦ ground (arith, other, dispatch_all-others h es t)
    | inl hears ↦ elim (Bool-cases (q e)) [
      | inl hit ↦ absurd (h e hit (is_reached-IsListener tenant event e hears))
      | inr miss ↦ ground (
        arith,
        hears,
        miss,
        dispatch_all-others h es (insert t (new_delivery tenant event payload e)),
      )
    ]
  ]

-- Of any set of endpoints that are all listeners of the event, that is active, of the tenant, and
-- with a list of events that is empty or names it, each one in the table gets one new delivery; and
-- a set of endpoints none of which is a listener gets none.
pub dispatch_event-reaches :
    (tenant : Tenant) (event : String) (payload : List (String × Value)) (s : Store)
    (p q : WebhookEndpoint → Bool)
    → ((e : WebhookEndpoint) → p e ≡ true → IsListener tenant event e)
    → ((e : WebhookEndpoint) → q e ≡ true → ¬ IsListener tenant event e)
    → (count (goes_to p) (dispatch_event tenant event payload s).1.deliveries.rows
        ≡ count p s.endpoints + count (goes_to p) s.deliveries.rows)
      × (count (goes_to q) (dispatch_event tenant event payload s).1.deliveries.rows
          ≡ count (goes_to q) s.deliveries.rows)
unfolding dispatch_event
dispatch_event-reaches tenant event payload s p q listen other = (
  dispatch_all-listeners tenant event payload p listen s.endpoints s.deliveries,
  dispatch_all-others tenant event payload q other s.endpoints s.deliveries,
)
