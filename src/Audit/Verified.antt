-- ===== src/Audit/Verified.antt =====
-- What `verify_chain` accepts: the logs that `save` writes.
use kusanya.Base.{
  ℕ, ◌<◌, String, true, Option, none, some, List, [], ◌∷◌, ◌++◌, ◌≡◌, refl, ap, inl, inr, arith,
  Bool-cases, eq_iff,
}
use kusanya.Audit.Chain.{
  AuditLog, Digests, genesis_hash, comes_before, put_in_order, in_order, later_of, latest,
  hash_or_genesis, hash_of, payload_of, sealed, save, saved, immutable, Saved, first_broken,
  verify_chain,
}

-- The time is later than that of every one of these.
unfoldable pub IsLater : ℕ → List AuditLog → Type 0
IsLater t [] = Unit
IsLater t (x ∷ xs) = (x.created_at < t) × IsLater t xs

-- The rows, newest first, are as the clock gave them.
unfoldable pub IsOrdered : List AuditLog → Type 0
IsOrdered [] = Unit
IsOrdered (r ∷ rows) = IsLater r.created_at rows × IsOrdered rows

put_in_order-last :
    (r : AuditLog) (xs : List AuditLog)
    → IsLater r.created_at xs
    → put_in_order r xs ≡ xs ++ (r ∷ [])
unfolding put_in_order IsLater
put_in_order-last r [] h = refl
put_in_order-last r (x ∷ xs) (lt, h) = ground (arith, put_in_order-last r xs h)

put_in_order-IsLater :
    (r x : AuditLog) (xs : List AuditLog)
    → x.created_at < r.created_at
    → IsLater r.created_at xs
    → IsLater r.created_at (put_in_order x xs)
unfolding put_in_order IsLater
put_in_order-IsLater r x [] lt h = (lt, tt)
put_in_order-IsLater r x (y ∷ ys) lt (lt', h) = elim (Bool-cases (comes_before x y)) [
  | inl e ↦ rw (e) (lt, (lt', h))
  | inr e ↦ rw (e) (lt', put_in_order-IsLater r x ys lt h)
]

in_order-IsLater :
    (r : AuditLog) (xs : List AuditLog)
    → IsLater r.created_at xs
    → IsLater r.created_at (in_order xs)
unfolding in_order IsLater
in_order-IsLater r [] h = tt
in_order-IsLater r (x ∷ xs) (lt, h) =
    put_in_order-IsLater r x (in_order xs) lt (in_order-IsLater r xs h)

in_order-last :
    (r : AuditLog) (rows : List AuditLog)
    → IsLater r.created_at rows
    → in_order (r ∷ rows) ≡ in_order rows ++ (r ∷ [])
unfolding in_order
in_order-last r rows h = put_in_order-last r (in_order rows) (in_order-IsLater r rows h)

abbrev IsAfter : AuditLog → Option AuditLog → Type 0
IsAfter r none = Unit
IsAfter r (some x) = x.created_at < r.created_at

later_of-IsAfter :
    (r x : AuditLog) (o : Option AuditLog)
    → x.created_at < r.created_at
    → IsAfter r o
    → (later_of x o).created_at < r.created_at
later_of-IsAfter r x none lt h = lt
later_of-IsAfter r x (some y) lt h = ground arith

latest-IsAfter :
    (r : AuditLog) (rows : List AuditLog) → IsLater r.created_at rows → IsAfter r (latest rows)
unfolding latest IsLater
latest-IsAfter r [] h = tt
latest-IsAfter r (x ∷ xs) (lt, h) = later_of-IsAfter r x (latest xs) lt (latest-IsAfter r xs h)

later_of-after : (r : AuditLog) (o : Option AuditLog) → IsAfter r o → later_of r o ≡ r
later_of-after r none h = refl
later_of-after r (some x) h = ground arith

-- The hash that the walk along the chain ends with.
unfoldable pub end_hash : String → List AuditLog → String
end_hash h [] = h
end_hash h (x ∷ xs) = end_hash x.record_hash xs

end_hash-last :
    (h : String) (xs : List AuditLog) (r : AuditLog) → end_hash h (xs ++ (r ∷ [])) ≡ r.record_hash
unfolding end_hash
end_hash-last h [] r = refl
end_hash-last h (x ∷ xs) r = end_hash-last x.record_hash xs r

latest-hash :
    (rows : List AuditLog)
    → IsOrdered rows
    → hash_or_genesis (latest rows) ≡ end_hash genesis_hash (in_order rows)
unfolding latest in_order end_hash IsOrdered
latest-hash [] h = refl
latest-hash (r ∷ rows) (later, h) =
    rw
      (
        later_of-after r (latest rows) (latest-IsAfter r rows later),
        in_order-last r rows later,
        end_hash-last genesis_hash (in_order rows) r,
      )
      refl

module _ (digests : Digests) where
  first_broken-last :
      (h : String) (xs : List AuditLog) (r : AuditLog)
      → first_broken digests h xs ≡ none
      → r.previous_hash ≡ end_hash h xs
      → r.record_hash ≡ hash_of digests r.previous_hash r
      → first_broken digests h (xs ++ (r ∷ [])) ≡ none
  unfolding first_broken end_hash
  first_broken-last h [] r ok p e =
      ground
        (arith, eq_iff r.previous_hash h, eq_iff (hash_of digests r.previous_hash r) r.record_hash)
  first_broken-last h (x ∷ xs) r ok p e = ground (arith, first_broken-last x.record_hash xs r)

  -- What an accepted record is.
  pub first_broken-first :
      (h : String) (r : AuditLog) (rest : List AuditLog)
      → first_broken digests h (r ∷ rest) ≡ none
      → (r.previous_hash ≡ h)
        × (r.record_hash ≡ hash_of digests r.previous_hash r)
        × (first_broken digests r.record_hash rest ≡ none)
  unfolding first_broken
  first_broken-first h r rest ok =
      ground
        (arith, eq_iff r.previous_hash h, eq_iff (hash_of digests r.previous_hash r) r.record_hash)

  -- A log that the clock ordered and that the check accepts.
  abbrev pub IsIntact : List AuditLog → Type 0
  IsIntact rows = IsOrdered rows × (verify_chain digests rows ≡ (true, none))

  abbrev pub IsSavedIntact : Saved → Type 0
  IsSavedIntact (saved rows) = IsIntact rows
  IsSavedIntact immutable = ⊥

  -- A record that is saved later than all others of a log that the check accepts leaves such a log.
  pub save-IsIntact :
      (r : AuditLog) (rows : List AuditLog)
      → IsIntact rows
      → IsLater r.created_at rows
      → IsSavedIntact (save digests true r rows)
  unfolding save verify_chain sealed hash_of payload_of IsOrdered
  save-IsIntact r rows (ordered, intact) later =
      let new = sealed digests r rows in
      let accepted =
        first_broken-last genesis_hash (in_order rows) new (ap (λ p. p.1) intact)
          (latest-hash rows ordered) refl in
      ((later, ordered), rw (in_order-last new rows later, accepted) refl)
