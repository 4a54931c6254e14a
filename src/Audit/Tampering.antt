-- ===== src/Audit/Tampering.antt =====
-- What two logs have in common that `verify_chain` accepts and that end with one hash.
use kusanya.Base.{String, true, none, List, [], ◌∷◌, ◌≡◌, refl, sym, ap, ◌∙◌, arith, length}
use kusanya.Base.Text.{append-parts}
use kusanya.Audit.Chain.{
  AuditLog, Digests, genesis_hash, in_order, hash_of, payload_of, first_broken, verify_chain,
}
use kusanya.Audit.Verified.{end_hash, first_broken-first}
use Prim.Native.String.{◌++◌, count}

module _ (digests : Digests) where
  -- The text that a record's hash is taken of.
  abbrev pub hashed_text : AuditLog → String
  hashed_text r = r.previous_hash ++ (":" ++ digests.dumps (payload_of r))

  -- The texts that two logs hash at one place do not collide.
  unfoldable pub IsCollisionFree : List AuditLog → List AuditLog → Type 0
  IsCollisionFree (x ∷ xs) (y ∷ ys) =
      (digests.sha256 (hashed_text x) ≡ digests.sha256 (hashed_text y)
        → hashed_text x ≡ hashed_text y)
      × IsCollisionFree xs ys
  IsCollisionFree _ _ = Unit

  -- What the hashes cover, oldest first.
  unfoldable pub covered : List AuditLog → List String
  covered [] = []
  covered (r ∷ rows) = digests.dumps (payload_of r) ∷ covered rows

  walk-same :
      (h h' : String) (xs ys : List AuditLog)
      → ((t u : String) → count (digests.sha256 t) ≡ count (digests.sha256 u))
      → count h ≡ count h'
      → length xs ≡ length ys
      → IsCollisionFree xs ys
      → first_broken digests h xs ≡ none
      → first_broken digests h' ys ≡ none
      → end_hash h xs ≡ end_hash h' ys
      → (h ≡ h') × (covered xs ≡ covered ys)
  unfolding length IsCollisionFree end_hash covered hash_of
  walk-same h h' [] [] sizes n len free ok ok' e = (e, refl)
  walk-same h h' [] (y ∷ ys) sizes n len free ok ok' e = ground arith
  walk-same h h' (x ∷ xs) [] sizes n len free ok ok' e = ground arith
  walk-same h h' (x ∷ xs) (y ∷ ys) sizes n len (free, frees) ok ok' e =
      let (p, r, rest) = first_broken-first digests h x xs ok in
      let (p', r', rest') = first_broken-first digests h' y ys ok' in
      let size =
        ap (λ t. count t) r ∙ sizes (hashed_text x) (hashed_text y) ∙ sym (ap (λ t. count t) r') in
      let (same, tails) =
        walk-same x.record_hash y.record_hash xs ys sizes size (omega arith) frees rest rest' e in
      let (before, after) =
        append-parts x.previous_hash y.previous_hash (":" ++ digests.dumps (payload_of x))
          (":" ++ digests.dumps (payload_of y))
          (ap (λ t. count t) p ∙ n ∙ sym (ap (λ t. count t) p')) (free (sym r ∙ same ∙ r')) in
      let (colon, text) =
        append-parts ":" ":" (digests.dumps (payload_of x)) (digests.dumps (payload_of y)) refl
          after in
      (sym p ∙ before ∙ p', rw (text, tails) refl)

  -- Where hashes have one length and the texts of the two logs do not collide: two logs of one
  -- length that the check accepts, and that end with one hash, agree in all that the hashes cover.
  pub verify_chain-same :
      (rows rows' : List AuditLog)
      → ((t u : String) → count (digests.sha256 t) ≡ count (digests.sha256 u))
      → length (in_order rows) ≡ length (in_order rows')
      → IsCollisionFree (in_order rows) (in_order rows')
      → verify_chain digests rows ≡ (true, none)
      → verify_chain digests rows' ≡ (true, none)
      → end_hash genesis_hash (in_order rows) ≡ end_hash genesis_hash (in_order rows')
      → covered (in_order rows) ≡ covered (in_order rows')
  unfolding verify_chain
  verify_chain-same rows rows' sizes n free ok ok' e =
      let (same, agree) =
        walk-same genesis_hash genesis_hash (in_order rows) (in_order rows') sizes refl n free
          (ap (λ p. p.1) ok) (ap (λ p. p.1) ok') e in
      agree
