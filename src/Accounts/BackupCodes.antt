-- ===== src/Accounts/BackupCodes.antt =====
-- How backup codes are used up and replaced.
use kusanya.Base.{
  ℕ, ◌+◌, ◌<◌, ◌≤◌, Bool, true, false, not, Option, none, List, [], ◌∷◌, String, ◌==◌, ◌≡◌, ◌≢◌,
  inl, inr, refl, arith, length, if◌then◌else◌, Option-cases,
}
use kusanya.Base.Table.{Table, first, count, select, insert, put_rows, first-none, count-update_lt}
use kusanya.Accounts.Models.{BackupCode, Factors, is_codes_of}
use kusanya.Accounts.Mfa.{
  Crypto, is_match, use_found, consume_backup_code, mark_used, create_codes, generate_backup_codes,
}

module _ (crypto : Crypto) where
  -- How many unused codes of the user the text matches.
  abbrev pub matches : ℕ → String → Factors → ℕ
  matches user raw_code f = count (is_match crypto user raw_code) f.backup_codes.rows

  consume_backup_code-fewer :
      (user : ℕ) (raw_code : String) (now : ℕ) (f : Factors)
      → (consume_backup_code crypto user raw_code now f).0 ≡ true
      → matches user raw_code (consume_backup_code crypto user raw_code now f).1
        < matches user raw_code f
  unfolding consume_backup_code use_found
  consume_backup_code-fewer user raw_code now f h =
      elim (Option-cases (first (is_match crypto user raw_code) f.backup_codes.rows)) [
        | inl missing ↦ ground arith
        | inr (c, found) ↦ ground (
          arith,
          count-update_lt (is_match crypto user raw_code) (λ x. x.id == c.id) (mark_used now)
              f.backup_codes.rows c found (ground arith) (λ y. ground arith),
        )
      ]

  consume_backup_code-none :
      (user : ℕ) (raw_code : String) (now : ℕ) (f : Factors)
      → matches user raw_code f ≡ 0
      → (consume_backup_code crypto user raw_code now f).0 ≡ false
  unfolding consume_backup_code use_found
  consume_backup_code-none user raw_code now f h =
      ground (arith, first-none (is_match crypto user raw_code) f.backup_codes.rows)

  -- Where at most one unused code of the user matches a text: the text is accepted once, and at any
  -- later time refused.
  pub consume_backup_code-once :
      (user : ℕ) (raw_code : String) (now later : ℕ) (f : Factors)
      → matches user raw_code f ≤ 1
      → (consume_backup_code crypto user raw_code now f).0 ≡ true
      → (consume_backup_code crypto user raw_code later
          (consume_backup_code crypto user raw_code now f).1).0
        ≡ false
  consume_backup_code-once user raw_code now later f single h =
      consume_backup_code-none user raw_code later
        (consume_backup_code crypto user raw_code now f).1
        (omega (arith, consume_backup_code-fewer user raw_code now f h))

  create_codes-count :
      (q : ℕ → Bool) (user : ℕ) (raws : List String) (t : Table BackupCode)
      → count (λ c. q c.user) (create_codes crypto user raws t).rows
        ≡ (if q user then length raws else 0) + count (λ c. q c.user) t.rows
  unfolding create_codes count length
  create_codes-count q user [] t = ground arith
  create_codes-count q user (raw ∷ raws) t =
      let row : ℕ → BackupCode = λ id. record {
        id = id;
        user = user;
        lookup_hash = crypto.lookup_hash raw;
        used_at = none;
      } in
      ground (arith, create_codes-count q user raws (insert t row))

  select-own :
      (u : ℕ) (rows : List BackupCode)
      → count (is_codes_of u) (select (λ c. not (is_codes_of u c)) rows) ≡ 0
  unfolding count select
  select-own u [] = refl
  select-own u (c ∷ cs) = ground (arith, select-own u cs)

  select-others :
      (u v : ℕ) (rows : List BackupCode)
      → v ≢ u
      → count (is_codes_of v) (select (λ c. not (is_codes_of u c)) rows)
        ≡ count (is_codes_of v) rows
  unfolding count select
  select-others u v [] other = refl
  select-others u v (c ∷ cs) other = ground (arith, select-others u v cs other)

  -- A new set replaces all codes of the user, the used ones too, and none of another user.
  pub generate_backup_codes-replaces :
      (u v : ℕ) (raws : List String) (actor : Option ℕ) (f : Factors)
      → v ≢ u
      → (count (is_codes_of u) (generate_backup_codes crypto u raws actor f).1.backup_codes.rows
          ≡ length raws)
        × (count (is_codes_of v) (generate_backup_codes crypto u raws actor f).1.backup_codes.rows
            ≡ count (is_codes_of v) f.backup_codes.rows)
  unfolding generate_backup_codes
  generate_backup_codes-replaces u v raws actor f other =
      let kept =
        put_rows f.backup_codes (select (λ c. not (is_codes_of u c)) f.backup_codes.rows) in
      (
        ground
            (arith, create_codes-count (λ x. x == u) u raws kept, select-own u f.backup_codes.rows),
        ground (
          arith,
          create_codes-count (λ x. x == v) u raws kept,
          select-others u v f.backup_codes.rows other,
        ),
      )
