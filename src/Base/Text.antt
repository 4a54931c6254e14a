-- ===== src/Base/Text.antt =====
-- Texts as lists of characters: the slices of Python that the source takes.
use Prim.Native.Nat.{ℕ, zero, suc}
use Prim.Native.Char.{Char}
use mathlib.Core.Bool.{Bool, true, ◌&&◌}
use kusanya.Base.Tests.{if◌then◌else◌}
use Prim.Native.String.{String, [], ◌∷◌, ◌++◌, count as count}
use Prim.Native.String.append
use Prim.Native.String.count
use mathlib.Core.Path.{◌≡◌, refl, sym, ap, ◌∙◌}

-- `text[:n]`
unfoldable pub take_chars : ℕ → String → String
take_chars zero t = []
take_chars (suc n) [] = []
take_chars (suc n) (c ∷ t) = c ∷ take_chars n t

-- `text[n:]`
unfoldable pub drop_chars : ℕ → String → String
drop_chars zero t = t
drop_chars (suc n) [] = []
drop_chars (suc n) (c ∷ t) = drop_chars n t

-- Every character of the text passes the test.
unfoldable pub every_char : (Char → Bool) → String → Bool
every_char p [] = true
every_char p (c ∷ t) = p c && every_char p t

-- `text.lstrip()`
unfoldable pub lstrip : (Char → Bool) → String → String
lstrip is_space [] = []
lstrip is_space (c ∷ t) = let rest = lstrip is_space t in if is_space c then rest else c ∷ t

-- `text.rstrip()`
unfoldable pub rstrip : (Char → Bool) → String → String
rstrip is_space [] = []
rstrip is_space (c ∷ t) =
    let rest = rstrip is_space t in if every_char is_space (c ∷ t) then [] else c ∷ rest

-- `text.removeprefix(s)` where the text begins with `s`
pub drop_chars-append : (s t : String) → drop_chars (count s) (s ++ t) ≡ t
unfolding drop_chars
drop_chars-append [] t = append.nil t
drop_chars-append (c ∷ s) t = rw (count.cons c s, append.cons c s t) (drop_chars-append s t)

-- `text[:len(s)]` where the text begins with `s`
pub take_chars-append : (s t : String) → take_chars (count s) (s ++ t) ≡ s
unfolding take_chars
take_chars-append [] t = refl
take_chars-append (c ∷ s) t =
    rw (count.cons c s, append.cons c s t) (ap (λ u. c ∷ u) (take_chars-append s t))

-- Two texts that begin with parts of one length are equal only where the parts and the rests are.
pub append-parts : (p q t u : String) → count p ≡ count q → p ++ t ≡ q ++ u → (p ≡ q) × (t ≡ u)
append-parts p q t u n e = (
  sym (take_chars-append p t)
      ∙ ap (λ x. take_chars (count p) x) e
      ∙ ap (λ k. take_chars k (q ++ u)) n
      ∙ take_chars-append q u,
  sym (drop_chars-append p t)
      ∙ ap (λ x. drop_chars (count p) x) e
      ∙ ap (λ k. drop_chars k (q ++ u)) n
      ∙ drop_chars-append q u,
)
